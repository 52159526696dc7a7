-- ===== src/Device/Laws.antt =====
-- What the calls of AppState leave of the rest of the device.
use governance_iot_platform.Prelude.{String, true, false, List, ◌≡◌, ◌∙◌, arith, ==_refl, and_false}
use governance_iot_platform.Nvs.{Nvs}
use governance_iot_platform.AppState.Codes.{DeviceState, ErrorCode, error_index, Source}
use governance_iot_platform.AppState
use governance_iot_platform.AppState.{AppState, is_error_active}
use governance_iot_platform.AppState.Activity.{is_error_active-settle}
use governance_iot_platform.Device.{World, set_error, resolve_error, failure}

-- A settled error is not active, whether it was or not.
pub settle_self : (c : ErrorCode) (s : AppState) → is_error_active c (AppState.settle c s).0 ≡ false
settle_self c s =
    is_error_active-settle c s c
    ∙ ground (arith, ==_refl (error_index c), and_false (is_error_active c s))

pub settle-ready : (c : ErrorCode) (s : AppState) → (AppState.settle c s).0.ready ≡ s.ready
unfolding AppState.settle
settle-ready c s = ground arith

pub settle-current : (c : ErrorCode) (s : AppState) → (AppState.settle c s).0.current ≡ s.current
unfolding AppState.settle
settle-current c s = ground arith

pub transition-active :
    (c : ErrorCode) (d : DeviceState) (s : AppState)
    → is_error_active c (AppState.transition d s) ≡ is_error_active c s
unfolding AppState.transition is_error_active
transition-active c d s = ground arith

pub transition-current :
    (d : DeviceState) (s : AppState) → s.ready ≡ true → (AppState.transition d s).current ≡ d
unfolding AppState.transition
transition-current d s r = ground arith

module _ (nvs : Nvs) where
  pub resolve_error-app :
      (c : ErrorCode) (w : World nvs) → (resolve_error nvs c w).app ≡ (AppState.settle c w.app).0
  unfolding resolve_error
  resolve_error-app c w = ground arith

  pub resolve_error-effects :
      (c : ErrorCode) (w : World nvs) → (resolve_error nvs c w).effects ≡ w.effects
  unfolding resolve_error
  resolve_error-effects c w = ground arith

  pub set_error-app :
      (c : ErrorCode) (m : String) (s : Source) (d : List (String × String)) (w : World nvs)
      → w.app.ready ≡ true
      → (set_error nvs c m s d w).app ≡ AppState.register (failure c m s d) w.app
  unfolding set_error
  set_error-app c m s d w r = ground arith

  pub set_error-effects :
      (c : ErrorCode) (m : String) (s : Source) (d : List (String × String)) (w : World nvs)
      → (set_error nvs c m s d w).effects ≡ w.effects
  unfolding set_error
  set_error-effects c m s d w = ground arith
