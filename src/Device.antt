-- ===== src/Device.antt =====
-- The state that the modules of governance_core share, and the calls of AppState that also write to
-- flash (perceptive-layer/mqtt_protobuff/governance_core/src/AppState.cpp).
pub mod State
pub mod Persist
pub mod Race
pub mod Laws
use governance_iot_platform.Prelude.{
  ℕ, String, Bool, true, false, if◌then◌else◌, List, [], ◌∷◌, Option, none, some,
}
use governance_iot_platform.Nvs.{Nvs, Value, str, u32, OpenMode, read_only, read_write, str_value}
use governance_iot_platform.AppState.Codes.{DeviceState, ErrorCode, Source, AppError}
use governance_iot_platform.AppState
use governance_iot_platform.AppState.{AppState, resolution}
use State.{Mqtt, Wifi, Core, Ota, Effect, Outcome, done}

abbrev pub at : String → String → Source
at c m = record { class_name = c; method = m }

-- what `setError` puts together from its arguments
abbrev pub failure : ErrorCode → String → Source → List (String × String) → AppError
failure c m s d = record { code = c; msg = m; source = s; details = d; resolved = false }

module _ (nvs : Nvs) where
  -- `effects` lists the newest first.
  pub record World : Type 0 where
    pub flash : nvs.Flash
    pub app : AppState
    pub mqtt : Mqtt
    pub wifi : Wifi
    pub core : Core
    pub ota : Ota
    pub effects : List Effect

  abbrev pub emit : Effect → World → World
  emit e w = record w { effects = e ∷ w.effects }

  -- `nvs_save_mask`
  unfoldable pub save_mask : ℕ → nvs.Flash → nvs.Flash
  save_mask mask f =
      if nvs.opens f read_write "error_store"
      then nvs.commit (nvs.set f "error_store" "active_mask" (u32 mask)) "error_store"
      else f

  -- AppState::setError
  unfoldable pub set_error : ErrorCode → String → Source → List (String × String) → World → World
  set_error code msg source details w =
      let app = AppState.register (failure code msg source details) w.app in
      if w.app.ready
      then record w { app = app; flash = save_mask app.active_error_mask w.flash }
      else w

  -- AppState::resolveError
  unfoldable pub resolve_error : ErrorCode → World → World
  resolve_error code w =
      let (app, was_active) = AppState.settle code w.app in
      if was_active
      then record w { app = app; flash = save_mask app.active_error_mask w.flash }
      else record w { app = app }

  -- AppState::transition
  unfoldable pub transition : DeviceState → World → World
  transition next w = record w { app = AppState.transition next w.app }

  -- what `nvs_get_u32` of the mask finds
  unfoldable pub mask_value : Option Value → Option ℕ
  mask_value (some (u32 m)) = some m
  mask_value _ = none

  unfoldable pub restored : Option ℕ → AppState → AppState
  restored (some m) s = AppState.restore_mask m s
  restored none s = s

  -- AppState::loadPersistedErrors
  unfoldable pub load_persisted_errors : World → World
  unfolding mask_value restored
  load_persisted_errors w =
      if nvs.opens w.flash read_only "error_store"
      then record w {
        app = restored (mask_value (nvs.get w.flash "error_store" "active_mask")) w.app;
      }
      else w

  -- `nvs_read_str` of governance_core.cpp and of OtaManager.cpp
  unfoldable pub read_str : String → String → ℕ → nvs.Flash → String
  read_str ns key size f =
      if nvs.opens f read_only ns then str_value size (nvs.get f ns key) else ""
