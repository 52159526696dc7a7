-- ===== src/Device/Persist.antt =====
-- The mask of active errors in flash: what a restart restores of it.
use governance_iot_platform.Prelude.{ℕ, String, List, [], ◌∷◌, some, ◌≡◌, Bool-cases, inl, inr}
use governance_iot_platform.Nvs.{Nvs, IsHealthy, u32, read_write}
use governance_iot_platform.AppState.Codes.{ErrorCode, Source}
use governance_iot_platform.AppState
use governance_iot_platform.AppState.{is_error_active}
use governance_iot_platform.AppState.Activity.{settle_inactive, settle_active}
use governance_iot_platform.Device.{World, save_mask, set_error, resolve_error}

module _ (nvs : Nvs) where
  -- The flash holds the mask that is in memory.
  abbrev pub IsSaved : World nvs → Type 0
  IsSaved w = nvs.get w.flash "error_store" "active_mask" ≡ some (u32 w.app.active_error_mask)

  -- The state in which the next boot calls `loadPersistedErrors`: the flash is kept.
  abbrev pub reboot : World nvs → World nvs
  reboot w = record w { app = AppState.init AppState.initial }

  -- Calls that record errors and their resolutions.
  pub data Report : Type 0 where
    sets : ErrorCode → String → Source → List (String × String) → Report
    resolves : ErrorCode → Report

  unfoldable pub report : Report → World nvs → World nvs
  report (sets c m s d) w = set_error nvs c m s d w
  report (resolves c) w = resolve_error nvs c w

  unfoldable pub report_all : List Report → World nvs → World nvs
  report_all [] w = w
  report_all (r ∷ rs) w = report_all rs (report r w)

module _ (nvs : Nvs) (healthy : IsHealthy nvs) where
  pub get-save_mask :
      (m : ℕ) (f : nvs.Flash)
      → nvs.get (save_mask nvs m f) "error_store" "active_mask" ≡ some (u32 m)
  unfolding save_mask
  get-save_mask m f =
      rw (healthy.opens_all f read_write "error_store") (simp (nvs.get_commit, nvs.get_set))

  pub set_error-IsSaved :
      (c : ErrorCode) (m : String) (s : Source) (d : List (String × String)) (w : World nvs)
      → IsSaved nvs w
      → IsSaved nvs (set_error nvs c m s d w)
  unfolding set_error
  set_error-IsSaved c m s d w h = elim (Bool-cases w.app.ready) [
    | inl e ↦ rw e (get-save_mask _ w.flash)
    | inr e ↦ rw e h
  ]

  pub resolve_error-IsSaved :
      (c : ErrorCode) (w : World nvs) → IsSaved nvs w → IsSaved nvs (resolve_error nvs c w)
  unfolding resolve_error
  resolve_error-IsSaved c w h = elim (Bool-cases (is_error_active c w.app)) [
    | inl e ↦ rw (settle_active c w.app e) (get-save_mask _ w.flash)
    | inr e ↦ rw (settle_inactive c w.app e) h
  ]
