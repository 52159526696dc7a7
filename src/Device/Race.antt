-- ===== src/Device/Race.antt =====
-- Tasks that report errors at once: `setError` and `resolveError` leave the mutex before they save
-- the mask, so their saves can be made in another order than their updates
-- (perceptive-layer/mqtt_protobuff/governance_core/src/AppState.cpp).
use governance_iot_platform.Prelude.{
  ℕ, ◌==◌, true, false, List, [], ◌∷◌, ◌++◌, some, ◌≡◌, refl, arith, ==_refl,
}
use governance_iot_platform.Nvs.{Nvs, IsHealthy, u32}
use governance_iot_platform.AppState.Codes.{ErrorCode, error_index, AppError}
use governance_iot_platform.AppState
use governance_iot_platform.AppState.{AppState, is_error_active}
use governance_iot_platform.AppState.Activity.{is_error_active-register}
use governance_iot_platform.Device.{save_mask}
use governance_iot_platform.Device.Persist.{get-save_mask}

module _ (nvs : Nvs) where
  -- `pending` holds the masks of the calls that have left the mutex and not saved yet.
  pub record Shared : Type 0 where
    pub app : AppState
    pub flash : nvs.Flash
    pub pending : List ℕ

  pub data Step : Shared → Shared → Type 0 where
    -- the critical section of setError
    sets :
        (e : AppError) (s : Shared)
        → Step s (record s {
          app = AppState.register e s.app;
          pending = (AppState.register e s.app).active_error_mask ∷ s.pending;
        })
    -- the critical section of resolveError, of an error that is active
    resolves :
        (c : ErrorCode) (s : Shared)
        → is_error_active c s.app ≡ true
        → Step s (record s {
          app = (AppState.settle c s.app).0;
          pending = (AppState.settle c s.app).0.active_error_mask ∷ s.pending;
        })
    -- any of the calls that have left the mutex goes on to nvs_save_mask
    saves :
        (before after : List ℕ) (m : ℕ) (s : Shared)
        → s.pending ≡ before ++ m ∷ after
        → Step s (record s { flash = save_mask nvs m s.flash; pending = before ++ after })

  pub data Reach (s : Shared) : Shared → Type 0 where
    here : Reach s s
    next : {t u : Shared} → Reach s t → Step t u → Reach s u

  -- The two updates in one order, and their saves in the other.
  crossed : AppError → AppError → Shared → Shared
  crossed e e' s =
      let first = AppState.register e s.app in
      let second = AppState.register e' first in
      record {
        app = second;
        flash =
            save_mask nvs first.active_error_mask (save_mask nvs second.active_error_mask s.flash);
        pending = s.pending;
      }

  crossed-Reach : (e e' : AppError) (s : Shared) → Reach s (crossed e e' s)
  unfolding crossed
  crossed-Reach e e' s =
      let first = AppState.register e s.app in
      let second = AppState.register e' first in
      let m = first.active_error_mask in
      let m' = second.active_error_mask in
      let s1 : Shared = record s { app = first; pending = m ∷ s.pending } in
      let s2 : Shared = record s { app = second; pending = m' ∷ m ∷ s.pending } in
      let s3 : Shared = record s2 { flash = save_mask nvs m' s.flash; pending = m ∷ s.pending } in
      next (next (next (next here (sets e s)) (sets e' s1)) (saves [] (m ∷ s.pending) m' s2 refl))
        (saves [] s.pending m s3 refl)

  -- On a flash that works, whatever errors `e` and `e'` two tasks report, if `e'` has a bit and is
  -- not active after `e`, there is an order of their steps after which no call is pending and `e'`
  -- is active in memory, and not active in the mask that the flash holds.
  pub saves_cross :
      (healthy : IsHealthy nvs) (e e' : AppError) (s : Shared)
      → s.pending ≡ []
      → (error_index e'.code == 0) ≡ false
      → is_error_active e'.code (AppState.register e s.app) ≡ false
      → (t : Shared) × Reach s t
        × (t.pending ≡ [])
        × (is_error_active e'.code t.app ≡ true)
        × (m : ℕ) × (nvs.get t.flash "error_store" "active_mask" ≡ some (u32 m))
        × (is_error_active e'.code (AppState.restore_mask m t.app) ≡ false)
  unfolding crossed AppState.restore_mask is_error_active
  saves_cross healthy e e' s idle h quiet = (
    crossed e e' s,
    crossed-Reach e e' s,
    idle,
    ground (
      arith,
      is_error_active-register e' (AppState.register e s.app) e'.code,
      ==_refl (error_index e'.code),
    ),
    (AppState.register e s.app).active_error_mask,
    get-save_mask nvs healthy _ _,
    quiet,
  )
