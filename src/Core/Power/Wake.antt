-- ===== src/Core/Power/Wake.antt =====
-- A device that hibernates for its battery goes on only when the battery has recovered.
use governance_iot_platform.Prelude.{
  ℕ, ◌+◌, ltb, leb, Bool, true, false, not, ◌&&◌, ◌||◌, if◌then◌else◌, none, some, ◌≡◌, refl, sym,
  subst, arith, inl, inr, ◌⊎◌, Bool-cases,
}
use governance_iot_platform.Nvs.{Nvs, IsHealthy, str}
use governance_iot_platform.Device.{World, read_str}
use governance_iot_platform.Device.State.{Outcome, done, halted, deep_sleep_start}
use governance_iot_platform.Core.Power.{
  Battery, set_hibernation_reason, enter_deep_sleep, check_wake,
}

module _ (nvs : Nvs) (healthy : IsHealthy nvs) where
  -- The chip sleeps again, and flash still says why.
  abbrev pub SleepsOn : Outcome (World nvs) (Unit {0}) → Type 0
  SleepsOn (done x w) = ⊥
  SleepsOn (halted stop w) =
      (stop ≡ deep_sleep_start)
      × (nvs.get w.flash "main_store" "hib_reason" ≡ some (str "LOW_BATTERY"))

  -- The boot goes on, and flash no longer says that the device hibernates.
  abbrev pub Resumes : Outcome (World nvs) (Unit {0}) → Type 0
  Resumes (done x w) = nvs.get w.flash "main_store" "hib_reason" ≡ none
  Resumes (halted stop w) = ⊥

  pub enter_deep_sleep-SleepsOn :
      (n : ℕ) (w : World nvs) → SleepsOn (enter_deep_sleep nvs n "LOW_BATTERY" w)
  unfolding enter_deep_sleep set_hibernation_reason
  enter_deep_sleep-SleepsOn n w = (refl, simp (healthy.opens_all, nvs.get_commit, nvs.get_set))

  resumed :
      (w : World nvs)
      → nvs.get (set_hibernation_reason nvs none w.flash) "main_store" "hib_reason" ≡ none
  unfolding set_hibernation_reason
  resumed w = simp (healthy.opens_all, nvs.get_commit, nvs.get_erase)

  -- what the wake decides, once the timer and the reason are known
  decides :
      (b : Battery) (mv : ℕ) (w : World nvs)
      → nvs.get w.flash "main_store" "hib_reason" ≡ some (str "LOW_BATTERY")
      → check_wake nvs b true (some mv) w ≡ (
          if not (ltb 0 mv) || ltb mv (b.critical_mv + b.hysteresis_mv)
          then enter_deep_sleep nvs b.wake_interval_s "LOW_BATTERY" w
          else done tt (record w { flash = set_hibernation_reason nvs none w.flash }))
  unfolding check_wake read_str
  decides b mv w h = simp (healthy.opens_all, h)

  -- a valid reading of at least the critical level and the hysteresis
  abbrev pub has_recovered : Battery → ℕ → Bool
  has_recovered b mv = ltb 0 mv && leb (b.critical_mv + b.hysteresis_mv) mv

  -- On an NVS that opens, a device that hibernated for its battery and is woken by its timer goes on
  -- if the reading is valid and at least the critical level plus the hysteresis, and then forgets the
  -- reason; if not, it sleeps again and keeps the reason.
  pub wake_by_battery :
      (b : Battery) (mv : ℕ) (w : World nvs)
      → nvs.get w.flash "main_store" "hib_reason" ≡ some (str "LOW_BATTERY")
      → ((has_recovered b mv ≡ true) × Resumes (check_wake nvs b true (some mv) w))
        ⊎ ((has_recovered b mv ≡ false) × SleepsOn (check_wake nvs b true (some mv) w))
  wake_by_battery b mv w h =
      let limit = b.critical_mv + b.hysteresis_mv in
      elim (Bool-cases (not (ltb 0 mv) || ltb mv limit)) [
        | inl e ↦ inr (
          ground arith,
          subst SleepsOn (sym (decides b mv w h))
              (rw e (enter_deep_sleep-SleepsOn b.wake_interval_s w)),
        )
        | inr e ↦ inl (ground arith, subst Resumes (sym (decides b mv w h)) (rw e (resumed w)))
      ]
