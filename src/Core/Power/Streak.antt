-- ===== src/Core/Power/Streak.antt =====
-- Readings at a critical level: the streak that makes the device hibernate (`telemetry_task` of
-- perceptive-layer/mqtt_protobuff/governance_core/src/governance_core.cpp).
use governance_iot_platform.Prelude.{
  ℕ, suc, ◌+◌, ltb, leb, String, Bool, true, false, ◌&&◌, if◌then◌else◌, List, [], ◌∷◌, ◌++◌,
  length, ◌<◌, ap, ◌∙◌, some, ◌≡◌, refl, sym, subst, arith,
}
use governance_iot_platform.Nvs.{Nvs, IsHealthy, i32_value}
use governance_iot_platform.Device.{World}
use governance_iot_platform.Device.State.{Outcome, done, halted, ◌>>=◌}
use governance_iot_platform.Core.Publish.{Surroundings}
use governance_iot_platform.Core.Power.{
  Battery, count_low, forget_low, enter_low_battery_deep_sleep, watch_battery,
}
use governance_iot_platform.Core.Power.Wake.{SleepsOn, enter_deep_sleep-SleepsOn}

module _ (nvs : Nvs) (healthy : IsHealthy nvs) (env : Surroundings) where
  -- where a firmware that sleeps keeps the streak, and where another one does
  abbrev pub streak_of : Bool → World nvs → ℕ
  streak_of true w = i32_value 0 (nvs.get w.flash "main_store" "low_bat_streak")
  streak_of false w = w.core.low_battery_streak

  abbrev counted : Bool → World nvs → World nvs
  counted sleeps w = record w {
    core = record w.core { low_battery_streak = w.core.low_battery_streak + 1 };
    flash = (count_low nvs sleeps (w.core.low_battery_streak + 1) w.flash).1;
  }

  count_low_lem :
      (sleeps : Bool) (w : World nvs)
      → ((count_low nvs sleeps (w.core.low_battery_streak + 1) w.flash).0 ≡ streak_of sleeps w + 1)
        × (streak_of sleeps (counted sleeps w) ≡ streak_of sleeps w + 1)
  unfolding count_low
  count_low_lem true w =
      (simp (healthy.opens_all), simp (healthy.opens_all, nvs.get_commit, nvs.get_set))
  count_low_lem false w = (refl, refl)

  abbrev pub is_critical : Battery → ℕ → Bool
  is_critical b mv = ltb 0 mv && ltb mv b.critical_mv

  watch_lem :
      (b : Battery) (print : ℕ → String) (mv : ℕ) (w : World nvs)
      → is_critical b mv ≡ true
      → watch_battery nvs env b print (some mv) w ≡ (
          if leb b.critical_streak (streak_of b.sleeps w + 1)
          then enter_low_battery_deep_sleep nvs env b (print mv) (counted b.sleeps w)
          else done tt (counted b.sleeps w))
  unfolding watch_battery
  watch_lem b print mv w low =
      let hibernate = enter_low_battery_deep_sleep nvs env b (print mv) (counted b.sleeps w) in
      let fine = record w {
        core = record w.core { low_battery_streak = 0 };
        flash = forget_low nvs b.sleeps w.flash;
      } in
      let n = (count_low nvs b.sleeps (w.core.low_battery_streak + 1) w.flash).0 in
      ap
        (λ (c : Bool).
          if c
          then if leb b.critical_streak n then hibernate else done tt (counted b.sleeps w)
          else done tt fine)
        low
      ∙ ap (λ (k : ℕ). if leb b.critical_streak k then hibernate else done tt (counted b.sleeps w))
          (count_low_lem b.sleeps w).0

  -- readings at a critical level, one after another
  unfoldable pub readings :
      Battery → (ℕ → String) → List ℕ → World nvs → Outcome (World nvs) (Unit {0})
  readings b print [] w = done tt w
  readings b print (mv ∷ mvs) w =
      (watch_battery nvs env b print (some mv) >>= (λ _ w'. readings b print mvs w')) w

  abbrev pub AllCritical : Battery → List ℕ → Type 0
  AllCritical b [] = Unit {0}
  AllCritical b (mv ∷ mvs) = (is_critical b mv ≡ true) × AllCritical b mvs

  abbrev pub Watches : Bool → ℕ → Outcome (World nvs) (Unit {0}) → Type 0
  Watches sleeps n (done x w) = streak_of sleeps w ≡ n
  Watches sleeps n (halted stop w) = ⊥

  hibernate-SleepsOn :
      (b : Battery) (detail : String) (w : World nvs)
      → SleepsOn nvs healthy (enter_low_battery_deep_sleep nvs env b detail w)
  unfolding enter_low_battery_deep_sleep
  hibernate-SleepsOn b detail w = enter_deep_sleep-SleepsOn nvs healthy b.wake_interval_s _

  last_reading :
      (b : Battery) (print : ℕ → String) (mv : ℕ) (w : World nvs)
      → is_critical b mv ≡ true
      → streak_of b.sleeps w + 1 ≡ b.critical_streak
      → SleepsOn nvs healthy (readings b print (mv ∷ []) w)
  unfolding readings
  last_reading b print mv w low limit =
      let hibernate = enter_low_battery_deep_sleep nvs env b (print mv) (counted b.sleeps w) in
      let over : leb b.critical_streak (streak_of b.sleeps w + 1) ≡ true = ground arith in
      subst (λ o. SleepsOn nvs healthy (((λ _. o) >>= (λ _ w'. done tt w')) w))
        (sym (
          watch_lem b print mv w low
          ∙ ap (λ (c : Bool). if c then hibernate else done tt (counted b.sleeps w)) over))
        (halts hibernate (hibernate-SleepsOn b (print mv) (counted b.sleeps w)))
    where
      halts :
          (o : Outcome (World nvs) (Unit {0}))
          → SleepsOn nvs healthy o
          → SleepsOn nvs healthy (((λ _. o) >>= (λ _ w'. done tt w')) w)
      halts (done x w') slept = absurd slept
      halts (halted stop w') slept = slept

  one_reading :
      (b : Battery) (print : ℕ → String) (mv : ℕ) (w : World nvs)
      → is_critical b mv ≡ true
      → streak_of b.sleeps w + 1 < b.critical_streak
      → watch_battery nvs env b print (some mv) w ≡ done tt (counted b.sleeps w)
  one_reading b print mv w low below =
      let hibernate = enter_low_battery_deep_sleep nvs env b (print mv) (counted b.sleeps w) in
      let under : leb b.critical_streak (streak_of b.sleeps w + 1) ≡ false = ground arith in
      watch_lem b print mv w low
      ∙ ap (λ (c : Bool). if c then hibernate else done tt (counted b.sleeps w)) under

  -- On an NVS that opens, from a streak of c, with a limit of c + k + 1: after k critical readings one
  -- after another the device goes on, and its streak, which a firmware that sleeps keeps in flash and
  -- another one in memory, is c + k; after one more it sleeps, and flash says that it hibernates.
  pub streak_hibernates :
      (b : Battery) (print : ℕ → String) (mvs : List ℕ) (mv : ℕ) (w : World nvs)
      → streak_of b.sleeps w + length mvs + 1 ≡ b.critical_streak
      → AllCritical b mvs
      → is_critical b mv ≡ true
      → Watches b.sleeps (streak_of b.sleeps w + length mvs) (readings b print mvs w)
        × SleepsOn nvs healthy (readings b print (mvs ++ mv ∷ []) w)
  unfolding readings
  streak_hibernates b print [] mv w limit all low =
      (omega arith, last_reading b print mv w low (omega arith))
  streak_hibernates b print (x ∷ mvs) mv w limit all low =
      let w1 = counted b.sleeps w in
      let more = (count_low_lem b.sleeps w).1 in
      let later = streak_hibernates b print mvs mv w1 (omega arith) all.1 low in
      let step = sym (one_reading b print x w all.0 (omega arith)) in
      let sum : streak_of b.sleeps w1 + length mvs ≡ streak_of b.sleeps w + suc (length mvs) =
        omega arith in
      (
        subst
            (λ o.
              Watches b.sleeps (streak_of b.sleeps w + suc (length mvs))
                (((λ _. o) >>= (λ _ w'. readings b print mvs w')) w))
            step (subst (λ n. Watches b.sleeps n (readings b print mvs w1)) sum later.0),
        subst
            (λ o.
              SleepsOn nvs healthy
                (((λ _. o) >>= (λ _ w'. readings b print (mvs ++ mv ∷ []) w')) w))
            step later.1,
      )
