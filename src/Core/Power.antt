-- ===== src/Core/Power.antt =====
-- Sleep and battery (perceptive-layer/mqtt_protobuff/governance_core/src/governance_core.cpp):
-- hibernation at a critical battery, the decision at a wake, and the cycle of a sleeping firmware.
pub mod Wake
pub mod Streak
use governance_iot_platform.Prelude.{
  ℕ, ◌+◌, ◌*◌, ltb, leb, String, str_eq, Bool, true, false, not, ◌&&◌, ◌||◌, if◌then◌else◌, Option,
  none, some, List, [], ◌∷◌, ◌++◌,
}
use governance_iot_platform.Nvs.{Nvs, str, i32, read_write, i32_value}
use governance_iot_platform.AppState.Codes.{DeviceState, operational, critical_battery, state_index}
use governance_iot_platform.Device.{World, read_str, emit}
use governance_iot_platform.Device.State.{
  Payload, Outcome, done, halted, deep_sleep_start, timer_wakeup,
}
use governance_iot_platform.Wifi
use governance_iot_platform.Mqtt.{destroy, publish_payload}
use governance_iot_platform.Core.Publish.{Surroundings, publish_proto_status}
use Prim.Native.String.{◌++◌ as text_append}

-- The settings of the battery: CONFIG_GOV_BATTERY_CRITICAL_MV, _HYSTERESIS_MV, _CRITICAL_STREAK and
-- _WAKE_INTERVAL_S, and CONFIG_GOV_FIRMWARE_DEEP_SLEEP.
pub record Battery : Type 0 where
  pub critical_mv : ℕ
  pub hysteresis_mv : ℕ
  pub critical_streak : ℕ
  pub wake_interval_s : ℕ
  pub sleeps : Bool

module _ (nvs : Nvs) where
  -- set_hibernation_reason; none is nullptr
  unfoldable pub set_hibernation_reason : Option String → nvs.Flash → nvs.Flash
  set_hibernation_reason none f =
      if nvs.opens f read_write "main_store"
      then nvs.commit (nvs.erase_key f "main_store" "hib_reason") "main_store"
      else f
  set_hibernation_reason (some reason) f =
      if nvs.opens f read_write "main_store"
      then nvs.commit (nvs.set f "main_store" "hib_reason" (str reason)) "main_store"
      else f

  -- enter_deep_sleep
  unfoldable pub enter_deep_sleep : ℕ → String → World nvs → Outcome (World nvs) (Unit {0})
  enter_deep_sleep seconds reason w =
      let w1 = destroy nvs w in
      let (f, stopped) = Wifi.stop w1.wifi in
      halted deep_sleep_start (record w1 {
        wifi = f;
        flash = set_hibernation_reason (some reason) w1.flash;
        effects = timer_wakeup (seconds * 1000000) ∷ stopped ++ w1.effects;
      })

  -- check_wake_from_low_battery. `by_timer` says that the timer woke the chip, `mv` is what the hook
  -- answers, none if it is not given.
  unfoldable pub check_wake : Battery → Bool → Option ℕ → World nvs → Outcome (World nvs) (Unit {0})
  check_wake b by_timer mv w =
      let resumed = record w { flash = set_hibernation_reason none w.flash } in
      let sleep_on = enter_deep_sleep b.wake_interval_s "LOW_BATTERY" w in
      if not by_timer
        || not (str_eq (read_str nvs "main_store" "hib_reason" 32 w.flash) "LOW_BATTERY")
      then done tt w
      else elim mv [
        | none ↦ done tt resumed
        | some n ↦
            if not (ltb 0 n) || ltb n (b.critical_mv + b.hysteresis_mv)
            then sleep_on
            else done tt resumed
      ]

  -- the counter of a sleeping firmware, which its flash keeps: the streak and the flash
  unfoldable pub count_low : Bool → ℕ → nvs.Flash → ℕ × nvs.Flash
  count_low sleeps streak f =
      let persisted = i32_value 0 (nvs.get f "main_store" "low_bat_streak") + 1 in
      if sleeps && nvs.opens f read_write "main_store"
      then (
        persisted,
        nvs.commit (nvs.set f "main_store" "low_bat_streak" (i32 persisted)) "main_store",
      )
      else (streak, f)

  unfoldable pub forget_low : Bool → nvs.Flash → nvs.Flash
  forget_low sleeps f =
      if sleeps && nvs.opens f read_write "main_store"
      then nvs.commit (nvs.erase_key f "main_store" "low_bat_streak") "main_store"
      else f

  -- enter_low_battery_deep_sleep; `detail` prints the battery's millivolts
  unfoldable pub enter_low_battery_deep_sleep :
      Surroundings → Battery → String → World nvs → Outcome (World nvs) (Unit {0})
  enter_low_battery_deep_sleep env b detail w = enter_deep_sleep b.wake_interval_s "LOW_BATTERY" (
      publish_proto_status nvs env (text_append "status/" w.core.device_id)
        (state_index critical_battery) (some detail) w)

  -- the part of telemetry_task on the battery; `print` is the format of the detail
  unfoldable pub watch_battery :
      Surroundings → Battery → (ℕ → String) → Option ℕ → World nvs → Outcome (World nvs) (Unit {0})
  watch_battery env b print none w = done tt w
  watch_battery env b print (some mv) w =
      let streak = w.core.low_battery_streak + 1 in
      let (n, f) = count_low b.sleeps streak w.flash in
      let low = record w { core = record w.core { low_battery_streak = streak }; flash = f } in
      let fine = record w {
        core = record w.core { low_battery_streak = 0 };
        flash = forget_low b.sleeps w.flash;
      } in
      if ltb 0 mv && ltb mv b.critical_mv
      then if leb b.critical_streak n
        then enter_low_battery_deep_sleep env b (print mv) low
        else done tt low
      else done tt fine
