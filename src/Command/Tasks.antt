-- ===== src/Command/Tasks.antt =====
-- The tasks that the commands start (perceptive-layer/mqtt_protobuff/governance_core/src/CommandProcessor.cpp),
-- and the calls of src/WatchdogManager.cpp beside it.
use governance_iot_platform.Prelude.{
  ℕ, ◌*◌, String, Bool, if◌then◌else◌, Option, none, some, [], ◌∷◌,
}
use governance_iot_platform.Nvs.{Nvs}
use governance_iot_platform.AppState.Codes.{
  ota_fail, watchdog_init_fail, watchdog_add_fail, watchdog_remove_fail,
}
use governance_iot_platform.Device.{World, at, set_error}
use governance_iot_platform.Device.State.{
  timer_wakeup, Outcome, done, halted, restart, deep_sleep_start, ◌>>=◌,
}
use governance_iot_platform.Ota.{Download, verify_and_update}
use Prim.Native.String.{◌++◌ as text_append}

-- What esp_task_wdt_reconfigure and esp_task_wdt_init answer; the last is any other error's name.
pub data WdtAnswer : Type 0 where
  wdt_ok wdt_not_found : WdtAnswer
  wdt_error : String → WdtAnswer

-- the second call, where the first finds no watchdog
unfoldable pub started_answer : WdtAnswer → WdtAnswer → WdtAnswer
started_answer wdt_not_found second = second
started_answer wdt_ok second = wdt_ok
started_answer (wdt_error name) second = wdt_error name

module _ (nvs : Nvs) where
  unfoldable pub report_watchdog : WdtAnswer → World nvs → World nvs
  report_watchdog wdt_ok w = w
  report_watchdog wdt_not_found w =
      set_error nvs watchdog_init_fail "Error at initializing Watchdog: ESP_ERR_NOT_FOUND"
        (at "WatchdogManager" "init") [] w
  report_watchdog (wdt_error name) w =
      set_error nvs watchdog_init_fail (text_append "Error at initializing Watchdog: " name)
        (at "WatchdogManager" "init") [] w

  -- WatchdogManager::init
  unfoldable pub init_watchdog : WdtAnswer → WdtAnswer → World nvs → World nvs
  unfolding started_answer report_watchdog
  init_watchdog reconfigured initialised w =
      report_watchdog (started_answer reconfigured initialised) w

  -- WatchdogManager::addToCurrentTask
  unfoldable pub add_to_current_task : Option String → World nvs → World nvs
  add_to_current_task none w = w
  add_to_current_task (some name) w =
      set_error nvs watchdog_add_fail
        (text_append "Failed at adding task (might be added already): " name)
        (at "WatchdogManager" "addToCurrentTask") [] w

  -- WatchdogManager::removeFromCurrentTask
  unfoldable pub remove_from_current_task : Option String → World nvs → World nvs
  remove_from_current_task none w = w
  remove_from_current_task (some name) w =
      set_error nvs watchdog_remove_fail
        (text_append "Failed to delete monitoring from task: " name)
        (at "WatchdogManager" "removeFromCurrentTask") [] w

  -- after `verify_and_update` returns
  unfoldable pub report_update :
      Option String → String → String → Bool × String → World nvs → Outcome (World nvs) (Unit {0})
  report_update removed version sha (success, msg) w =
      let w1 = remove_from_current_task removed w in
      if success
      then done tt w1
      else done tt (
          set_error nvs ota_fail msg (at "CommandProcessor" "ota_task_routine")
            (("attempted_sha", sha) ∷ ("attempted_version", version) ∷ []) w1)

  -- ota_task_routine; `added` and `removed` name the errors of esp_task_wdt_add and
  -- esp_task_wdt_delete
  unfoldable pub ota_task_routine :
      Option String
      → Option String
      → Download
      → String
      → String
      → World nvs
      → Outcome (World nvs) (Unit {0})
  ota_task_routine added removed d version sha w =
      (verify_and_update nvs d version sha >>= report_update removed version sha)
        (add_to_current_task added w)

  -- reboot_task
  pub reboot_task : World nvs → Outcome (World nvs) (Unit {0})
  reboot_task w = halted restart w

  -- deep_sleep_task
  unfoldable pub deep_sleep_task : ℕ → World nvs → Outcome (World nvs) (Unit {0})
  deep_sleep_task s w =
      halted deep_sleep_start (record w { effects = timer_wakeup (s * 1000000) ∷ w.effects })
