-- ===== src/Core/Audit.antt =====
-- The audit after the first connection to the broker: what the last boot left to report
-- (`handle_boot_audit` of perceptive-layer/mqtt_protobuff/governance_core/src/governance_core.cpp).
pub mod Crash
pub mod Kept
pub mod Boots
pub mod Ready
pub mod Branches
use governance_iot_platform.Prelude.{
  ℕ, ◌+◌, ◌%◌, ◌^◌, ◌==◌, leb, String, str_eq, Bool, true, false, not, ◌&&◌, if◌then◌else◌, Option,
  none, some, List, [], ◌∷◌,
}
use governance_iot_platform.Nvs.{Nvs, i8, read_only, read_write, str_value, i8_value}
use governance_iot_platform.AppState.Codes.{
  DeviceState, state_index, ota_successful, firmware_rollback, command_complete, sensors_init,
  mqtt_init_fail, mqtt_disconnected, ota_fail,
}
use governance_iot_platform.Device.{World, at, set_error, resolve_error, transition, read_str}
use governance_iot_platform.Device.State.{Outcome, done, halted, ◌>>=◌}
use governance_iot_platform.Mqtt.{subscribe_topic}
use governance_iot_platform.Ota.{
  ImageState, pending_verify, is_empty, set_valid_version, set_invalid_version, Rollback,
  verify_rollback,
}
use governance_iot_platform.Core.Publish.{Surroundings, publish_proto_status}
use Prim.Native.String.{◌++◌ as text_append}

-- What the chip answers in an audit: `crashed` says that the reset was by a watchdog or a panic,
-- `max_crash` is CONFIG_GOV_MAX_CRASH_COUNT, and the others are the arguments of the calls.
pub record Answers : Type 0 where
  pub image : Option ImageState
  pub marked : Bool
  pub sent : Bool
  pub crashed : Bool
  pub max_crash : ℕ
  pub possible : Bool
  pub reboots : Bool
  pub last_invalid : Option String

-- The running image waits for its confirmation.
abbrev pub needs_validation : Option ImageState → Bool
needs_validation (some pending_verify) = true
needs_validation _ = false

-- the details of a status, which fit their buffers
abbrev pub command_detail : String → String
command_detail name = text_append "{\"command\":\"" (text_append name "\"}")

abbrev pub rollback_detail : String → String → String → String
rollback_detail ver sha reason = text_append "{\"invalid_ver\":\"" (
    text_append ver (
      text_append "\",\"invalid_sha\":\""
        (text_append sha (text_append "\",\"reason\":\"" (text_append reason "\"}")))))

module _ (nvs : Nvs) (env : Surroundings) where
  -- a transition, and the status that tells the platform of it
  unfoldable pub announce : DeviceState → Option String → World nvs → World nvs
  announce state detail w =
      let w1 = transition nvs state w in
      publish_proto_status nvs env (text_append "status/" w.core.device_id)
        (state_index w1.app.current) detail w1

  -- a flag that says that something has been reported
  unfoldable pub set_notified : String → String → nvs.Flash → nvs.Flash
  set_notified store key f =
      if nvs.opens f read_write store then nvs.commit (nvs.set f store key (i8 1)) store else f

  abbrev pub is_pending : String → String → nvs.Flash → Bool
  is_pending store key f = i8_value 1 (nvs.get f store key) == 0

  abbrev pub last_command : nvs.Flash → String
  last_command f = str_value 32 (nvs.get f "command_store" "lastCommand")

  -- `wasRollback`
  unfoldable pub was_rollback : nvs.Flash → Bool
  was_rollback f =
      nvs.opens f read_only "command_store"
      && (is_pending "command_store" "commandNotified" f
          && str_eq (last_command f) "FIRMWARE_ROLLBACK")

  unfoldable pub with_flash : (nvs.Flash → nvs.Flash) → World nvs → World nvs
  with_flash g w = record w { flash = g w.flash }

  -- the branch `!otaNotified`
  unfoldable pub report_update : World nvs → World nvs
  report_update w =
      let completed =
        with_flash (set_notified "command_store" "commandNotified")
          (announce command_complete (some (command_detail "FIRMWARE_ROLLBACK")) w) in
      let reported = if was_rollback w.flash then completed else announce ota_successful none w in
      transition nvs sensors_init (
        with_flash (λ f. nvs.commit (nvs.set f "ota_store" "ota_notified" (i8 1)) "ota_store")
          reported)

  unfoldable pub store_count : ℕ → nvs.Flash → nvs.Flash
  store_count n f = nvs.commit (nvs.set f "main_store" "crash_count" (i8 (n % 2 ^ 8))) "main_store"

  -- the count of crashes; the crash of an image in another partition does not count
  unfoldable pub count_crash : Bool → World nvs → World nvs
  count_crash crashed w =
      let n = i8_value 0 (nvs.get w.flash "main_store" "crash_count") + 1 in
      if crashed && not w.core.boot_part_changed
      then record w { core = record w.core { crash_count = n }; flash = store_count n w.flash }
      else with_flash (store_count 0) w

  -- the part on main_store. A count of 128 would be read back as negative: the limit is below it.
  unfoldable pub audit_crash : Answers → World nvs → Outcome (World nvs) (Unit {0})
  audit_crash a w =
      let counted = count_crash a.crashed w in
      if nvs.opens w.flash read_write "main_store"
      then if leb a.max_crash counted.core.crash_count
        then set_invalid_version nvs a.possible a.reboots "crashCount"
            (with_flash (store_count 0) counted)
        else done tt counted
      else done tt w

  unfoldable pub with_version : World nvs → World nvs
  with_version w = record w {
    core = record w.core { firmware_version = read_str nvs "main_store" "fw_version" 32 w.flash };
  }

  -- a rollback by the bootloader
  unfoldable pub report_rollback : Rollback nvs → World nvs → World nvs
  report_rollback r w =
      announce firmware_rollback
        (some (
          rollback_detail r.invalid_ver (read_str nvs "ota_store" "invalid_sha" 65 w.flash)
            (read_str nvs "ota_store" "rollbackReason" 24 w.flash)))
        (with_version w)

  unfoldable pub forget_target : nvs.Flash → nvs.Flash
  forget_target f =
      if nvs.opens f read_write "ota_store"
      then nvs.commit (nvs.erase_key f "ota_store" "target_ver") "ota_store"
      else f

  -- a download that did not come to its end
  unfoldable pub report_aborted : String → World nvs → World nvs
  report_aborted target w =
      let w1 = with_version w in
      with_flash forget_target (
        set_error nvs ota_fail "Error while updating to new firmware."
          (at "GOV_CORE" "verify_and_update")
          (("attempted_version", target) ∷ ("current_version", w1.core.firmware_version) ∷ []) w1)

  -- the part on `lastTarget`
  unfoldable pub audit_target : Answers → World nvs → World nvs
  audit_target a w =
      let target = read_str nvs "ota_store" "target_ver" 32 w.flash in
      let (f, r) = verify_rollback nvs a.last_invalid w.flash in
      let w1 = record w { flash = f } in
      if is_empty target
      then w
      else if r.detected
      then report_rollback r w1
      else report_aborted target w1

  -- the part on command_store
  unfoldable pub audit_command : World nvs → World nvs
  audit_command w =
      let reported = announce command_complete (some (command_detail (last_command w.flash))) w in
      if nvs.opens w.flash read_write "command_store"
        && is_pending "command_store" "commandNotified" w.flash
      then with_flash (set_notified "command_store" "commandNotified") reported
      else w

  unfoldable pub finish_audit : World nvs → World nvs
  finish_audit w =
      transition nvs sensors_init
        (resolve_error nvs mqtt_disconnected (resolve_error nvs mqtt_init_fail w))

  -- the first lines of `handle_boot_audit`
  unfoldable pub open_audit : Answers → World nvs → World nvs
  open_audit a w =
      let valid = set_valid_version nvs a.image a.marked w in
      let w1 =
        if w.core.valid_firmware
        then w
        else record valid { core = record valid.core { valid_firmware = true } } in
      subscribe_topic nvs a.sent (text_append "commands/" (text_append w1.core.device_id "/#")) 1 w1

  -- handle_boot_audit
  unfoldable pub handle_boot_audit : Answers → World nvs → Outcome (World nvs) (Unit {0})
  handle_boot_audit a w =
      let w1 = open_audit a w in
      let rest =
        (audit_crash a >>= (λ _ w2. done tt (finish_audit (audit_command (audit_target a w2)))))
          w1 in
      if nvs.opens w1.flash read_write "ota_store" && is_pending "ota_store" "ota_notified" w1.flash
      then done tt (report_update w1)
      else rest
