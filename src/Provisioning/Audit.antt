-- ===== src/Provisioning/Audit.antt =====
-- The audit after the first connection to the broker: what the last boot left to report
-- (`handle_boot_audit` of
-- perceptive-layer/mqtt_protobuff/FIRM_PROVISIONING_MQTT_PROTOBUFF/main/main.cpp). Its first lines and
-- its part on main_store are the code of the core, and so are those definitions.
pub mod Ends
pub mod Target
pub mod Reported
pub mod Once
use governance_iot_platform.Prelude.{
  ℕ, String, Bool, true, false, not, ◌&&◌, if◌then◌else◌, Option, none, some, List, [], ◌∷◌,
}
use governance_iot_platform.Nvs.{Nvs, i8, read_write}
use governance_iot_platform.AppState.Codes.{
  state_index, ota_successful, command_complete, provisioning_success,
}
use governance_iot_platform.Device.{World, transition, read_str}
use governance_iot_platform.Device.State.{Outcome, done, halted, ◌>>=◌}
use governance_iot_platform.Ota.{is_empty, Rollback, verify_rollback}
use governance_iot_platform.Core.Publish.{Surroundings}
use governance_iot_platform.Core.Audit.{
  Answers, is_pending, last_command, with_flash, set_notified, forget_target, open_audit,
  audit_crash,
}
use governance_iot_platform.Payload.{cut}
use governance_iot_platform.Provisioning.Handlers.{publish_proto_status}
use Prim.Native.String.{◌++◌ as text_append}

module _ (nvs : Nvs) (env : Surroundings) where
  -- the status that tells the platform of the present state
  unfoldable pub report_status : Option String → World nvs → World nvs
  report_status detail w =
      publish_proto_status nvs env (text_append "status/" w.core.device_id)
        (state_index w.app.current) detail 1 w

  -- the branch `!otaNotified`, on the handle of ota_store that is open
  unfoldable pub report_update : World nvs → World nvs
  report_update w = transition nvs provisioning_success (
      with_flash nvs env (λ f. nvs.commit (nvs.set f "ota_store" "ota_notified" (i8 1)) "ota_store")
        (report_status none (transition nvs ota_successful w)))

  abbrev pub rollback_detail : String → String → String
  rollback_detail ver reason = text_append "ROLLBACK:v" (text_append ver (text_append ":" reason))

  -- a rollback by the bootloader; the detail has a buffer of 64 bytes
  unfoldable pub report_rollback : Rollback nvs → World nvs → World nvs
  report_rollback r w =
      report_status
        (some (
          cut 63
            (rollback_detail r.invalid_ver (read_str nvs "ota_store" "rollbackReason" 24 w.flash))))
        w

  -- the part on `lastTarget`
  unfoldable pub audit_target : Answers → World nvs → World nvs
  audit_target a w =
      let target = read_str nvs "ota_store" "target_ver" 32 w.flash in
      let (f, r) = verify_rollback nvs a.last_invalid w.flash in
      let w1 = record w { flash = f } in
      if is_empty target
      then w
      else if r.detected
      then report_rollback r w1
      else with_flash nvs env (forget_target nvs env) w1

  -- the part on command_store
  unfoldable pub audit_command : World nvs → World nvs
  audit_command w =
      let detail = cut 63 (text_append "COMMAND_COMPLETE:" (last_command nvs env w.flash)) in
      if nvs.opens w.flash read_write "command_store"
        && is_pending nvs env "command_store" "commandNotified" w.flash
      then with_flash nvs env (set_notified nvs env "command_store" "commandNotified")
          (report_status (some detail) (transition nvs command_complete w))
      else w

  -- what follows the part on main_store
  unfoldable pub report_rest : Answers → World nvs → World nvs
  unfolding audit_target audit_command
  report_rest a w = transition nvs provisioning_success (audit_command (audit_target a w))

  -- handle_boot_audit
  unfoldable pub handle_boot_audit : Answers → World nvs → Outcome (World nvs) (Unit {0})
  handle_boot_audit a w =
      let w1 = open_audit nvs env a w in
      let rest = (audit_crash nvs env a >>= (λ _ w2. done tt (report_rest a w2))) w1 in
      if nvs.opens w1.flash read_write "ota_store"
        && is_pending nvs env "ota_store" "ota_notified" w1.flash
      then done tt (report_update w1)
      else rest
