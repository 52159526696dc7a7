-- ===== src/Provisioning/Audit/Ends.antt =====
-- How the audit of the provisioning firmware ends (`handle_boot_audit` of
-- perceptive-layer/mqtt_protobuff/FIRM_PROVISIONING_MQTT_PROTOBUFF/main/main.cpp).
use governance_iot_platform.Prelude.{
  String, Bool, true, false, ◌&&◌, if◌then◌else◌, Option, none, some, ◌≡◌, ap, ◌∙◌, arith,
}
use governance_iot_platform.Nvs.{Nvs, read_write}
use governance_iot_platform.AppState
use governance_iot_platform.AppState.Codes.{
  DeviceState, ota_successful, command_complete, provisioning_success,
}
use governance_iot_platform.Device.{World, transition}
use governance_iot_platform.Device.Laws.{transition-current}
use governance_iot_platform.Device.State.{Outcome, done, halted, ◌>>=◌}
use governance_iot_platform.Mqtt.{publish_payload}
use governance_iot_platform.Ota.{Rollback, verify_rollback}
use governance_iot_platform.Core.Publish.{Surroundings}
use governance_iot_platform.Core.Audit.{
  Answers, is_pending, last_command, with_flash, open_audit, audit_crash,
}
use governance_iot_platform.Core.Audit.Ready.{
  IsReady, Ends, audit_crash-IsReady, open_audit-IsReady,
}
use Prim.Native.String.{◌++◌ as text_append}
use governance_iot_platform.Payload.{cut}
use governance_iot_platform.Provisioning.Handlers.{publish_proto_status}
use governance_iot_platform.Provisioning.Audit.{
  report_status, report_update, report_rollback, audit_target, audit_command, report_rest,
  handle_boot_audit,
}

module _ (nvs : Nvs) (env : Surroundings) where
  report_status-app :
      (detail : Option String) (w : World nvs) → (report_status nvs env detail w).app ≡ w.app
  unfolding report_status publish_proto_status publish_payload
  report_status-app detail w = ground arith

  report_rollback-app :
      (r : Rollback nvs) (w : World nvs) → (report_rollback nvs env r w).app ≡ w.app
  unfolding report_rollback
  report_rollback-app r w = report_status-app _ w

  audit_target-app : (a : Answers) (w : World nvs) → (audit_target nvs env a w).app ≡ w.app
  unfolding audit_target with_flash
  audit_target-app a w = ground (
    arith,
    report_rollback-app (verify_rollback nvs a.last_invalid w.flash).1
        (record w { flash = (verify_rollback nvs a.last_invalid w.flash).0 }),
  )

  transition-IsReady :
      (d : DeviceState) (w : World nvs) → IsReady nvs env w → IsReady nvs env (transition nvs d w)
  unfolding transition AppState.transition
  transition-IsReady d w r = ground arith

  audit_command-IsReady :
      (w : World nvs) → IsReady nvs env w → IsReady nvs env (audit_command nvs env w)
  unfolding audit_command with_flash
  audit_command-IsReady w r = ground (
    arith,
    ap (λ s. s.ready)
        (report_status-app
          (some (cut 63 (text_append "COMMAND_COMPLETE:" (last_command nvs env w.flash))))
          (transition nvs command_complete w)),
    transition-IsReady command_complete w r,
  )

  current_of :
      (d : DeviceState) (w : World nvs) → IsReady nvs env w → (transition nvs d w).app.current ≡ d
  unfolding transition
  current_of d w r = transition-current d w.app r

  report_rest-ends :
      (a : Answers) (w : World nvs)
      → IsReady nvs env w
      → (report_rest nvs env a w).app.current ≡ provisioning_success
  unfolding report_rest
  report_rest-ends a w r =
      current_of provisioning_success _
        (audit_command-IsReady _ (ap (λ s. s.ready) (audit_target-app a w) ∙ r))

  report_update-ends :
      (w : World nvs)
      → IsReady nvs env w
      → (report_update nvs env w).app.current ≡ provisioning_success
  unfolding report_update with_flash
  report_update-ends w r = current_of provisioning_success _ (
      ap (λ s. s.ready) (report_status-app none (transition nvs ota_successful w))
      ∙ transition-IsReady ota_successful w r)

  then_report :
      (a : Answers) (o : Outcome (World nvs) (Unit {0}))
      → Ends nvs env (IsReady nvs env) o
      → (w : World nvs)
      → Ends nvs env
          (λ w'. w'.app.current ≡ provisioning_success)
          (((λ _. o) >>= (λ _ w2. done tt (report_rest nvs env a w2))) w)
  then_report a (done x w') ready w = report_rest-ends a w' ready
  then_report a (halted stop w') e w = e

  either-Ends :
      (P : World nvs → Type 0) (b : Bool) (x y : Outcome (World nvs) (Unit {0}))
      → Ends nvs env P x
      → Ends nvs env P y
      → Ends nvs env P (if b then x else y)
  either-Ends P true x y p q = p
  either-Ends P false x y p q = q

  -- Once the mutex exists, whatever flash holds and the chip answers, the audit of the provisioning
  -- firmware either sends the chip back to the firmware before or returns in PROVISIONING_SUCCESS.
  pub handle_boot_audit_ends :
      (a : Answers) (w : World nvs)
      → w.app.ready ≡ true
      → Ends nvs env (λ w'. w'.app.current ≡ provisioning_success) (handle_boot_audit nvs env a w)
  unfolding handle_boot_audit
  handle_boot_audit_ends a w r =
      let w1 = open_audit nvs env a w in
      let ready = open_audit-IsReady nvs env a w r in
      either-Ends _
        (nvs.opens w1.flash read_write "ota_store"
          && is_pending nvs env "ota_store" "ota_notified" w1.flash)
        (done tt (report_update nvs env w1)) _ (report_update-ends w1 ready)
        (then_report a (audit_crash nvs env a w1) (audit_crash-IsReady nvs env a w1 ready) w1)
