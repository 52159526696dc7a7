-- ===== src/Core/Audit/Ready.antt =====
-- The steps of the boot audit leave the mutex of the state as it is
-- (perceptive-layer/mqtt_protobuff/governance_core/src/governance_core.cpp).
use governance_iot_platform.Prelude.{
  ℕ, leb, String, Bool, true, false, if◌then◌else◌, Option, none, some, ◌≡◌, refl, ap, ◌∙◌, arith,
  inl, inr, Bool-cases, List,
}
use governance_iot_platform.Nvs.{Nvs, read_write}
use governance_iot_platform.AppState.Codes.{
  DeviceState, ErrorCode, Source, command_complete, firmware_rollback, ota_fail,
}
use governance_iot_platform.AppState
use governance_iot_platform.AppState.{AppState, is_error_active}
use governance_iot_platform.Device.{World, set_error, transition, read_str}
use governance_iot_platform.Device.Laws.{set_error-app}
use governance_iot_platform.Device.State.{Outcome, done, halted, rollback_and_reboot}
use governance_iot_platform.Ota.{
  ImageState, pending_verify, other_state, set_valid_version, set_invalid_version, Rollback,
  verify_rollback, is_empty,
}
use governance_iot_platform.Mqtt.{subscribe_topic, publish_payload}
use governance_iot_platform.Core.Publish.{Surroundings, publish_proto_status}
use governance_iot_platform.Core.Audit.{
  Answers, announce, last_command, command_detail, store_count, with_flash, with_version,
  count_crash, audit_crash, report_rollback, report_aborted, audit_target, audit_command,
  open_audit,
}

module _ (nvs : Nvs) (env : Surroundings) where
  abbrev pub IsReady : World nvs → Type 0
  IsReady w = w.app.ready ≡ true

  transition-IsReady : (d : DeviceState) (w : World nvs) → IsReady w → IsReady (transition nvs d w)
  unfolding transition AppState.transition
  transition-IsReady d w r = ground arith

  set_error-IsReady :
      (c : ErrorCode) (m : String) (s : Source) (d : List (String × String)) (w : World nvs)
      → IsReady w
      → IsReady (set_error nvs c m s d w)
  unfolding AppState.register
  set_error-IsReady c m s d w r = ap (λ x. x.ready) (set_error-app nvs c m s d w r) ∙ r

  status-IsReady :
      (topic : String) (n : ℕ) (detail : Option String) (w : World nvs)
      → IsReady w
      → IsReady (publish_proto_status nvs env topic n detail w)
  unfolding publish_proto_status publish_payload
  status-IsReady topic n detail w r = ground arith

  pub announce-IsReady :
      (d : DeviceState) (detail : Option String) (w : World nvs)
      → IsReady w
      → IsReady (announce nvs env d detail w)
  unfolding announce
  announce-IsReady d detail w r = status-IsReady _ _ detail _ (transition-IsReady d w r)

  either :
      (P : World nvs → Type 0) (b : Bool) (x y : World nvs) → P x → P y → P (if b then x else y)
  either P true x y p q = p
  either P false x y p q = q

  report_rollback-IsReady :
      (r : Rollback nvs) (w : World nvs) → IsReady w → IsReady (report_rollback nvs env r w)
  unfolding report_rollback with_version
  report_rollback-IsReady r w h = announce-IsReady firmware_rollback _ (with_version nvs env w) h

  report_aborted-IsReady :
      (target : String) (w : World nvs) → IsReady w → IsReady (report_aborted nvs env target w)
  unfolding report_aborted with_version with_flash
  report_aborted-IsReady target w h = set_error-IsReady ota_fail _ _ _ (with_version nvs env w) h

  pub audit_target-IsReady :
      (a : Answers) (w : World nvs) → IsReady w → IsReady (audit_target nvs env a w)
  unfolding audit_target
  audit_target-IsReady a w r =
      let target = read_str nvs "ota_store" "target_ver" 32 w.flash in
      let (f, rollback) = verify_rollback nvs a.last_invalid w.flash in
      let w1 = record w { flash = f } in
      let reported = report_rollback nvs env rollback w1 in
      let aborted = report_aborted nvs env target w1 in
      either IsReady (is_empty target) w (if rollback.detected then reported else aborted) r (
        either IsReady rollback.detected reported aborted (report_rollback-IsReady rollback w1 r)
          (report_aborted-IsReady target w1 r))

  pub audit_command-IsReady : (w : World nvs) → IsReady w → IsReady (audit_command nvs env w)
  unfolding audit_command with_flash
  audit_command-IsReady w r = ground (
    arith,
    announce-IsReady command_complete (some (command_detail (last_command nvs env w.flash))) w r,
  )

  set_valid_version-IsReady :
      (i : Option ImageState) (marked : Bool) (w : World nvs)
      → IsReady w
      → IsReady (set_valid_version nvs i marked w)
  unfolding set_valid_version
  set_valid_version-IsReady none marked w r = r
  set_valid_version-IsReady (some other_state) marked w r = r
  set_valid_version-IsReady (some pending_verify) marked w r = ground arith

  subscribe_topic-IsReady :
      (sent : Bool) (topic : String) (qos : ℕ) (w : World nvs)
      → IsReady w
      → IsReady (subscribe_topic nvs sent topic qos w)
  unfolding subscribe_topic set_error AppState.register
  subscribe_topic-IsReady sent topic qos w r = ground arith

  pub open_audit-IsReady :
      (a : Answers) (w : World nvs) → IsReady w → IsReady (open_audit nvs env a w)
  unfolding open_audit
  open_audit-IsReady a w r =
      subscribe_topic-IsReady a.sent _ 1
        (if w.core.valid_firmware
          then w
          else let valid = set_valid_version nvs a.image a.marked w in
            record valid { core = record valid.core { valid_firmware = true } })
        (ground (arith, set_valid_version-IsReady a.image a.marked w r))

  -- A call returns in a state with the property, or the chip goes back to the firmware before.
  abbrev pub Ends : (World nvs → Type 0) → Outcome (World nvs) (Unit {0}) → Type 0
  Ends P (done x w) = P w
  Ends P (halted stop w) = stop ≡ rollback_and_reboot

  count_crash-IsReady :
      (a : Answers) (w : World nvs) → IsReady w → IsReady (count_crash nvs env a.crashed w)
  unfolding count_crash with_flash
  count_crash-IsReady a w r = ground arith

  set_invalid_version-IsReady :
      (possible reboots : Bool) (reason : String) (w : World nvs)
      → IsReady w
      → Ends IsReady (set_invalid_version nvs possible reboots reason w)
  unfolding set_invalid_version
  set_invalid_version-IsReady false reboots reason w r = r
  set_invalid_version-IsReady true false reason w r =
      elim (Bool-cases (nvs.opens w.flash read_write "ota_store")) [
        | inl e ↦ rw e r
        | inr e ↦ rw e r
      ]
  set_invalid_version-IsReady true true reason w r =
      elim (Bool-cases (nvs.opens w.flash read_write "ota_store")) [
        | inl e ↦ rw e refl
        | inr e ↦ rw e r
      ]

  pub audit_crash-IsReady :
      (a : Answers) (w : World nvs) → IsReady w → Ends IsReady (audit_crash nvs env a w)
  unfolding audit_crash with_flash
  audit_crash-IsReady a w r = elim (Bool-cases (nvs.opens w.flash read_write "main_store")) [
    | inr e ↦ rw e r
    | inl e ↦
        rw e
          (elim (Bool-cases (leb a.max_crash (count_crash nvs env a.crashed w).core.crash_count)) [
            | inl over ↦ rw over (
                set_invalid_version-IsReady a.possible a.reboots "crashCount"
                  (with_flash nvs env (store_count nvs env 0) (count_crash nvs env a.crashed w))
                  (count_crash-IsReady a w r))
            | inr below ↦ rw below (count_crash-IsReady a w r)
          ])
  ]
