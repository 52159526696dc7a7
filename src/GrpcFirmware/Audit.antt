-- ===== src/GrpcFirmware/Audit.antt =====
-- The audit of the boot in the firmware over HTTP/2 (`handle_boot_audit` of
-- perceptive-layer/grpc/grpc_only/main/main.cpp).
use governance_iot_platform.Prelude.{
  ℕ, ◌+◌, ◌%◌, ◌^◌, ◌==◌, leb, String, Bool, not, ◌&&◌, if◌then◌else◌, Option,
}
use governance_iot_platform.Nvs.{Nvs, i8, i8_value, read_write}
use governance_iot_platform.Device.{read_str}
use governance_iot_platform.Device.State.{Outcome, done, ◌>>=◌}
use governance_iot_platform.Ota.{is_empty}
use governance_iot_platform.GrpcFirmware.State.{provisioning_success, Device, transition}
use governance_iot_platform.GrpcFirmware.Ota.{set_invalid_version, verify_rollback}

-- What the chip answers in the audit of the boot: `crashed` says that the reset was by a watchdog or a
-- panic.
pub record AuditAnswers : Type 0 where
  pub crashed : Bool
  pub reboots : Bool
  pub last_invalid : Option String

module _ (nvs : Nvs) where
  unfoldable pub store_count : ℕ → nvs.Flash → nvs.Flash
  store_count n f = nvs.commit (nvs.set f "main_store" "crash_count" (i8 (n % 2 ^ 8))) "main_store"

  -- the count of crashes, kept in flash
  unfoldable pub count_crash : Bool → Device nvs → Device nvs
  unfolding store_count
  count_crash crashed d =
      let n = i8_value 0 (nvs.get d.flash "main_store" "crash_count") + 1 in
      if crashed
      then record d { core = record d.core { crash_count = n }; flash = store_count n d.flash }
      else record d { flash = store_count 0 d.flash }

  -- the part of the audit on main_store; MAX_CRASH_COUNT is 3
  unfoldable pub audit_crash : AuditAnswers → Device nvs → Outcome (Device nvs) (Unit {0})
  unfolding count_crash set_invalid_version
  audit_crash a d =
      let counted = count_crash a.crashed d in
      if not (nvs.opens d.flash read_write "main_store")
      then done tt d
      else if leb 3 counted.core.crash_count
      then set_invalid_version nvs a.reboots "crashCount"
          (record counted { flash = store_count 0 counted.flash })
      else done tt counted

  abbrev with_firmware : Device nvs → Device nvs
  with_firmware d = record d {
    core = record d.core { firmware_version = read_str nvs "main_store" "fw_version" 32 d.flash };
  }

  unfoldable pub forget_target : nvs.Flash → nvs.Flash
  forget_target f =
      if nvs.opens f read_write "ota_store"
      then nvs.commit (nvs.erase_key f "ota_store" "target_ver") "ota_store"
      else f

  -- the part on `lastTarget`; the messages that it builds are not sent
  unfoldable pub audit_target : AuditAnswers → Device nvs → Device nvs
  unfolding verify_rollback forget_target
  audit_target a d =
      let (d1, r) = verify_rollback nvs a.last_invalid d in
      if is_empty (read_str nvs "ota_store" "target_ver" 32 d.flash)
      then d
      else if r.detected
      then with_firmware d1
      else let d2 = with_firmware d1 in record d2 { flash = forget_target d2.flash }

  abbrev is_pending : String → String → nvs.Flash → Bool
  is_pending store key f = i8_value 1 (nvs.get f store key) == 0

  -- the part on command_store; the message that it builds is not sent
  unfoldable pub audit_command : nvs.Flash → nvs.Flash
  audit_command f =
      if nvs.opens f read_write "command_store" && is_pending "command_store" "commandNotified" f
      then nvs.commit (nvs.set f "command_store" "commandNotified" (i8 1)) "command_store"
      else f

  unfoldable pub audit_rest : AuditAnswers → Device nvs → Device nvs
  unfolding audit_target audit_command transition
  audit_rest a d =
      let d1 = audit_target a d in
      transition nvs provisioning_success (record d1 { flash = audit_command d1.flash })

  -- handle_boot_audit. Its subscription does nothing, since this firmware never creates the client of
  -- MQTT, and the calls that would publish its messages are comments.
  unfoldable pub handle_boot_audit : AuditAnswers → Device nvs → Outcome (Device nvs) (Unit {0})
  unfolding audit_crash audit_rest transition
  handle_boot_audit a d =
      let notified = nvs.commit (nvs.set d.flash "ota_store" "ota_notified" (i8 1)) "ota_store" in
      let rest = (audit_crash a >>= (λ _ d'. done tt (audit_rest a d'))) d in
      if nvs.opens d.flash read_write "ota_store" && is_pending "ota_store" "ota_notified" d.flash
      then done tt (transition nvs provisioning_success (record d { flash = notified }))
      else rest
