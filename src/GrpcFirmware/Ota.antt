-- ===== src/GrpcFirmware/Ota.antt =====
-- Updates of the firmware over HTTP/2
-- (perceptive-layer/grpc/grpc_only/main/src/OtaManager.cpp): versions in place of the SHA, and a
-- download that leaves its target when it fails. The answers of ESP-IDF are arguments.
use governance_iot_platform.Prelude.{
  String, str_eq, Bool, true, false, not, ◌&&◌, ◌||◌, if◌then◌else◌, Option, none, some, [], ◌∷◌,
}
use governance_iot_platform.Nvs.{Nvs, str, i8, i32, read_only, read_write, str_value}
use governance_iot_platform.Device.{at}
use governance_iot_platform.Device.State.{
  Outcome, done, halted, restart, rollback_and_reboot, mark_valid,
}
use governance_iot_platform.Ota.{
  Finish, finished, validate_failed, finish_failed, ImageState, pending_verify, is_empty,
}
use governance_iot_platform.GrpcFirmware.State.{
  Device, driver, transition, set_error, ota_downloading, firmware_rollback, ota_fail,
}
use Prim.Native.String.{◌++◌ as text_append}

-- The answers in a download: `begun` is none when esp_https_ota_begin succeeds, and its error's name
-- if not; `completed` comes after the loop over esp_https_ota_perform.
pub record Download : Type 0 where
  pub begun : Option String
  pub completed : Bool
  pub finish : Finish

module _ (nvs : Nvs) where
  -- nvs_read_str into a buffer that was empty
  unfoldable pub read_version : nvs.Flash → String
  read_version f =
      if nvs.opens f read_only "main_store"
      then str_value 32 (nvs.get f "main_store" "fw_version")
      else ""

  abbrev pub with_version : Device nvs → Device nvs
  with_version d = record d { core = record d.core { current_version = read_version d.flash } }

  -- the new firmware is recorded, and the count in ota_store cleared
  unfoldable pub record_firmware : String → nvs.Flash → nvs.Flash
  record_firmware version f =
      let f1 = nvs.commit (nvs.set f "ota_store" "crash_count" (i32 0)) "ota_store" in
      if nvs.opens f1 read_write "main_store"
      then nvs.commit (nvs.set f1 "main_store" "fw_version" (str version)) "main_store"
      else f1

  -- the last part of download_OTA
  unfoldable pub finish_download :
      Finish → String → Device nvs → Outcome (Device nvs) (Bool × String)
  unfolding record_firmware
  finish_download finished version d =
      halted restart (record d { flash = record_firmware version d.flash })
  finish_download validate_failed version d =
      done (false, "Image validation failed, image is corrupted") d
  finish_download (finish_failed name) version d =
      done (false, text_append "OTA upgrade failed: " name) d

  -- download_OTA behind esp_https_ota_begin, by the name of its error
  unfoldable pub begun_download :
      Option String → Download → String → Device nvs → Outcome (Device nvs) (Bool × String)
  unfolding finish_download transition
  begun_download (some name) a version d = done (false, text_append "Falha OTA Begin: " name) d
  begun_download none a version d =
      let d1 = transition nvs ota_downloading d in
      if a.completed
      then finish_download a.finish version d1
      else done (false, "Error: Download incomplete") d1

  -- OtaManager::download_OTA
  unfoldable pub download_ota :
      Download → String → Device nvs → Outcome (Device nvs) (Bool × String)
  unfolding begun_download
  download_ota a version d = begun_download a.begun a version d

  abbrev pub banned_version : nvs.Flash → String
  banned_version f = str_value 32 (nvs.get f "ota_store" "invalid_ver")

  unfoldable pub set_target : String → String → nvs.Flash → nvs.Flash
  set_target current version f =
      nvs.commit
        (nvs.set (nvs.set f "ota_store" "prev_ver" (str current)) "ota_store" "target_ver"
          (str version))
        "ota_store"

  -- verify_and_update, once ota_store is open
  unfoldable pub update_checked :
      Download → String → Device nvs → Outcome (Device nvs) (Bool × String)
  unfolding set_target download_ota
  update_checked a version d =
      let banned = banned_version d.flash in
      if not (is_empty banned) && str_eq version banned
      then done
          (
            false,
            text_append "Versao " (text_append version " marcada como invalida. Update abortado."),
          )
          d
      else if not (is_empty version)
      then download_ota a version
          (record d { flash = set_target d.core.current_version version d.flash })
      else done (true, "Firmware enviado nao possui versao.") d

  -- OtaManager::verify_and_update
  unfoldable pub verify_and_update :
      Download → String → String → Device nvs → Outcome (Device nvs) (Bool × String)
  unfolding update_checked read_version set_error
  verify_and_update a version url d =
      let current = read_version d.flash in
      let d1 = with_version d in
      let same : String = "Stopping OTA download due same firmware version" in
      if str_eq current version
      then done (false, same)
          (set_error nvs ota_fail same (at "OtaManager" "verify_and_update")
            (("attempted_version", version)
              ∷ ("current_version", current)
              ∷ ("firmware_url", url)
              ∷ [])
            d1)
      else if not (nvs.opens d.flash read_write "ota_store")
      then done (false, "Falha ao abrir NVS ota_store") d1
      else update_checked a version d1

  -- OtaManager::set_valid_version
  unfoldable pub set_valid_version : Option ImageState → Bool → Device nvs → Device nvs
  set_valid_version (some pending_verify) marked d =
      if marked
      then record d {
        flash =
            if nvs.opens d.flash read_write "ota_store"
            then nvs.commit
                (nvs.set (nvs.erase_key d.flash "ota_store" "target_ver") "ota_store" "ota_notified"
                  (i8 0))
                "ota_store"
            else d.flash;
        requests = driver mark_valid ∷ d.requests;
      }
      else d
  set_valid_version _ marked d = d

  -- OtaManager::set_invalid_version; `reboots` says that
  -- esp_ota_mark_app_invalid_rollback_and_reboot does not return
  unfoldable pub set_invalid_version : Bool → String → Device nvs → Outcome (Device nvs) (Unit {0})
  unfolding read_version
  set_invalid_version reboots reason d =
      let version = read_version d.flash in
      let banned = record (with_version d) {
        flash =
            nvs.commit
              (nvs.set
                (nvs.set (nvs.set d.flash "ota_store" "invalid_ver" (str version)) "ota_store"
                  "rollbackReason" (str reason))
                "ota_store" "target_ver" (str version))
              "ota_store";
      } in
      if not (nvs.opens d.flash read_write "ota_store")
      then done tt d
      else if reboots
      then halted rollback_and_reboot banned
      else done tt banned

  -- what verify_rollback returns: its result, msgOut and outInvalidVer
  pub record Rollback : Type 0 where
    pub detected : Bool
    pub msg : String
    pub invalid_ver : String

  -- main_store takes back the version before
  unfoldable pub restore_previous : nvs.Flash → nvs.Flash
  restore_previous f =
      let version = str_value 32 (nvs.get f "ota_store" "prev_ver") in
      if is_empty version || not (nvs.opens f read_write "main_store")
      then f
      else nvs.commit (nvs.set f "main_store" "fw_version" (str version)) "main_store"

  -- verify_rollback, once ota_store is open
  unfoldable pub rollback_open : String → Device nvs → Device nvs × Rollback
  unfolding restore_previous transition
  rollback_open label d =
      let target = str_value 32 (nvs.get d.flash "ota_store" "target_ver") in
      let banned =
        nvs.erase_key (nvs.set d.flash "ota_store" "invalid_ver" (str target)) "ota_store"
          "target_ver" in
      if is_empty target
      then if not (is_empty (banned_version d.flash))
        then (d, record { detected = false; msg = ""; invalid_ver = "" })
        else (
          d,
          record {
            detected = true;
            msg =
                text_append "Rollback na particao '"
                  (text_append label "' — versao alvo desconhecida");
            invalid_ver = "";
          },
        )
      else (
        record (transition nvs firmware_rollback d) {
          flash = nvs.commit (restore_previous banned) "ota_store";
        },
        record {
          detected = true;
          msg = text_append "Versao " (
              text_append target
                (text_append " causou rollback na particao '" (text_append label "'. Banida.")));
          invalid_ver = target;
        },
      )

  -- OtaManager::verify_rollback; `last_invalid` is the label of esp_ota_get_last_invalid_partition
  unfoldable pub verify_rollback : Option String → Device nvs → Device nvs × Rollback
  unfolding rollback_open
  verify_rollback none d = (d, record { detected = false; msg = ""; invalid_ver = "" })
  verify_rollback (some label) d =
      if nvs.opens d.flash read_write "ota_store" then rollback_open label d else (
        d,
        record {
          detected = true;
          msg = "Rollback detectado mas falha ao abrir ota_store";
          invalid_ver = "";
        },
      )
