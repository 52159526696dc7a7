-- ===== src/Ota.antt =====
-- Firmware updates over the air and their rollback
-- (perceptive-layer/mqtt_protobuff/governance_core/src/OtaManager.cpp). The answers of ESP-IDF's OTA
-- calls are arguments: a record for each function that asks for several.
pub mod Lifecycle
pub mod Refusals
use governance_iot_platform.Prelude.{
  ℕ, ltb, String, str_eq, Bool, true, false, not, ◌&&◌, ◌||◌, if◌then◌else◌, Option, none, some,
}
use governance_iot_platform.Nvs.{Nvs, str, i8, i32, read_write, str_value}
use governance_iot_platform.AppState.Codes.{ota_downloading}
use governance_iot_platform.Device.{World, transition, read_str, emit}
use governance_iot_platform.Device.State.{
  Ota, Outcome, done, halted, restart, rollback_and_reboot, mark_valid,
}
use text.Mathlib.Text.{starts_with}
use Prim.Native.String.{◌++◌ as text_append}
use mathlib.Core.List.{[], ◌∷◌}

-- what esp_https_ota_finish returns; `finish_failed` carries esp_err_to_name of another error
pub data Finish : Type 0 where
  finished validate_failed : Finish
  finish_failed : String → Finish

-- esp_ota_get_state_partition, when it succeeds
pub data ImageState : Type 0 where
  pending_verify other_state : ImageState

-- The answers in a download. `begun` is none when esp_https_ota_begin succeeds, and its error's name
-- if not; `target` is the size of the next update partition and `oversize` the text that refuses the
-- image; `image_size` is 0 where the call returns no positive size. `completed` comes after the loop
-- over esp_https_ota_perform, which calls back to the watchdog and changes no state.
pub record Download : Type 0 where
  pub begun : Option String
  pub target : Option ℕ
  pub image_size : ℕ
  pub oversize : String
  pub completed : Bool
  pub finish : Finish

abbrev pub is_empty : String → Bool
is_empty s = str_eq s ""

abbrev pub too_large : Option ℕ → ℕ → Bool
too_large none image = false
too_large (some size) image = ltb 0 image && ltb size image

module _ (nvs : Nvs) where
  unfoldable pub clear_ota_target : nvs.Flash → nvs.Flash
  clear_ota_target f =
      nvs.commit (nvs.erase_key (nvs.erase_key f "ota_store" "target_ver") "ota_store" "target_sha")
        "ota_store"

  -- a download that fails: the message, and the target cleared
  abbrev pub give_up : String → World nvs → Outcome (World nvs) (Bool × String)
  give_up msg w = done (false, msg) (record w { flash = clear_ota_target w.flash })

  -- after the image is written: the current image becomes the previous one
  unfoldable pub keep_previous : Ota → nvs.Flash → nvs.Flash
  keep_previous o f =
      nvs.commit
        (nvs.set
          (nvs.set (nvs.set f "ota_store" "prev_ver" (str o.current_version)) "ota_store" "prev_sha"
            (str o.current_version_sha))
          "ota_store" "crash_count" (i32 0))
        "ota_store"

  -- and the new one is recorded as the firmware
  unfoldable pub record_firmware : String → String → nvs.Flash → nvs.Flash
  record_firmware version sha f =
      if nvs.opens f read_write "main_store"
      then nvs.commit
          (nvs.set (nvs.set f "main_store" "fw_version" (str version)) "main_store" "fw_sha"
            (str sha))
          "main_store"
      else f

  -- the last part of `download_OTA`, by what esp_https_ota_finish returns
  unfoldable pub finish_download :
      Finish → String → String → World nvs → Outcome (World nvs) (Bool × String)
  finish_download finished version sha w =
      halted restart
        (record w { flash = record_firmware version sha (keep_previous w.ota w.flash) })
  finish_download validate_failed version sha w =
      give_up "Image validation failed, image is corrupted" w
  finish_download (finish_failed name) version sha w =
      give_up (text_append "OTA upgrade failed: " name) w

  -- OtaManager::download_OTA
  unfoldable pub download_ota :
      Download → String → String → World nvs → Outcome (World nvs) (Bool × String)
  download_ota d version sha w = elim d.begun [
    | some name ↦ give_up (text_append "Falha OTA Begin: " name) w
    | none ↦
        if too_large d.target d.image_size
        then give_up d.oversize w
        else if not d.completed
        then give_up "Error: Download incomplete" (transition nvs ota_downloading w)
        else finish_download d.finish version sha (transition nvs ota_downloading w)
  ]

  -- `current_version` and `current_version_sha`, read from main_store
  unfoldable pub read_current : nvs.Flash → Ota
  read_current f = record {
    current_version = read_str nvs "main_store" "fw_version" 32 f;
    current_version_sha = read_str nvs "main_store" "fw_sha" 65 f;
  }

  -- the banned SHA, empty when there is none
  unfoldable pub banned_sha : nvs.Flash → String
  banned_sha f = str_value 65 (nvs.get f "ota_store" "invalid_sha")

  unfoldable pub set_target : String → String → nvs.Flash → nvs.Flash
  set_target version sha f =
      nvs.commit
        (nvs.set (nvs.set f "ota_store" "target_ver" (str version)) "ota_store" "target_sha"
          (str sha))
        "ota_store"

  -- OtaManager::verify_and_update, from the point where ota_store is open
  unfoldable pub update_checked :
      Download → String → String → World nvs → Outcome (World nvs) (Bool × String)
  update_checked d version sha w =
      let banned = banned_sha w.flash in
      if not (is_empty banned) && str_eq sha banned
      then done
          (
            false,
            text_append "Firmware v"
                (text_append version " marcado como invalido (SHA banido). Update abortado."),
          )
          w
      else if not (is_empty version) && not (is_empty sha)
      then download_ota d version sha (record w { flash = set_target version sha w.flash })
      else done (true, "Firmware enviado nao possui versao ou nao possui sha reportado.") w

  -- OtaManager::verify_and_update
  unfoldable pub verify_and_update :
      Download → String → String → World nvs → Outcome (World nvs) (Bool × String)
  verify_and_update d version sha w =
      let o = read_current w.flash in
      let w' = record w { ota = o } in
      if str_eq o.current_version_sha sha
      then done (false, "Stopping OTA download due same firmware SHA256") w'
      else if not (nvs.opens w.flash read_write "ota_store")
      then done (false, "Falha ao abrir NVS ota_store") w'
      else update_checked d version sha w'

  unfoldable pub confirm_update : nvs.Flash → nvs.Flash
  confirm_update f =
      if nvs.opens f read_write "ota_store"
      then nvs.commit
          (nvs.set
            (nvs.erase_key (nvs.erase_key f "ota_store" "target_ver") "ota_store" "target_sha")
            "ota_store" "ota_notified" (i8 0))
          "ota_store"
      else f

  -- OtaManager::set_valid_version. `image` answers esp_ota_get_state_partition, `marked` says that
  -- esp_ota_mark_app_valid_cancel_rollback returns ESP_OK.
  unfoldable pub set_valid_version : Option ImageState → Bool → World nvs → World nvs
  set_valid_version (some pending_verify) marked w =
      if marked
      then record w { flash = confirm_update w.flash; effects = mark_valid ∷ w.effects }
      else w
  set_valid_version _ marked w = w

  unfoldable pub ban_current : Ota → String → nvs.Flash → nvs.Flash
  ban_current o reason f =
      let f1 = nvs.set f "ota_store" "invalid_ver" (str o.current_version) in
      let f2 = nvs.set f1 "ota_store" "invalid_sha" (str o.current_version_sha) in
      let f3 = nvs.set f2 "ota_store" "rollbackReason" (str reason) in
      let f4 = nvs.set f3 "ota_store" "target_ver" (str o.current_version) in
      let f5 = nvs.set f4 "ota_store" "target_sha" (str o.current_version_sha) in
      nvs.commit f5 "ota_store"

  -- OtaManager::set_invalid_version. `possible` answers esp_ota_check_rollback_is_possible, and
  -- `reboots` says that esp_ota_mark_app_invalid_rollback_and_reboot does not return.
  unfoldable pub set_invalid_version :
      Bool → Bool → String → World nvs → Outcome (World nvs) (Unit {0})
  set_invalid_version possible reboots reason w =
      let o = read_current w.flash in
      let w' = record w { ota = o; flash = ban_current o reason w.flash } in
      if not possible || not (nvs.opens w.flash read_write "ota_store")
      then done tt w
      else if reboots
      then halted rollback_and_reboot w'
      else done tt w'

  -- what `verify_rollback` returns: its result, `msgOut` and `outInvalidVer`
  pub record Rollback : Type 0 where
    pub detected : Bool
    pub msg : String
    pub invalid_ver : String

  -- main_store takes back what ota_store holds of the previous firmware
  unfoldable pub restore_previous : nvs.Flash → nvs.Flash
  restore_previous f =
      let ver = str_value 32 (nvs.get f "ota_store" "prev_ver") in
      let sha = str_value 65 (nvs.get f "ota_store" "prev_sha") in
      let f1 = if is_empty ver then f else nvs.set f "main_store" "fw_version" (str ver) in
      let f2 = if is_empty sha then f1 else nvs.set f1 "main_store" "fw_sha" (str sha) in
      if (is_empty ver && is_empty sha) || not (nvs.opens f read_write "main_store")
      then f
      else nvs.commit f2 "main_store"

  unfoldable pub ban_target : String → String → nvs.Flash → nvs.Flash
  ban_target version sha f =
      let f1 = nvs.set f "ota_store" "invalid_ver" (str version) in
      let f2 = nvs.set f1 "ota_store" "invalid_sha" (str sha) in
      nvs.erase_key (nvs.erase_key f2 "ota_store" "target_ver") "ota_store" "target_sha"

  -- OtaManager::verify_rollback, from the point where ota_store is open
  unfoldable pub rollback_open : String → nvs.Flash → nvs.Flash × Rollback
  rollback_open label f =
      let version = str_value 32 (nvs.get f "ota_store" "target_ver") in
      let sha = str_value 65 (nvs.get f "ota_store" "target_sha") in
      if is_empty sha
      then if not (is_empty (banned_sha f))
        then (f, record { detected = false; msg = ""; invalid_ver = "" })
        else (
          f,
          record {
            detected = true;
            msg =
                text_append "Rollback na particao '"
                  (text_append label "' — firmware alvo desconhecido");
            invalid_ver = "";
          },
        )
      else (
        nvs.commit (restore_previous (ban_target version sha f)) "ota_store",
        record {
          detected = true;
          msg = text_append "Firmware v" (
              text_append version
                (text_append " causou rollback na particao '" (text_append label "'. Banido.")));
          invalid_ver = version;
        },
      )

  -- OtaManager::verify_rollback. `last_invalid` is the label of esp_ota_get_last_invalid_partition.
  unfoldable pub verify_rollback : Option String → nvs.Flash → nvs.Flash × Rollback
  verify_rollback none f = (f, record { detected = false; msg = ""; invalid_ver = "" })
  verify_rollback (some label) f =
      if not (nvs.opens f read_write "ota_store")
      then (
        f,
        record {
          detected = true;
          msg = "Rollback detectado mas falha ao abrir ota_store";
          invalid_ver = "";
        },
      )
      else rollback_open label f
