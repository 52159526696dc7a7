-- ===== src/Command.antt =====
-- Commands from the platform: decoding, checks and what each one does
-- (perceptive-layer/mqtt_protobuff/governance_core/src/CommandProcessor.cpp). cJSON is an interface,
-- and the answers of FreeRTOS and of the OTA calls are a record.
pub mod Tasks
pub mod Replies
pub mod Rollback
pub mod Updates
use governance_iot_platform.Prelude.{
  ℕ, zero, suc, ◌*◌, ◌==◌, String, str_eq, Bool, true, false, not, ◌&&◌, ◌||◌, if◌then◌else◌,
  Option, none, some, List, [], ◌∷◌,
}
use governance_iot_platform.Prelude.Int.{ℤ, pos_part}
use governance_iot_platform.Prelude.Text.{codes, lower, codes_eq}
use governance_iot_platform.Nvs.{Nvs, str, i8, read_write}
use governance_iot_platform.AppState.Codes.{
  DeviceState, ota_found, ota_downloading, ErrorCode, command_response_invalid,
  provisioning_response_invalid, ota_fail, watchdog_add_fail, watchdog_remove_fail, nvs_init_fail,
  firmware_rollback_failed, state_index,
}
use governance_iot_platform.Device.{World, at, set_error, transition, read_str}
use governance_iot_platform.Device.State.{
  Effect, start_ota, start_reboot, start_deep_sleep, timer_wakeup, set_boot_partition, Outcome,
  done, halted, restart, deep_sleep_start, ◌>>=◌,
}
use governance_iot_platform.Ota.{Download, is_empty, verify_and_update}
use Prim.Native.String.{◌++◌ as text_append}

-- cJSON.h; NULL is none
pub record Json : Type 1 where
  pub Item : Type 0
  pub parse : String → Option Item
  pub get_object_item : Item → String → Option Item
  pub is_string : Item → Bool
  pub is_number : Item → Bool
  pub is_object : Item → Bool
  pub valuestring : Item → String
  pub valueint : Item → ℤ

pub data CommandType : Type 0 where
  update deep_sleep reboot firmware_rollback unknown : CommandType

-- getCommandType: letters are compared in lower case
unfoldable pub get_command_type : String → CommandType
get_command_type cmd =
    if codes_eq (lower cmd) (codes "update")
    then update
    else if codes_eq (lower cmd) (codes "deep_sleep")
    then deep_sleep
    else if codes_eq (lower cmd) (codes "reboot")
    then reboot
    else if codes_eq (lower cmd) (codes "firmware_rollback")
    then firmware_rollback
    else unknown

-- The answers of the calls outside: `task_created` says that xTaskCreate returns pdPASS, `nvs_error`
-- is the name of the error of nvs_open, `has_partition` says that
-- esp_ota_get_next_update_partition is not NULL, and `boot_error` is the name of the error of
-- esp_ota_set_boot_partition, none if it returns ESP_OK.
pub record Answers : Type 0 where
  pub task_created : Bool
  pub nvs_error : String
  pub has_partition : Bool
  pub boot_error : Option String

-- the fields of an update, or why they are refused
pub data UpdateFields : Type 0 where
  bad : String → UpdateFields
  good : String → String → String → UpdateFields

abbrev pub is_state : DeviceState → DeviceState → Bool
is_state a b = state_index a == state_index b

module _ (nvs : Nvs) (json : Json) where
  abbrev pub is : (json.Item → Bool) → Option json.Item → Bool
  is test none = false
  is test (some item) = test item

  -- `setError` of `manage`, and its result
  abbrev pub refuse : ErrorCode → String → World nvs → World nvs × Bool
  refuse code msg w = (set_error nvs code msg (at "CommandProcessor" "manage") [] w, false)

  unfoldable pub update_fields :
      Option json.Item → Option json.Item → Option json.Item → UpdateFields
  update_fields none url sha = bad "Missing 'version'"
  update_fields (some version) none sha = bad "Missing 'url'"
  update_fields (some version) (some url) none = bad "Missing 'versionSHA'"
  update_fields (some version) (some url) (some sha) =
      if not (json.is_string version)
      then bad "Version is not a string"
      else if not (json.is_string url)
      then bad "Url is not a string"
      else if not (json.is_string sha)
      then bad "versionSHA is not a string"
      else good (json.valuestring version) (json.valuestring url) (json.valuestring sha)

  -- the case UPDATE of `manage`, once the fields are read
  unfoldable pub run_update : Answers → UpdateFields → World nvs → World nvs × Bool
  run_update a (bad why) w = refuse command_response_invalid why w
  run_update a (good version url sha) w =
      let w1 = transition nvs ota_found w in
      if is_state w.app.current ota_found || is_state w.app.current ota_downloading
      then (w, true)
      else if a.task_created
      then (record w1 { effects = start_ota version url sha ∷ w1.effects }, true)
      else refuse ota_fail "Failed to create OTA Task" w1

  -- `lastCommand`, to be notified after the next boot
  unfoldable pub store_command : String → nvs.Flash → nvs.Flash
  store_command cmd f =
      nvs.commit
        (nvs.set (nvs.set f "command_store" "lastCommand" (str cmd)) "command_store"
          "commandNotified" (i8 0))
        "command_store"

  -- what DEEP_SLEEP and REBOOT share: the command is stored, and a task carries it out
  unfoldable pub defer : Answers → String → Effect → World nvs → World nvs × Bool
  defer a cmd task w =
      let w1 = record w { flash = store_command cmd w.flash } in
      if not (nvs.opens w.flash read_write "command_store")
      then refuse nvs_init_fail a.nvs_error w
      else if a.task_created
      then (record w1 { effects = task ∷ w1.effects }, true)
      else refuse command_response_invalid "Failed to create OTA Task" w1

  abbrev pub seconds : Option json.Item → ℕ
  seconds none = 0
  seconds (some item) = pos_part (json.valueint item)

  -- the case DEEP_SLEEP of `manage`
  unfoldable pub run_deep_sleep : Answers → String → Option json.Item → World nvs → World nvs × Bool
  run_deep_sleep a cmd duration w =
      let s = seconds duration in
      if not (is json.is_number duration)
      then refuse command_response_invalid
          "Json content invalid. Duration is not a num or its NULL." w
      else if s == 0
      then refuse command_response_invalid "Json content invalid. Duration is less or equal than 0."
          w
      else defer a cmd (start_deep_sleep s)
          (record w { effects = timer_wakeup (s * 1000000) ∷ w.effects })

  -- what a forced rollback writes before it asks for the other partition
  unfoldable pub record_rollback : String → String → String → nvs.Flash → nvs.Flash
  record_rollback ver sha cmd f =
      let f1 =
        if nvs.opens f read_write "main_store"
        then nvs.commit
            (nvs.set (nvs.set f "main_store" "fw_version" (str ver)) "main_store" "fw_sha"
              (str sha))
            "main_store"
        else f in
      let f2 =
        if nvs.opens f1 read_write "ota_store"
        then nvs.commit
            (nvs.erase_key (nvs.erase_key f1 "ota_store" "prev_ver") "ota_store" "prev_sha")
            "ota_store"
        else f1 in
      if nvs.opens f2 read_write "command_store" then store_command cmd f2 else f2

  -- the case FIRMWARE_ROLLBACK of `manage`, once a partition is found
  unfoldable pub force_rollback : Option String → String → World nvs → World nvs × Bool
  force_rollback boot_error cmd w =
      let prev_ver = read_str nvs "ota_store" "prev_ver" 32 w.flash in
      let prev_sha = read_str nvs "ota_store" "prev_sha" 65 w.flash in
      let fw_sha = read_str nvs "main_store" "fw_sha" 65 w.flash in
      let w1 = record w { flash = record_rollback prev_ver prev_sha cmd w.flash } in
      if is_empty prev_sha
      then refuse firmware_rollback_failed "Nenhum firmware anterior registrado" w
      else if str_eq prev_sha fw_sha
      then (w, false)
      else elim boot_error [
        | some name ↦
            refuse firmware_rollback_failed (text_append "Falha ao setar partição: " name) w1
        | none ↦ (record w1 { effects = start_reboot 500 ∷ set_boot_partition ∷ w1.effects }, true)
      ]

  unfoldable pub run_rollback : Answers → String → World nvs → World nvs × Bool
  run_rollback a cmd w =
      if a.has_partition
      then force_rollback a.boot_error cmd w
      else refuse firmware_rollback_failed "Sem partição anterior disponível" w

  -- the `switch` of `manage`
  unfoldable pub dispatch :
      CommandType → Answers → String → json.Item → World nvs → World nvs × Bool
  dispatch update a cmd payload w =
      run_update a
        (update_fields (json.get_object_item payload "version") (json.get_object_item payload "url")
          (json.get_object_item payload "versionSHA"))
        w
  dispatch deep_sleep a cmd payload w =
      run_deep_sleep a cmd (json.get_object_item payload "duration_s") w
  dispatch reboot a cmd payload w = defer a cmd (start_reboot 5000) w
  dispatch firmware_rollback a cmd payload w = run_rollback a cmd w
  dispatch unknown a cmd payload w = (w, false)

  -- `manage`, once `command` is known to be a string
  unfoldable pub manage_command : Answers → String → Option json.Item → World nvs → World nvs × Bool
  manage_command a cmd none w =
      refuse provisioning_response_invalid "Payload is missing or is not an object." w
  manage_command a cmd (some payload) w =
      if json.is_object payload
      then dispatch (get_command_type cmd) a cmd payload w
      else refuse provisioning_response_invalid "Payload is missing or is not an object." w

  unfoldable pub manage_item : Answers → Option json.Item → json.Item → World nvs → World nvs × Bool
  manage_item a none root w =
      refuse provisioning_response_invalid "Cannot read command (not String)" w
  manage_item a (some command) root w =
      if json.is_string command
      then manage_command a (json.valuestring command) (json.get_object_item root "payload") w
      else refuse provisioning_response_invalid "Cannot read command (not String)" w

  -- CommandProcessor::manage
  unfoldable pub manage : Answers → String → World nvs → World nvs × Bool
  manage a payload w = elim (json.parse payload) [
    | none ↦
        refuse command_response_invalid
          (text_append "The payload " (text_append payload " is not a valid JSON.")) w
    | some root ↦ manage_item a (json.get_object_item root "command") root w
  ]
