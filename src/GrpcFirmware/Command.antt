-- ===== src/GrpcFirmware/Command.antt =====
-- Commands of the firmware over HTTP/2
-- (perceptive-layer/grpc/grpc_only/main/src/CommandProcessor.cpp). cJSON is an interface, and the
-- answers of FreeRTOS and of the NVS are arguments.
use governance_iot_platform.Prelude.{
  ℕ, ◌*◌, ◌==◌, String, Bool, true, false, not, ◌||◌, if◌then◌else◌, Option, none, some, [], ◌∷◌,
}
use governance_iot_platform.Prelude.Int.{pos_part}
use governance_iot_platform.Prelude.Text.{codes, lower, codes_eq}
use governance_iot_platform.Nvs.{Nvs, str, i8, read_write}
use governance_iot_platform.Device.{at}
use governance_iot_platform.Device.State.{
  Outcome, done, halted, Stop, restart, deep_sleep_start, timer_wakeup,
}
use governance_iot_platform.Command.{Json}
use governance_iot_platform.GrpcFirmware.State.{
  DeviceState, state_index, ota_found, ota_downloading, ErrorCode, command_response_invalid,
  provisioning_response_invalid, ota_fail, nvs_init_fail, watchdog_add_fail, watchdog_remove_fail,
  Device, driver, start_ota, transition, set_error,
}
use governance_iot_platform.GrpcFirmware.Ota.{Download, verify_and_update}
use Prim.Native.String.{◌++◌ as text_append}

pub data CommandType : Type 0 where
  update deep_sleep reboot unknown : CommandType

-- getCommandType
unfoldable pub get_command_type : String → CommandType
get_command_type cmd =
    if codes_eq (lower cmd) (codes "update")
    then update
    else if codes_eq (lower cmd) (codes "deep_sleep")
    then deep_sleep
    else if codes_eq (lower cmd) (codes "reboot")
    then reboot
    else unknown

-- `task_created` says that xTaskCreate returns pdPASS, and `nvs_error` is the name of the error of
-- nvs_open.
pub record Answers : Type 0 where
  pub task_created : Bool
  pub nvs_error : String

-- the fields of an update, or why they are refused
pub data UpdateFields : Type 0 where
  bad : String → UpdateFields
  good : String → String → UpdateFields

abbrev pub is_state : DeviceState → DeviceState → Bool
is_state a b = state_index a == state_index b

-- AppState::is(OTA_FOUND) || AppState::is(OTA_DOWNLOADING)
unfoldable pub is_updating : DeviceState → Bool
unfolding state_index
is_updating s = is_state s ota_found || is_state s ota_downloading

module _ (nvs : Nvs) (json : Json) where
  abbrev pub Reply : Type 0
  Reply = Outcome (Device nvs) Bool

  abbrev pub refuse : ErrorCode → String → Device nvs → Reply
  refuse code msg d = done false (set_error nvs code msg (at "CommandProcessor" "manage") [] d)

  unfoldable pub update_fields : Option json.Item → Option json.Item → UpdateFields
  update_fields none url = bad "Missing 'version'"
  update_fields (some version) none = bad "Missing 'url'"
  update_fields (some version) (some url) =
      if not (json.is_string version)
      then bad "Version is not a string"
      else if not (json.is_string url)
      then bad "Url is not a string"
      else good (json.valuestring version) (json.valuestring url)

  -- the case UPDATE of `manage`, once the fields are read
  unfoldable pub run_update : Answers → UpdateFields → Device nvs → Reply
  unfolding is_updating transition set_error
  run_update a (bad why) d = refuse command_response_invalid why d
  run_update a (good version url) d =
      let d1 = transition nvs ota_found d in
      if is_updating d.app.current
      then done true d
      else if a.task_created
      then done true (record d1 { requests = start_ota version url ∷ d1.requests })
      else refuse ota_fail "Failed to create OTA Task" d1

  unfoldable pub store_command : String → nvs.Flash → nvs.Flash
  store_command cmd f =
      nvs.commit
        (nvs.set (nvs.set f "command_store" "lastCommand" (str cmd)) "command_store"
          "commandNotified" (i8 0))
        "command_store"

  -- what DEEP_SLEEP and REBOOT share: the command is stored, and the chip stops
  unfoldable pub store_and_stop : Answers → String → Stop → Device nvs → Reply
  unfolding store_command set_error
  store_and_stop a cmd stop d =
      if nvs.opens d.flash read_write "command_store"
      then halted stop (record d { flash = store_command cmd d.flash })
      else refuse nvs_init_fail a.nvs_error d

  abbrev pub seconds : json.Item → ℕ
  seconds item = pos_part (json.valueint item)

  -- the case DEEP_SLEEP of `manage`
  unfoldable pub run_deep_sleep : Answers → String → Option json.Item → Device nvs → Reply
  unfolding store_and_stop set_error
  run_deep_sleep a cmd none d =
      refuse command_response_invalid "Json content invalid. Duration is not a num or its NULL." d
  run_deep_sleep a cmd (some duration) d =
      if not (json.is_number duration)
      then refuse command_response_invalid
          "Json content invalid. Duration is not a num or its NULL." d
      else if seconds duration == 0
      then refuse command_response_invalid "Json content invalid. Duration is less or equal than 0."
          d
      else store_and_stop a cmd deep_sleep_start
          (record d { requests = driver (timer_wakeup (seconds duration * 1000000)) ∷ d.requests })

  -- the `switch` of `manage`
  unfoldable pub dispatch : CommandType → Answers → String → json.Item → Device nvs → Reply
  unfolding run_update run_deep_sleep store_and_stop update_fields
  dispatch update a cmd payload d =
      run_update a
        (update_fields (json.get_object_item payload "version")
          (json.get_object_item payload "url"))
        d
  dispatch deep_sleep a cmd payload d =
      run_deep_sleep a cmd (json.get_object_item payload "duration_s") d
  dispatch reboot a cmd payload d = store_and_stop a cmd restart d
  dispatch unknown a cmd payload d = done false d

  -- `manage`, once `command` is known to be a string
  unfoldable pub manage_command : Answers → String → Option json.Item → Device nvs → Reply
  unfolding dispatch get_command_type
  manage_command a cmd none d =
      refuse provisioning_response_invalid "Payload is missing or is not an object." d
  manage_command a cmd (some payload) d =
      if json.is_object payload
      then dispatch (get_command_type cmd) a cmd payload d
      else refuse provisioning_response_invalid "Payload is missing or is not an object." d

  unfoldable pub manage_item : Answers → Option json.Item → json.Item → Device nvs → Reply
  unfolding manage_command
  manage_item a none root d =
      refuse provisioning_response_invalid "Cannot read command (not String)" d
  manage_item a (some command) root d =
      if json.is_string command
      then manage_command a (json.valuestring command) (json.get_object_item root "payload") d
      else refuse provisioning_response_invalid "Cannot read command (not String)" d

  unfoldable pub manage_parsed : Answers → String → Option json.Item → Device nvs → Reply
  unfolding manage_item
  manage_parsed a payload none d =
      refuse command_response_invalid
        (text_append "The payload " (text_append payload " is not a valid JSON.")) d
  manage_parsed a payload (some root) d = manage_item a (json.get_object_item root "command") root d

  -- CommandProcessor::manage
  unfoldable pub manage : Answers → String → Device nvs → Reply
  unfolding manage_parsed
  manage a payload d = manage_parsed a payload (json.parse payload) d

  -- WatchdogManager::addToCurrentTask, with the name of its error
  unfoldable pub add_to_current_task : Option String → Device nvs → Device nvs
  unfolding set_error
  add_to_current_task none d = d
  add_to_current_task (some name) d =
      set_error nvs watchdog_add_fail
        (text_append "Failed at adding task (might be added already): " name)
        (at "WatchdogManager" "addToCurrentTask") [] d

  -- WatchdogManager::removeFromCurrentTask
  unfoldable pub remove_from_current_task : Option String → Device nvs → Device nvs
  unfolding set_error
  remove_from_current_task none d = d
  remove_from_current_task (some name) d =
      set_error nvs watchdog_remove_fail
        (text_append "Failed to delete monitoring from task: " name)
        (at "WatchdogManager" "removeFromCurrentTask") [] d

  unfoldable pub end_task :
      Option String → Outcome (Device nvs) (Bool × String) → Outcome (Device nvs) (Unit {0})
  unfolding remove_from_current_task
  end_task removed (done r d) = done tt (remove_from_current_task removed d)
  end_task removed (halted stop d) = halted stop d

  -- ota_task_routine; the result of the update is dropped
  unfoldable pub ota_task_routine :
      Option String
      → Option String
      → Download
      → String
      → String
      → Device nvs
      → Outcome (Device nvs) (Unit {0})
  unfolding verify_and_update add_to_current_task end_task
  ota_task_routine added removed a version url d =
      end_task removed (verify_and_update nvs a version url (add_to_current_task added d))
