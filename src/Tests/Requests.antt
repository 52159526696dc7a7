-- ===== src/Tests/Requests.antt =====
-- Commands, on a JSON document that is an update.
use governance_iot_platform.Prelude.{
  String, str_eq, Bool, true, false, if◌then◌else◌, Option, none, some, [], ◌≡◌, refl,
}
use governance_iot_platform.Prelude.Int.{pos}
use governance_iot_platform.Nvs.{str, i8}
use governance_iot_platform.AppState.Codes.{operational}
use governance_iot_platform.Device.{World, read_str}
use governance_iot_platform.Command.{Json, Answers, run_rollback, manage}
use governance_iot_platform.Command.Replies.{IsReported, manage-IsReported}
use governance_iot_platform.Command.Rollback.{is_none, IsRolledBack, rollback_records}
use governance_iot_platform.Tests.Fixtures.{memory, memory-IsHealthy, store, device, client}

pub data Doc : Type 0 where
  root body : Doc
  text : String → Doc

abbrev pub field : Doc → String → Option Doc
field root key =
    if str_eq key "command"
    then some (text "Update")
    else if str_eq key "payload"
    then some body
    else none
field body key =
    if str_eq key "version"
    then some (text "2.0")
    else if str_eq key "url"
    then some (text "https://firmware")
    else if str_eq key "versionSHA"
    then some (text "bb")
    else none
field (text s) key = none

abbrev pub is_text : Doc → Bool
is_text (text s) = true
is_text _ = false

abbrev pub is_object : Doc → Bool
is_object (text s) = false
is_object _ = true

abbrev pub text_of : Doc → String
text_of (text s) = s
text_of _ = ""

abbrev pub json : Json
json = record {
  Item = Doc;
  parse = λ s. some root;
  get_object_item = field;
  is_string = is_text;
  is_number = λ d. false;
  is_object = is_object;
  valuestring = text_of;
  valueint = λ d. pos 0;
}

abbrev idle_device : World memory
idle_device = device operational [] client

abbrev answers : Answers
answers = record {
  task_created = true;
  nvs_error = "";
  has_partition = true;
  boot_error = some "ESP_ERR_OTA_VALIDATE_FAILED";
}

manage-IsReported_example :
    IsReported memory json idle_device (manage memory json answers "{}" idle_device)
manage-IsReported_example = manage-IsReported memory json answers "{}" idle_device refl

abbrev updated_device : World memory
updated_device = record idle_device {
  flash =
      store (store idle_device.flash "ota_store" "prev_ver" (some (str "0.9"))) "ota_store"
        "prev_sha" (some (str "99"));
}

rollback_records_example :
    let r = run_rollback memory json answers "firmware_rollback" updated_device in
    (r.1 ≡ is_none answers.boot_error)
    × IsRolledBack memory json memory-IsHealthy "0.9" "99" "firmware_rollback" r.0.flash
unfolding read_str
rollback_records_example =
    rollback_records memory json memory-IsHealthy "0.9" "99" "firmware_rollback" answers
      updated_device refl refl refl refl refl refl

abbrev rolled_back_device : World memory
rolled_back_device = record idle_device {
  flash =
      store
        (store
          (store (store idle_device.flash "main_store" "fw_version" (some (str "0.9"))) "main_store"
            "fw_sha" (some (str "99")))
          "command_store" "lastCommand" (some (str "firmware_rollback")))
        "command_store" "commandNotified" (some (i8 0));
}
