-- ===== src/AppState/Codes.antt =====
-- The vocabulary of AppState.h: the states of the device's life cycle, the error codes, and the
-- error events (perceptive-layer/mqtt_protobuff/governance_core/include/AppState.h).
use governance_iot_platform.Prelude.{ℕ, String, List, Bool}

pub data DeviceState : Type 0 where
  nvs_init wifi_ap_mode wifi_connecting time_sync provisioning provisioning_success
        mqtt_waiting_connect mqtt_init operational ota_found ota_downloading ota_successful
        boot_audit firmware_rollback rebooting error http_init http_request waiting_response
        command_complete sensors_init critical_battery :
      DeviceState

-- `no_error` is NONE.
pub data ErrorCode : Type 0 where
  no_error nvs_init_fail nvs_write_fail nvs_commit_fail nvs_load_fail wifi_timeout time_sync_fail
        provisioning_request_fail provisioning_response_invalid mqtt_init_fail mqtt_disconnected
        crash_rollback ota_fail http_init_fail http_request_fail memory_alocation_fail
        key_generation_fail csr_subject_name_fail csr_to_pem_fail key_missing cert_missing
        topic_subscribe_fail watchdog_init_fail watchdog_add_fail watchdog_remove_fail
        topic_format_invalid command_response_invalid device_id_missing wifi_credentials_missing
        firmware_version_missing firmware_rollback_failed unknown :
      ErrorCode

-- static_cast<uint32_t>(code)
unfoldable pub error_index : ErrorCode → ℕ
error_index no_error = 0
error_index nvs_init_fail = 1
error_index nvs_write_fail = 2
error_index nvs_commit_fail = 3
error_index nvs_load_fail = 4
error_index wifi_timeout = 5
error_index time_sync_fail = 6
error_index provisioning_request_fail = 7
error_index provisioning_response_invalid = 8
error_index mqtt_init_fail = 9
error_index mqtt_disconnected = 10
error_index crash_rollback = 11
error_index ota_fail = 12
error_index http_init_fail = 13
error_index http_request_fail = 14
error_index memory_alocation_fail = 15
error_index key_generation_fail = 16
error_index csr_subject_name_fail = 17
error_index csr_to_pem_fail = 18
error_index key_missing = 19
error_index cert_missing = 20
error_index topic_subscribe_fail = 21
error_index watchdog_init_fail = 22
error_index watchdog_add_fail = 23
error_index watchdog_remove_fail = 24
error_index topic_format_invalid = 25
error_index command_response_invalid = 26
error_index device_id_missing = 27
error_index wifi_credentials_missing = 28
error_index firmware_version_missing = 29
error_index firmware_rollback_failed = 30
error_index unknown = 31

-- static_cast<uint32_t>(state)
unfoldable pub state_index : DeviceState → ℕ
state_index nvs_init = 0
state_index wifi_ap_mode = 1
state_index wifi_connecting = 2
state_index time_sync = 3
state_index provisioning = 4
state_index provisioning_success = 5
state_index mqtt_waiting_connect = 6
state_index mqtt_init = 7
state_index operational = 8
state_index ota_found = 9
state_index ota_downloading = 10
state_index ota_successful = 11
state_index boot_audit = 12
state_index firmware_rollback = 13
state_index rebooting = 14
state_index error = 15
state_index http_init = 16
state_index http_request = 17
state_index waiting_response = 18
state_index command_complete = 19
state_index sensors_init = 20
state_index critical_battery = 21

pub record Source : Type 0 where
  pub class_name : String
  pub method : String

-- `details` is a std::map: it is listed in the order of its keys.
pub record AppError : Type 0 where
  pub code : ErrorCode
  pub msg : String
  pub source : Source
  pub details : List (String × String)
  pub resolved : Bool
