-- ===== src/GrpcFirmware/State.antt =====
-- AppState of the firmware over HTTP/2 (perceptive-layer/grpc/grpc_only/main/src/AppState.cpp and
-- AppState.h), and the variables of its main.cpp.
use governance_iot_platform.Prelude.{ℕ, String, Bool, if◌then◌else◌, List, []}
use governance_iot_platform.Nvs.{Nvs}
use governance_iot_platform.AppState.Codes.{Source}
use governance_iot_platform.Device.State.{Wifi, Effect}
use governance_iot_platform.Grpc.Client.{Client}

pub data DeviceState : Type 0 where
  nvs_init wifi_ap_mode wifi_connecting time_sync provisioning provisioning_success
        mqtt_waiting_connect mqtt_init operational ota_found ota_downloading verify_rollback
        firmware_rollback rebooting error http_init http_request waiting_response :
      DeviceState

-- static_cast<uint32_t>(state)
unfoldable pub state_index : DeviceState → ℕ
state_index nvs_init = 0
state_index wifi_ap_mode = 1
state_index wifi_connecting = 2
state_index time_sync = 3
state_index provisioning = 4
state_index provisioning_success = 5
state_index mqtt_waiting_connect = 6
state_index mqtt_init = 7
state_index operational = 8
state_index ota_found = 9
state_index ota_downloading = 10
state_index verify_rollback = 11
state_index firmware_rollback = 12
state_index rebooting = 13
state_index error = 14
state_index http_init = 15
state_index http_request = 16
state_index waiting_response = 17

-- `no_error` is NONE.
pub data ErrorCode : Type 0 where
  no_error nvs_init_fail nvs_write_fail nvs_commit_fail nvs_load_fail wifi_timeout time_sync_fail
        provisioning_request_fail provisioning_response_invalid mqtt_init_fail mqtt_disconnected
        crash_rollback ota_fail http_init_fail http_request_fail memory_alocation_fail
        key_generation_fail csr_subject_name_fail csr_to_pem_fail key_missing cert_missing
        topic_subscribe_fail watchdog_init_fail watchdog_add_fail watchdog_remove_fail
        topic_format_invalid command_response_invalid unknown :
      ErrorCode

-- AppState::toString of a code; some have no name
unfoldable pub error_name : ErrorCode → String
error_name no_error = "NONE"
error_name nvs_init_fail = "NVS_INIT_FAIL"
error_name nvs_write_fail = "NVS_WRITE_FAIL"
error_name nvs_commit_fail = "NVS_COMMIT_FAIL"
error_name nvs_load_fail = "NVS_LOAD_FAIL"
error_name wifi_timeout = "WIFI_TIMEOUT"
error_name time_sync_fail = "TIME_SYNC_FAIL"
error_name provisioning_request_fail = "PROVISIONING_REQUEST_FAIL"
error_name provisioning_response_invalid = "PROVISIONING_RESPONSE_INVALID"
error_name mqtt_init_fail = "MQTT_INIT_FAIL"
error_name mqtt_disconnected = "MQTT_DISCONNECTED"
error_name crash_rollback = "CRASH_ROLLBACK"
error_name ota_fail = "OTA_FAIL"
error_name http_init_fail = "HTTP_INIT_FAIL"
error_name http_request_fail = "HTTP_REQUEST_FAIL"
error_name memory_alocation_fail = "MEMORY_ALOCATION_FAIL"
error_name key_generation_fail = "KEY_GENERATION_FAIL"
error_name csr_subject_name_fail = "CSR_SUBJECT_NAME_FAIL"
error_name csr_to_pem_fail = "CSR_TO_PEM_FAIL"
error_name watchdog_init_fail = "WATCHDG_INIT_FAIL"
error_name watchdog_add_fail = "WATCHDG_ADD_FAIL"
error_name watchdog_remove_fail = "WATCHDG_REMOVE_FAIL"
error_name command_response_invalid = "COMMAND_RESPONSE_INVALID"
error_name topic_format_invalid = "TOPIC_FORMAT_INVALID"
error_name key_missing = "UNKNOWN"
error_name cert_missing = "UNKNOWN"
error_name topic_subscribe_fail = "UNKNOWN"
error_name unknown = "UNKNOWN"

pub record AppError : Type 0 where
  pub code : ErrorCode
  pub msg : String
  pub source : Source
  pub details : List (String × String)

-- AppError{}
abbrev pub cleared : AppError
cleared = record {
  code = no_error;
  msg = "";
  source = record { class_name = ""; method = "" };
  details = [];
}

-- The variables of AppState; `ready` says that the mutex exists.
pub record AppState : Type 0 where
  pub ready : Bool
  pub current : DeviceState
  pub previous : DeviceState
  pub last_error : AppError

-- AppState::transition
unfoldable pub move : DeviceState → AppState → AppState
move next s = if s.ready then record s { previous = s.current; current = next } else s

-- AppState::setError
unfoldable pub register : AppError → AppState → AppState
register e s =
    if s.ready then record s { last_error = e; previous = s.current; current = error } else s

-- AppState::clearError
unfoldable pub clear_error : AppState → AppState
clear_error s = if s.ready then record s { last_error = cleared } else s

-- The variables of main.cpp, with the `static` ones of its handlers, and OtaManager's current_version.
pub record Core : Type 0 where
  pub mac_address : String
  pub device_id : String
  pub firmware_version : String
  pub current_version : String
  pub crash_count : ℕ
  pub valid_firmware : Bool
  pub is_wifi_inited : Bool
  pub portal_started : Bool
  pub last_advertise : ℕ

-- What the firmware asks of the network and the chip, newest first in Device.
pub data Request : Type 0 where
  driver : Effect → Request
  post_error : String → Request
  advertise : List (List ℕ) → Request
  start_ota : String → String → Request

module _ (nvs : Nvs) where
  pub record Device : Type 0 where
    pub flash : nvs.Flash
    pub app : AppState
    pub wifi : Wifi
    pub core : Core
    pub client : Client
    pub requests : List Request

  -- AppState::transition
  unfoldable pub transition : DeviceState → Device → Device
  unfolding move
  transition next d = record d { app = move next d.app }

  -- AppState::setError
  unfoldable pub set_error : ErrorCode → String → Source → List (String × String) → Device → Device
  unfolding register
  set_error code msg source details d = record d {
    app = register (record { code = code; msg = msg; source = source; details = details }) d.app;
  }
