-- ===== src/AppState/Names.antt =====
-- The texts of AppState::toString, for logs (governance_core/src/AppState.cpp).
use governance_iot_platform.Prelude.{String}
use governance_iot_platform.AppState.Codes.{
  DeviceState, ErrorCode, boot_audit, cert_missing, command_complete, command_response_invalid,
  critical_battery, csr_subject_name_fail, csr_to_pem_fail, device_id_missing, error,
  firmware_rollback, firmware_rollback_failed, firmware_version_missing, http_init, http_init_fail,
  http_request, http_request_fail, key_generation_fail, key_missing, memory_alocation_fail,
  mqtt_disconnected, mqtt_init, mqtt_init_fail, mqtt_waiting_connect, no_error, nvs_commit_fail,
  nvs_init, nvs_init_fail, nvs_load_fail, nvs_write_fail, operational, ota_downloading, ota_fail,
  ota_found, ota_successful, provisioning, provisioning_request_fail, provisioning_response_invalid,
  provisioning_success, rebooting, sensors_init, time_sync, time_sync_fail, topic_format_invalid,
  topic_subscribe_fail, unknown, waiting_response, watchdog_add_fail, watchdog_init_fail,
  watchdog_remove_fail, wifi_ap_mode, wifi_connecting, wifi_credentials_missing, wifi_timeout,
}

-- toString(DeviceState)
pub state_name : DeviceState → String
state_name nvs_init = "NVS_INIT"
state_name wifi_ap_mode = "WIFI_AP_MODE"
state_name wifi_connecting = "WIFI_CONNECTING"
state_name time_sync = "TIME_SYNC"
state_name provisioning = "PROVISIONING"
state_name provisioning_success = "PROVISIONING_SUCCESS"
state_name mqtt_waiting_connect = "MQTT_WAITING_CONNECT"
state_name mqtt_init = "MQTT_INIT"
state_name operational = "OPERATIONAL"
state_name ota_found = "OTA_FOUND"
state_name ota_downloading = "OTA_DOWNLOADING"
state_name ota_successful = "OTA_SUCCESSFUL"
state_name boot_audit = "BOOT_AUDIT"
state_name firmware_rollback = "FIRMWARE_ROLLBACK"
state_name rebooting = "REBOOTING"
state_name error = "ERROR"
state_name http_init = "HTTP_INIT"
state_name http_request = "HTTP_REQUEST"
state_name waiting_response = "WAITING_RESPONSE"
state_name command_complete = "COMMAND_COMPLETE"
state_name sensors_init = "SENSORS_INIT"
state_name critical_battery = "CRITICAL_BATTERY"

-- toString(ErrorCode); a code with no case of its own falls to the `default`
pub error_name : ErrorCode → String
error_name no_error = "NONE"
error_name nvs_init_fail = "NVS_INIT_FAIL"
error_name nvs_write_fail = "NVS_WRITE_FAIL"
error_name nvs_commit_fail = "NVS_COMMIT_FAIL"
error_name nvs_load_fail = "NVS_LOAD_FAIL"
error_name wifi_timeout = "WIFI_TIMEOUT"
error_name time_sync_fail = "TIME_SYNC_FAIL"
error_name provisioning_request_fail = "PROVISIONING_REQUEST_FAIL"
error_name provisioning_response_invalid = "PROVISIONING_RESPONSE_INVALID"
error_name mqtt_init_fail = "MQTT_INIT_FAIL"
error_name mqtt_disconnected = "MQTT_DISCONNECTED"
error_name ota_fail = "OTA_FAIL"
error_name http_init_fail = "HTTP_INIT_FAIL"
error_name http_request_fail = "HTTP_REQUEST_FAIL"
error_name memory_alocation_fail = "MEMORY_ALOCATION_FAIL"
error_name key_generation_fail = "KEY_GENERATION_FAIL"
error_name csr_subject_name_fail = "CSR_SUBJECT_NAME_FAIL"
error_name csr_to_pem_fail = "CSR_TO_PEM_FAIL"
error_name key_missing = "KEY_MISSING"
error_name cert_missing = "CERT_MISSING"
error_name topic_subscribe_fail = "TOPIC_SUBSCRIBE_FAIL"
error_name watchdog_init_fail = "WATCHDOG_INIT_FAIL"
error_name watchdog_add_fail = "WATCHDOG_ADD_FAIL"
error_name watchdog_remove_fail = "WATCHDOG_REMOVE_FAIL"
error_name topic_format_invalid = "TOPIC_FORMAT_INVALID"
error_name command_response_invalid = "COMMAND_RESPONSE_INVALID"
error_name device_id_missing = "DEVICE_ID_MISSING"
error_name wifi_credentials_missing = "WIFI_CREDENTIALS_MISSING"
error_name firmware_version_missing = "FIRMWARE_VERSION_MISSING"
error_name firmware_rollback_failed = "FIRMWARE_ROLLBACK_FAILED"
error_name unknown = "UNKNOWN"
error_name _ = "UNKNOWN"
