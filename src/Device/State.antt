-- ===== src/Device/State.antt =====
-- The variables of each module of governance_core, one record for each, and the effects of its calls
-- on the network, the timers and the tasks.
use governance_iot_platform.Prelude.{ℕ, String, Bool, List, Option}

-- the fields that `publish_proto_error` gives to DeviceError
pub record ErrorMessage : Type 0 where
  pub device_id : String
  pub mac : String
  pub fw_version : String
  pub ssid : String
  pub error_code : ℕ
  pub error_msg : String
  pub error_source : String
  pub resolved : Bool
  pub timestamp : ℕ
  pub extra : Option String

-- the fields that `publish_proto_status` gives to DeviceStatus
pub record StatusMessage : Type 0 where
  pub mac : String
  pub fw_version : String
  pub ssid : String
  pub state : ℕ
  pub timestamp : ℕ
  pub detail : Option String

-- A payload is written as the message that it encodes.
pub data Payload : Type 0 where
  error_payload : ErrorMessage → Payload
  status_payload : StatusMessage → Payload
  raw_payload : List ℕ → Payload

pub data Effect : Type 0 where
  publish : String → Payload → ℕ → Effect
  subscribe : String → ℕ → Effect
  reconnect stop_timer : Effect
  start_timer : ℕ → Effect
  create_task : String → Effect
  -- ota_task_routine, with the version, the URL and the SHA
  start_ota : String → String → String → Effect
  -- reboot_task, with its delay in ms, and deep_sleep_task, with its time in s
  start_reboot : ℕ → Effect
  start_deep_sleep : ℕ → Effect
  timer_wakeup : ℕ → Effect
  wifi_connect wifi_start wifi_stop : Effect
  set_time : ℕ → Effect
  persist_time : ℕ → Effect
  mark_valid : Effect
  set_boot_partition : Effect

-- MqttManager.cpp. `client` says that `mqtt_client` is not NULL, `timer` the same of the timer.
pub record Mqtt : Type 0 where
  pub client : Bool
  pub timer : Bool
  pub reconnect_count : ℕ
  pub is_connected : Bool
  pub error_reported : Bool
  pub boot_audited : Bool
  pub subscriptions : List (String × ℕ)

pub data WifiStatus : Type 0 where
  idle connecting connected failed reconnecting : WifiStatus

-- The constructors are those of WifiManager::FailReason, less their prefix WIFI_FAIL_.
pub data FailReason : Type 0 where
  fail_none fail_timeout fail_auth fail_no_ap fail_connection fail_max_retries fail_unknown :
      FailReason

-- WifiManager.cpp. `event_group` says that the group exists; the two bits are its bits.
pub record Wifi : Type 0 where
  pub event_group : Bool
  pub connected_bit : Bool
  pub fail_bit : Bool
  pub final_ssid : String
  pub final_pass : String
  pub final_retries : ℕ
  pub retry_count : ℕ
  pub is_initialized : Bool
  pub status : WifiStatus
  pub fail_reason : FailReason

-- governance_core.cpp, with the `static` variables of its handlers.
pub record Core : Type 0 where
  pub mac_address : String
  pub device_id : String
  pub firmware_version : String
  pub crash_count : ℕ
  pub boot_part_changed : Bool
  pub valid_firmware : Bool
  pub mqtt_started : Bool
  pub active_sensors : String
  pub is_wifi_inited : Bool
  pub started : Bool
  pub telemetry_published : Bool
  pub status_published : Bool
  pub low_battery_streak : ℕ

-- OtaManager.cpp
pub record Ota : Type 0 where
  pub current_version : String
  pub current_version_sha : String

-- Calls that do not return: the chip restarts, or sleeps until its timer and then restarts.
pub data Stop : Type 0 where
  restart deep_sleep_start rollback_and_reboot : Stop

pub data Outcome {ℓ} (S : Type 0) (A : Type ℓ) : Type ℓ where
  done : A → S → Outcome S A
  halted : Stop → S → Outcome S A

-- The state in which a call returns or stops the chip.
abbrev pub final {ℓ} : {S : Type 0} {A : Type ℓ} → Outcome S A → S
final (done a s) = s
final (halted r s) = s

infixl 5 ◌>>=◌
abbrev pub ◌>>=◌ {ℓ κ} :
    {S : Type 0} {A : Type ℓ} {B : Type κ}
    → (S → Outcome S A)
    → (A → S → Outcome S B)
    → S
    → Outcome S B
◌>>=◌ m f s = elim (m s) [ done a s' ↦ f a s' | halted r s' ↦ halted r s' ]
