-- ===== src/Core/Publish.antt =====
-- Messages to the platform: `publish_proto_error` and `publish_proto_status` of
-- perceptive-layer/mqtt_protobuff/governance_core/src/governance_core.cpp. nanopb is the argument
-- `encodes`: pb_encode of a message succeeds in a buffer of so many bytes.
use governance_iot_platform.Prelude.{
  ℕ, String, Bool, if◌then◌else◌, Option, none, some, List, [], ◌∷◌,
}
use governance_iot_platform.Nvs.{Nvs}
use governance_iot_platform.AppState.Codes.{AppError, error_index}
use governance_iot_platform.Device.{World}
use governance_iot_platform.Device.State.{Payload, error_payload, status_payload, ErrorMessage}
use governance_iot_platform.Mqtt.{publish_payload}
use Prim.Native.String.{◌++◌ as text_append}

-- What the publishing code asks of the world: `now` is time(NULL), `ssid` is WifiManager::getSSID().
pub record Surroundings : Type 0 where
  pub encodes : ℕ → Payload → Bool
  pub now : ℕ
  pub ssid : String

-- the message as it is sent: without its details when only that fits, and not at all when nothing does
unfoldable pub fitting_error : (ℕ → Payload → Bool) → ErrorMessage → Option Payload
fitting_error encodes m =
    let full = error_payload m in
    let bare = error_payload (record m { extra = none }) in
    if encodes 512 full
    then some full
    else elim m.extra [ none ↦ none | some extra ↦ if encodes 512 bare then some bare else none ]

-- the details of an event as `handle_error` writes them
unfoldable pub details_text : List (String × String) → String
details_text [] = "}"
details_text ((k, v) ∷ []) =
    text_append "\"" (text_append k (text_append "\": \"" (text_append v "\"}")))
details_text ((k, v) ∷ (k', v') ∷ rest) = text_append "\"" (
    text_append k
      (text_append "\": \"" (text_append v (text_append "\", " (details_text ((k', v') ∷ rest))))))

unfoldable pub extra_of : List (String × String) → Option String
extra_of [] = none
extra_of ((k, v) ∷ rest) = some (text_append "{" (details_text ((k, v) ∷ rest)))

module _ (nvs : Nvs) (env : Surroundings) where
  -- the DeviceError of an event
  unfoldable pub error_message : AppError → World nvs → ErrorMessage
  error_message e w = record {
    device_id = w.core.device_id;
    mac = w.core.mac_address;
    fw_version = w.core.firmware_version;
    ssid = env.ssid;
    error_code = error_index e.code;
    error_msg = e.msg;
    error_source = text_append e.source.class_name (text_append "::" e.source.method);
    resolved = e.resolved;
    timestamp = env.now;
    extra = extra_of e.details;
  }

  -- publish_proto_error
  unfoldable pub publish_proto_error : String → ErrorMessage → World nvs → World nvs
  publish_proto_error topic m w = elim (fitting_error env.encodes m) [
    | none ↦ w
    | some payload ↦ publish_payload nvs payload topic 1 w
  ]

  -- publish_proto_status
  unfoldable pub publish_proto_status : String → ℕ → Option String → World nvs → World nvs
  publish_proto_status topic state detail w =
      let payload = status_payload (record {
        mac = w.core.mac_address;
        fw_version = w.core.firmware_version;
        ssid = env.ssid;
        state = state;
        timestamp = env.now;
        detail = detail;
      }) in
      if env.encodes 256 payload then publish_payload nvs payload topic 1 w else w
