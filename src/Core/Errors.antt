-- ===== src/Core/Errors.antt =====
-- The handler of ERROR: it waits for the network and then publishes the queue of error events
-- (`handle_error` of perceptive-layer/mqtt_protobuff/governance_core/src/governance_core.cpp).
pub mod Drain
use governance_iot_platform.Prelude.{
  ℕ, zero, suc, String, Bool, true, false, not, ◌&&◌, if◌then◌else◌, List, [], ◌∷◌, length,
}
use governance_iot_platform.Nvs.{Nvs}
use governance_iot_platform.AppState.Codes.{operational, wifi_connecting}
use governance_iot_platform.AppState
use governance_iot_platform.Device.{World, transition}
use governance_iot_platform.Device.State.{Wifi}
use governance_iot_platform.Mqtt.{try_reconnect}
use governance_iot_platform.Core.Publish.{Surroundings, publish_proto_error, error_message}
use Prim.Native.String.{◌++◌ as text_append}

-- WifiManager::isConnected
unfoldable pub is_wifi_connected : Wifi → Bool
is_wifi_connected f = f.event_group && f.connected_bit

module _ (nvs : Nvs) (env : Surroundings) where
  -- the loop `while (AppState::hasQueuedErrors())`, on the number of rounds it may take
  unfoldable pub drain : ℕ → String → World nvs → World nvs
  drain zero topic w = w
  drain (suc fuel) topic w =
      let (app, e) = AppState.pop_error w.app in
      let w1 = record w { app = app } in
      let rest =
        drain fuel topic (publish_proto_error nvs env topic (error_message nvs env e w1) w1) in
      if AppState.has_queued_errors w.app then rest else w

  -- the flags of a sleep cycle, which only the deep sleep firmware has
  unfoldable pub reset_cycle : Bool → World nvs → World nvs
  reset_cycle sleeps w =
      if sleeps
      then record w {
        core = record w.core { telemetry_published = false; status_published = false };
      }
      else w

  -- handle_error. `sleeps` is CONFIG_GOV_FIRMWARE_DEEP_SLEEP, and `later` is the state of the WiFi
  -- after the wait of ten seconds.
  unfoldable pub handle_error : Bool → Wifi → World nvs → World nvs
  handle_error sleeps later w =
      let w1 = record w { wifi = later } in
      let drained = drain (length w.app.error_queue) (text_append "error/" w.core.device_id) w in
      if not (AppState.has_queued_errors w.app)
      then transition nvs operational (reset_cycle sleeps w)
      else if not (is_wifi_connected w.wifi)
      then if is_wifi_connected later then w1 else transition nvs wifi_connecting w1
      else if not w.mqtt.is_connected
      then try_reconnect nvs w
      else transition nvs operational (reset_cycle sleeps drained)
