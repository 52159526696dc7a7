-- ===== src/Provisioning/Handlers.antt =====
-- The states after the activation, and the watch over the boot
-- (perceptive-layer/mqtt_protobuff/FIRM_PROVISIONING_MQTT_PROTOBUFF/main/main.cpp).
use governance_iot_platform.Prelude.{
  ℕ, ◌-◌, leb, String, true, not, if◌then◌else◌, Option, none, length,
}
use Prim.Native.String.{◌++◌ as text_append}
use governance_iot_platform.Nvs.{Nvs}
use governance_iot_platform.AppState
use governance_iot_platform.AppState.Codes.{wifi_connecting, provisioning_success, state_index}
use governance_iot_platform.Device.{World, transition}
use governance_iot_platform.Device.State.{Outcome, done, halted, restart, Wifi, status_payload}
use governance_iot_platform.Mqtt.{try_reconnect, publish_payload}
use governance_iot_platform.Core.Publish.{Surroundings}
use governance_iot_platform.Core.Errors.{is_wifi_connected, drain}
use governance_iot_platform.Provisioning.{Progress}

module _ (nvs : Nvs) where
  -- publish_proto_status, with the quality of service
  unfoldable pub publish_proto_status :
      Surroundings → String → ℕ → Option String → ℕ → World nvs → World nvs
  publish_proto_status env topic state detail qos w =
      let payload = status_payload (record {
        mac = w.core.mac_address;
        fw_version = w.core.firmware_version;
        ssid = env.ssid;
        state = state;
        timestamp = env.now;
        detail = detail;
      }) in
      if env.encodes 256 payload then publish_payload nvs payload topic qos w else w

  -- handle_provisioning_success, at the time `now` in ms
  unfoldable pub handle_provisioning_success :
      Surroundings → ℕ → World nvs × Progress → World nvs × Progress
  handle_provisioning_success env now (w, p) =
      if leb 10000 (now - p.last_advertise_ms)
      then (
        publish_proto_status env (text_append "status/" w.core.device_id)
            (state_index w.app.current) none 0 w,
        record p { boot_completed = true; last_advertise_ms = now },
      )
      else (w, record p { boot_completed = true })

  -- handle_error; `later` is the state of the WiFi after the wait of ten seconds
  unfoldable pub handle_error : Surroundings → Wifi → World nvs → World nvs
  handle_error env later w =
      let w1 = record w { wifi = later } in
      let drained =
        drain nvs env (length w.app.error_queue) (text_append "error/" w.core.device_id) w in
      if not (AppState.has_queued_errors w.app)
      then transition nvs provisioning_success w
      else if not (is_wifi_connected w.wifi)
      then if is_wifi_connected later then w1 else transition nvs wifi_connecting w1
      else if not w.mqtt.is_connected
      then try_reconnect nvs w
      else transition nvs provisioning_success drained

  -- handle_rebooting
  unfoldable pub handle_rebooting : World nvs → Outcome (World nvs) (Unit {0})
  handle_rebooting w = halted restart w

  -- boot_timeout_task, once its time has passed
  unfoldable pub boot_timeout_task : World nvs × Progress → Outcome (World nvs) (Unit {0})
  boot_timeout_task (w, p) = if p.boot_completed then done tt w else halted restart w
