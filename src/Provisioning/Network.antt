-- ===== src/Provisioning/Network.antt =====
-- The network of the provisioning firmware: `handle_wifi_connecting` and `handle_mqtt_connecting` of
-- perceptive-layer/mqtt_protobuff/FIRM_PROVISIONING_MQTT_PROTOBUFF/main/main.cpp.
use governance_iot_platform.Prelude.{
  String, Bool, true, false, if◌then◌else◌, Option, none, some, [],
}
use governance_iot_platform.Nvs.{Nvs}
use governance_iot_platform.AppState.Codes.{error, time_sync, mqtt_waiting_connect, wifi_timeout}
use governance_iot_platform.Device.{World, at, set_error, resolve_error, transition, read_str}
use governance_iot_platform.Device.State.{Wifi}
use governance_iot_platform.Wifi.{wait_for_connection}
use governance_iot_platform.Mqtt.{InitAnswers, init_mqtt}
use governance_iot_platform.Crypto.{load_from_nvs}
use governance_iot_platform.Core.Boot.Connect.{Network, start_wifi}
use Prim.Native.String.{◌++◌ as text_append}

module _ (nvs : Nvs) where
  -- the end of handle_wifi_connecting, by the result of the wait; its start is that of the core
  unfoldable pub after_wait : String → Bool → World nvs → World nvs
  after_wait mac false w =
      set_error nvs wifi_timeout
        (text_append "Não foi possível conectar em "
          (read_str nvs "crypto_store" "wifi_ssid" 64 w.flash))
        (at "MAIN" "handle_wifi_connecting") [] w
  after_wait mac true w =
      let resolved =
        resolve_error nvs wifi_timeout (record w { core = record w.core { mac_address = mac } }) in
      transition nvs (if w.core.mqtt_started then error else time_sync) resolved

  unfoldable pub conclude : String → World nvs → Option (Bool × Wifi) → Option (World nvs)
  unfolding after_wait
  conclude mac w none = none
  conclude mac w (some (up, f)) = some (after_wait mac up (record w { wifi = f }))

  -- handle_wifi_connecting; none while it still waits after the rounds that it may take
  unfoldable pub handle_wifi_connecting : Network → World nvs → Option (World nvs)
  unfolding conclude start_wifi wait_for_connection
  handle_wifi_connecting net w =
      let w1 = start_wifi nvs net w in
      conclude net.mac w1 (wait_for_connection net.started_at net.fuel net.rounds w1.wifi)

  -- handle_mqtt_connecting, with the reads of the credentials by `init_mqtt`
  unfoldable pub handle_mqtt_connecting : InitAnswers → World nvs → World nvs
  unfolding load_from_nvs init_mqtt
  handle_mqtt_connecting a w =
      let w1 = transition nvs mqtt_waiting_connect w in
      let (w2, cert) = load_from_nvs nvs "client_cert" w1 in
      let (w3, key) = load_from_nvs nvs "private_key" w2 in
      let w4 = init_mqtt nvs a cert key w3 in
      record w4 { core = record w4.core { mqtt_started = true } }
