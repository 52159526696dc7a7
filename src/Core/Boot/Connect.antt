-- ===== src/Core/Boot/Connect.antt =====
-- The handlers that bring up the network: `handle_wifi_connecting` and `handle_mqtt_connecting` of
-- perceptive-layer/mqtt_protobuff/governance_core/src/governance_core.cpp.
use governance_iot_platform.Prelude.{
  ℕ, String, Bool, true, false, if◌then◌else◌, Option, none, some, [], ◌∷◌, ◌++◌,
}
use governance_iot_platform.Nvs.{Nvs}
use governance_iot_platform.AppState.Codes.{error, time_sync, mqtt_waiting_connect, wifi_timeout}
use governance_iot_platform.Device.{World, at, set_error, resolve_error, transition, read_str}
use governance_iot_platform.Device.State.{Wifi}
use governance_iot_platform.Wifi
use governance_iot_platform.Wifi.{Menuconfig, Round, wait_for_connection, fail_reason_to_string}
use governance_iot_platform.Mqtt.{InitAnswers, init_mqtt}
use governance_iot_platform.Crypto.{load_from_nvs}
use Prim.Native.String.{◌++◌ as text_append}

-- What the network answers in one call: `copy` is strlcpy, `menu` and `max_retries` are settings,
-- `started_at`, `fuel` and `rounds` describe the wait, and `mac` is WifiManager::getMacAddress().
pub record Network : Type 0 where
  pub copy : ℕ → String → String
  pub menu : Menuconfig
  pub max_retries : ℕ
  pub started_at : ℕ
  pub fuel : ℕ
  pub rounds : ℕ → Round
  pub mac : String

module _ (nvs : Nvs) where
  -- the first lines of `handle_wifi_connecting`: the driver starts, or starts again
  unfoldable pub start_wifi : Network → World nvs → World nvs
  start_wifi net w =
      let (f, effects) =
        if w.core.is_wifi_inited
        then Wifi.reconnect w.wifi
        else Wifi.init net.copy net.menu
            (record {
              ssid = read_str nvs "crypto_store" "wifi_ssid" 64 w.flash;
              password = read_str nvs "crypto_store" "wifi_pass" 64 w.flash;
              max_retries = some net.max_retries;
            })
            w.wifi in
      record w {
        wifi = f;
        core = record w.core { is_wifi_inited = true };
        effects = effects ++ w.effects;
      }

  -- its last lines, by the result of the wait
  unfoldable pub after_wait : String → Bool → World nvs → World nvs
  after_wait mac false w =
      let ssid = read_str nvs "crypto_store" "wifi_ssid" 64 w.flash in
      set_error nvs wifi_timeout (text_append "Não foi possível conectar em " ssid)
        (at "GOV_CORE" "handle_wifi_connecting")
        (("failed_ssid", ssid) ∷ ("reason", fail_reason_to_string w.wifi.fail_reason) ∷ []) w
  after_wait mac true w =
      let resolved =
        resolve_error nvs wifi_timeout (record w { core = record w.core { mac_address = mac } }) in
      transition nvs (if w.core.mqtt_started then error else time_sync) resolved

  unfoldable pub conclude : String → World nvs → Option (Bool × Wifi) → Option (World nvs)
  conclude mac w none = none
  conclude mac w (some (up, f)) = some (after_wait mac up (record w { wifi = f }))

  -- handle_wifi_connecting; none while it still waits after the rounds that it may take
  unfoldable pub handle_wifi_connecting : Network → World nvs → Option (World nvs)
  handle_wifi_connecting net w =
      let w1 = start_wifi net w in
      conclude net.mac w1 (wait_for_connection net.started_at net.fuel net.rounds w1.wifi)

  -- handle_mqtt_connecting, with the reads of the credentials that `init_mqtt` makes on its first
  -- call; the handler runs once, while no client exists
  unfoldable pub handle_mqtt_connecting : InitAnswers → World nvs → World nvs
  handle_mqtt_connecting a w =
      let w1 = transition nvs mqtt_waiting_connect w in
      let (w2, cert) = load_from_nvs nvs "client_cert" w1 in
      let (w3, key) = load_from_nvs nvs "private_key" w2 in
      let w4 = init_mqtt nvs a cert key w3 in
      record w4 { core = record w4.core { mqtt_started = true } }
