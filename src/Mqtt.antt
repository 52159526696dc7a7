-- ===== src/Mqtt.antt =====
-- The connection to the broker: reconnection, its error report, and the subscriptions
-- (perceptive-layer/mqtt_protobuff/governance_core/src/MqttManager.cpp).
pub mod Outage
pub mod Subscriptions
use governance_iot_platform.Prelude.{
  ℕ, suc, ◌+◌, ◌*◌, ltb, leb, String, str_eq, Bool, true, false, not, ◌||◌, if◌then◌else◌, List, [],
  ◌∷◌, ◌++◌,
}
use governance_iot_platform.Nvs.{Nvs}
use governance_iot_platform.AppState.Codes.{
  mqtt_disconnected, topic_subscribe_fail, cert_missing, key_missing, boot_audit, error,
}
use governance_iot_platform.Device.{World, at, emit, set_error, resolve_error, transition}
use governance_iot_platform.Device.State.{
  Mqtt, Payload, publish, subscribe, reconnect, stop_timer, start_timer,
}
use governance_iot_platform.Ota.{is_empty}
use Prim.Native.String.{◌++◌ as text_append}

abbrev pub max_reconnect_attempts : ℕ
max_reconnect_attempts = 5

abbrev pub reconnect_delay_ms : ℕ
reconnect_delay_ms = 5000

-- the search of `subscribe` for a topic that is registered already
abbrev pub is_subscribed : String → List (String × ℕ) → Bool
is_subscribed topic [] = false
is_subscribed topic ((t, q) ∷ rest) = str_eq t topic || is_subscribed topic rest

pub data MqttEvent : Type 0 where
  event_connected event_disconnected event_error event_other : MqttEvent
  event_data : String → String → MqttEvent

-- What ESP-IDF answers in init_mqtt: esp_timer_create succeeds, and esp_mqtt_client_init returns a
-- client.
pub record InitAnswers : Type 0 where
  pub timer_created : Bool
  pub client_created : Bool

module _ (nvs : Nvs) where
  -- resubscribe_all; a subscription that fails is only logged
  unfoldable pub resubscribe_all : List (String × ℕ) → World nvs → World nvs
  resubscribe_all [] w = w
  resubscribe_all ((topic, qos) ∷ rest) w = resubscribe_all rest (emit nvs (subscribe topic qos) w)

  -- reconnect_timer_cb
  unfoldable pub reconnect_timer_cb : World nvs → World nvs
  reconnect_timer_cb w =
      if w.mqtt.client
      then record w {
        mqtt = record w.mqtt { reconnect_count = w.mqtt.reconnect_count + 1 };
        effects = reconnect ∷ w.effects;
      }
      else w

  -- schedule_reconnect
  unfoldable pub schedule_reconnect : World nvs → World nvs
  schedule_reconnect w =
      if leb max_reconnect_attempts w.mqtt.reconnect_count
      then if w.mqtt.error_reported
        then w
        else set_error nvs mqtt_disconnected
            "Broker MQTT inacessível após 5 tentativas de reconexão"
            (at "MqttManager" "schedule_reconnect") []
            (record w { mqtt = record w.mqtt { error_reported = true } })
      else record w { effects = start_timer (reconnect_delay_ms * 1000) ∷ stop_timer ∷ w.effects }

  -- the case MQTT_EVENT_CONNECTED
  unfoldable pub on_connected : World nvs → World nvs
  on_connected w =
      let m = record w.mqtt { is_connected = true; reconnect_count = 0; error_reported = false } in
      let w1 = record w { mqtt = m; effects = stop_timer ∷ w.effects } in
      if w.mqtt.boot_audited
      then transition nvs error
          (resolve_error nvs mqtt_disconnected (resubscribe_all w.mqtt.subscriptions w1))
      else transition nvs boot_audit (record w1 { mqtt = record m { boot_audited = true } })

  -- the cases MQTT_EVENT_DISCONNECTED and MQTT_EVENT_ERROR
  unfoldable pub on_lost : World nvs → World nvs
  on_lost w = schedule_reconnect (record w { mqtt = record w.mqtt { is_connected = false } })

  -- mqtt_event_handler; `callback` is the function of setCallback, over topic and payload
  unfoldable pub mqtt_event_handler :
      (String → String → World nvs → World nvs) → MqttEvent → World nvs → World nvs
  mqtt_event_handler callback event_connected w = on_connected w
  mqtt_event_handler callback event_disconnected w = on_lost w
  mqtt_event_handler callback (event_data topic payload) w = callback topic payload w
  mqtt_event_handler callback event_error w = on_lost w
  mqtt_event_handler callback event_other w = w

  -- MqttManager::init_mqtt, with the certificate and the key that CryptoManager gave to its first
  -- call: they are `static` there. A client that cannot be made is not noticed.
  unfoldable pub init_mqtt : InitAnswers → String → String → World nvs → World nvs
  init_mqtt a cert key w =
      if w.mqtt.client
      then w
      else if is_empty cert
      then set_error nvs cert_missing
          "ERRO: Certificado nao encontrados na NVS! O dispositivo precisa ser provisionado"
          (at "MqttManager" "mqtt_event_handler") [] w
      else if is_empty key
      then set_error nvs key_missing
          "ERRO: Chave Privada nao encontrada na NVS! O dispositivo precisa ser reciclado."
          (at "MqttManager" "mqtt_event_handler") [] w
      else record w {
        mqtt = record w.mqtt { client = a.client_created; timer = w.mqtt.timer || a.timer_created };
      }

  -- MqttManager::publish
  unfoldable pub publish_payload : Payload → String → ℕ → World nvs → World nvs
  publish_payload payload topic qos w =
      if w.mqtt.client then emit nvs (publish topic payload qos) w else w

  -- MqttManager::subscribe; `sent` says that esp_mqtt_client_subscribe returns no negative id
  unfoldable pub subscribe_topic : Bool → String → ℕ → World nvs → World nvs
  subscribe_topic sent topic qos w =
      let w1 = record w {
        mqtt = record w.mqtt { subscriptions = w.mqtt.subscriptions ++ (topic, qos) ∷ [] };
        effects = subscribe topic qos ∷ w.effects;
      } in
      if not w.mqtt.client || is_subscribed topic w.mqtt.subscriptions
      then w
      else if sent
      then w1
      else set_error nvs topic_subscribe_fail (text_append "Falha ao subscrever: " topic)
          (at "MqttManager" "subscribe") [] w1

  -- MqttManager::tryReconnect
  unfoldable pub try_reconnect : World nvs → World nvs
  try_reconnect w =
      if w.mqtt.client
      then schedule_reconnect (record w { mqtt = record w.mqtt { reconnect_count = 0 } })
      else w

  -- MqttManager::destroy
  unfoldable pub destroy : World nvs → World nvs
  destroy w =
      if w.mqtt.client
      then record w {
        mqtt = record w.mqtt { client = false; timer = false };
        effects = if w.mqtt.timer then stop_timer ∷ w.effects else w.effects;
      }
      else w
