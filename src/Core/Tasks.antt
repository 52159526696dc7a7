-- ===== src/Core/Tasks.antt =====
-- The tasks of an operational device: telemetry_task, status_task, mqtt_publisher_task and
-- boot_timeout_task of perceptive-layer/mqtt_protobuff/governance_core/src/governance_core.cpp, one
-- round at a time.
pub mod Rounds
pub mod Cycle
use governance_iot_platform.Prelude.{
  ℕ, ◌-◌, ltb, String, Bool, true, false, not, ◌&&◌, if◌then◌else◌, ◌==◌, Option, none, some, List,
  [], ◌∷◌, ◌++◌, length, take, map, str_eq,
}
use governance_iot_platform.Prelude.Text.{codes}
use governance_iot_platform.Nvs.{Nvs}
use governance_iot_platform.AppState.Codes.{state_index}
use governance_iot_platform.Device.{World}
use governance_iot_platform.Device.State.{Outcome, done, halted, restart, ◌>>=◌}
use governance_iot_platform.Core.Power.{Battery, watch_battery, enter_deep_sleep}
use governance_iot_platform.Core.Publish.{Surroundings}
use governance_iot_platform.Core.Loop.{is_operational}

-- the readings of a telemetry message: keys and values
pub record Reading (V : Type 0) : Type 0 where
  pub key : List ℕ
  pub value : V

pub data Content (V : Type 0) : Type 0 where
  -- DeviceTelemetry: the device, the time and the readings
  telemetry : String → ℕ → List (Reading V) → Content V
  -- DeviceStatus: the MAC, the firmware, the network, the state, the time, and the sensors
  status : String → String → String → ℕ → ℕ → Option String → Content V

-- MqttMessage: the topic less its terminator, and what the payload encodes
pub record Message (V : Type 0) : Type 0 where
  pub topic : List ℕ
  pub content : Content V

-- g_mqttQueue, the oldest first, and the messages that MqttManager::publish was called with
pub record Mailbox (V : Type 0) : Type 0 where
  pub queue : List (Message V)
  pub published : List (Message V)

-- What the firmware is built with, and what its hooks and nanopb answer: CONFIG_GOV_FIRMWARE_DEEP_SLEEP,
-- CONFIG_DEEP_SLEEP_WAKE_INTERVAL_S, CONFIG_GOV_BATTERY_HIBERNATION and SENSOR_KEY_MAX_SIZE.
pub record Settings (V : Type 0) : Type 0 where
  pub sleeps : Bool
  pub wake_interval_s : ℕ
  pub hibernates : Bool
  pub battery : Battery
  pub print_mv : ℕ → String
  pub key_size : ℕ
  pub encodes : Content V → Bool

-- snprintf into a topic of 128 bytes
unfoldable pub topic_of : String → String → List ℕ
topic_of prefix id = take 127 (codes prefix ++ codes id)

-- strncmp(topic, prefix, strlen(prefix)) == 0
unfoldable pub starts_with : List ℕ → List ℕ → Bool
starts_with [] topic = true
starts_with (c ∷ cs) [] = false
starts_with (c ∷ cs) (d ∷ ds) = c == d && starts_with cs ds

abbrev pub queue_length : ℕ
queue_length = 10

module _ {V : Type 0} where
  -- xQueueSend without a wait: a full queue drops the message
  unfoldable pub queue_send : Message V → Mailbox V → Mailbox V
  queue_send m box =
      if ltb (length box.queue) queue_length
      then record box { queue = box.queue ++ m ∷ [] }
      else box

  unfoldable pub send_encoded : (Content V → Bool) → Message V → Mailbox V → Mailbox V
  unfolding queue_send
  send_encoded encodes m box = if encodes m.content then queue_send m box else box

  unfoldable pub cut_key : ℕ → Reading V → Reading V
  cut_key size r = record r { key = take (size - 1) r.key }

module _ (nvs : Nvs) {V : Type 0} (c : Settings V) (env : Surroundings) where
  abbrev pub State : Type 0
  State = World nvs × Mailbox V

  unfoldable pub set_telemetry_published : World nvs → World nvs
  set_telemetry_published w = record w { core = record w.core { telemetry_published = true } }

  unfoldable pub set_status_published : World nvs → World nvs
  set_status_published w = record w { core = record w.core { status_published = true } }

  unfoldable pub telemetry_message : List (Reading V) → World nvs → Message V
  unfolding topic_of cut_key
  telemetry_message readings w = record {
    topic = topic_of "telemetry/" w.core.device_id;
    content = telemetry w.core.device_id env.now (map (cut_key c.key_size) (take 8 readings));
  }

  -- the battery of a round, if the firmware watches it
  unfoldable pub check_battery : Option ℕ → World nvs → Outcome (World nvs) (Unit {0})
  unfolding watch_battery
  check_battery mv w =
      if c.hibernates then watch_battery nvs env c.battery c.print_mv mv w else done tt w

  unfoldable pub send_telemetry :
      List (Reading V) → Mailbox V → Outcome (World nvs) (Unit {0}) → Outcome State (Unit {0})
  unfolding send_encoded telemetry_message
  send_telemetry readings box (done _ w) =
      done tt (w, send_encoded c.encodes (telemetry_message readings w) box)
  send_telemetry readings box (halted s w) = halted s (w, box)

  -- the readings of the hook: none without a hook
  unfoldable pub collect : Option (List (Reading V)) → Option ℕ → State → Outcome State (Unit {0})
  unfolding set_telemetry_published check_battery send_telemetry
  collect (some (r ∷ rs)) mv (w, box) = send_telemetry (r ∷ rs) box (check_battery mv w)
  collect _ mv (w, box) = done tt (if c.sleeps then set_telemetry_published w else w, box)

  -- a round of telemetry_task
  unfoldable pub telemetry_round :
      Option (List (Reading V)) → Option ℕ → State → Outcome State (Unit {0})
  unfolding collect
  telemetry_round readings mv (w, box) =
      if is_operational w.app.current && not (c.sleeps && w.core.telemetry_published)
      then collect readings mv (w, box)
      else done tt (w, box)

  unfoldable pub status_message : World nvs → Message V
  unfolding topic_of
  status_message w = record {
    topic = topic_of "status/" w.core.device_id;
    content =
        status w.core.mac_address w.core.firmware_version env.ssid (state_index w.app.current)
          env.now (if str_eq w.core.active_sensors "" then none else some w.core.active_sensors);
  }

  -- a round of status_task
  unfoldable pub status_round : State → Outcome State (Unit {0})
  unfolding send_encoded status_message
  status_round (w, box) =
      if is_operational w.app.current && not (c.sleeps && w.core.status_published)
      then done tt (w, send_encoded c.encodes (status_message w) box)
      else done tt (w, box)

  -- the flags of a sleeping firmware, by the topic that was published
  unfoldable pub note_published : Message V → World nvs → World nvs
  unfolding starts_with set_telemetry_published set_status_published
  note_published m w =
      if not c.sleeps
      then w
      else if starts_with (codes "telemetry/") m.topic
      then set_telemetry_published w
      else if starts_with (codes "status/") m.topic
      then set_status_published w
      else w

  -- xQueueReceive and what follows: a message that is received while the device cannot publish is lost
  unfoldable pub publish_next : List (Message V) → State → State
  unfolding note_published
  publish_next [] (w, box) = (w, box)
  publish_next (m ∷ queue) (w, box) =
      if is_operational w.app.current && w.mqtt.is_connected
      then (note_published m w, record { queue = queue; published = box.published ++ m ∷ [] })
      else (w, record box { queue = queue })

  -- the end of a round: a sleeping firmware that has published both goes to sleep
  unfoldable pub end_cycle : State → Outcome State (Unit {0})
  unfolding enter_deep_sleep
  end_cycle (w, box) =
      if c.sleeps && w.core.telemetry_published && w.core.status_published
      then elim (enter_deep_sleep nvs c.wake_interval_s "DEEP_SLEEP" w) [
        | done _ w' ↦ done tt (w', box)
        | halted s w' ↦ halted s (w', box)
      ]
      else done tt (w, box)

  -- a round of mqtt_publisher_task
  unfoldable pub publisher_round : State → Outcome State (Unit {0})
  unfolding publish_next end_cycle
  publisher_round (w, box) = end_cycle (publish_next box.queue (w, box))

  -- boot_timeout_task, once its time has passed
  unfoldable pub boot_timeout : World nvs → Outcome (World nvs) (Unit {0})
  unfolding enter_deep_sleep
  boot_timeout w =
      if c.sleeps
      then enter_deep_sleep nvs c.wake_interval_s "TIMEOUT_SLEEP" w
      else halted restart w
