-- ===== src/Core/Loop.antt =====
-- The main loop: `governance_core_init` and `handle_operational` of
-- perceptive-layer/mqtt_protobuff/governance_core/src/governance_core.cpp.
pub mod Identity
pub mod Clock
pub mod Stages
pub mod Progress
use governance_iot_platform.Prelude.{
  ℕ, String, Bool, true, false, ◌&&◌, if◌then◌else◌, Option, none, some, List, [], ◌∷◌,
}
use governance_iot_platform.Nvs.{Nvs}
use governance_iot_platform.AppState.Codes.{
  DeviceState, nvs_init, wifi_connecting, time_sync, mqtt_init, error, boot_audit, sensors_init,
  operational,
}
use governance_iot_platform.AppState
use governance_iot_platform.Device.{World, transition}
use governance_iot_platform.Device.State.{Wifi, Outcome, done, halted, Effect, create_task}
use governance_iot_platform.Mqtt.{InitAnswers}
use governance_iot_platform.Core.Publish.{Surroundings}
use governance_iot_platform.Core.Errors.{handle_error}
use governance_iot_platform.Core.Boot.{
  FlashAnswer, TimeSources, handle_nvs_init, handle_time_sync, handle_sensor_discovery,
}
use governance_iot_platform.Core.Boot.Connect.{
  Network, handle_wifi_connecting, handle_mqtt_connecting,
}
use governance_iot_platform.Core.Audit
use governance_iot_platform.Core.Audit.{handle_boot_audit}

-- The settings of the firmware, and what the chip and the network answer in one turn of the loop.
pub record Turn : Type 0 where
  pub first_init : FlashAnswer
  pub second_init : FlashAnswer
  pub label : Option String
  pub network : Network
  pub time : TimeSources
  pub sensors : Option (Option String)
  pub audit : Audit.Answers
  pub sleeps : Bool
  pub wifi_later : Wifi
  pub env : Surroundings
  pub mqtt : InitAnswers

abbrev pub is_operational : DeviceState → Bool
is_operational operational = true
is_operational _ = false

module _ (nvs : Nvs) (erase : nvs.Flash → nvs.Flash) where
  -- handle_operational
  unfoldable pub handle_operational : World nvs → World nvs
  handle_operational w = if w.core.started then w else record w {
    core = record w.core { started = true };
    effects = create_task "mqtt_pub" ∷ create_task "status" ∷ create_task "telemetry" ∷ w.effects;
  }

  -- errors that wait in OPERATIONAL
  unfoldable pub redirect : World nvs → World nvs
  redirect w =
      if is_operational w.app.current && AppState.has_queued_errors w.app
      then transition nvs error w
      else w

  abbrev pub waited : Option (World nvs) → Option (Outcome (World nvs) (Unit {0}))
  waited none = none
  waited (some w) = some (done tt w)

  -- the `switch` of the loop; the states that have no handler only wait
  unfoldable pub dispatch : DeviceState → Turn → World nvs → Option (Outcome (World nvs) (Unit {0}))
  dispatch nvs_init t w =
      some (done tt (handle_nvs_init nvs erase t.first_init t.second_init t.label w))
  dispatch wifi_connecting t w = waited (handle_wifi_connecting nvs t.network w)
  dispatch time_sync t w = some (done tt (handle_time_sync nvs t.time w))
  dispatch mqtt_init t w = some (done tt (handle_mqtt_connecting nvs t.mqtt w))
  dispatch error t w = some (done tt (handle_error nvs t.env t.sleeps t.wifi_later w))
  dispatch boot_audit t w = some (handle_boot_audit nvs t.env t.audit w)
  dispatch sensors_init t w = some (done tt (handle_sensor_discovery nvs t.sensors w))
  dispatch operational t w = some (done tt (handle_operational w))
  dispatch _ t w = some (done tt w)

  -- one turn of `while (true)`; none while the wait for the network goes on
  unfoldable pub turn : Turn → World nvs → Option (Outcome (World nvs) (Unit {0}))
  turn t w = let w' = redirect w in dispatch w'.app.current t w'
