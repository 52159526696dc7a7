-- ===== src/Provisioning/Loop.antt =====
-- The main loop of the provisioning firmware
-- (`app_main` of perceptive-layer/mqtt_protobuff/FIRM_PROVISIONING_MQTT_PROTOBUFF/main/main.cpp).
use governance_iot_platform.Prelude.{ℕ, zero, suc, String, Bool, Option, none, some}
use governance_iot_platform.Nvs.{Nvs}
use governance_iot_platform.AppState.Codes.{
  DeviceState, nvs_init, wifi_ap_mode, wifi_connecting, time_sync, provisioning,
  provisioning_success, mqtt_init, error, rebooting, boot_audit, waiting_response,
}
use governance_iot_platform.Device.{World}
use governance_iot_platform.Device.State.{Wifi, Outcome, done, halted}
use governance_iot_platform.Mqtt.{InitAnswers}
use governance_iot_platform.Core.Publish.{Surroundings}
use governance_iot_platform.Core.Boot.{FlashAnswer}
use governance_iot_platform.Core.Boot.Connect.{Network}
use governance_iot_platform.Core.Audit as CoreAudit
use governance_iot_platform.Provisioning.{
  Progress, Answers, handle_nvs_init, handle_wifi_ap_mode, handle_time_sync, handle_provisioning,
}
use governance_iot_platform.Provisioning.Network.{handle_wifi_connecting, handle_mqtt_connecting}
use governance_iot_platform.Provisioning.Audit.{handle_boot_audit}
use governance_iot_platform.Provisioning.Handlers.{
  handle_provisioning_success, handle_error, handle_rebooting,
}

-- What the chip, the network and the service answer in one turn: `now` is the time in ms, `gps` and
-- `ntp` are the times of a fix and of SNTP, and `wifi_later` is the station after ten seconds.
pub record Turn : Type 0 where
  pub first_init : FlashAnswer
  pub second_init : FlashAnswer
  pub label : Option String
  pub network : Network
  pub rtc : Bool
  pub gps : Option ℕ
  pub ntp : Option ℕ
  pub service : Answers
  pub audit : CoreAudit.Answers
  pub wifi_later : Wifi
  pub now : ℕ
  pub env : Surroundings
  pub mqtt : InitAnswers

module _ (nvs : Nvs) (erase : nvs.Flash → nvs.Flash) where
  abbrev pub State : Type 0
  State = World nvs × Progress

  -- A handler without access to the variables of Progress leaves them.
  abbrev pub with_progress : Progress → Outcome (World nvs) (Unit {0}) → Outcome State (Unit {0})
  with_progress p (done x w) = done x (w, p)
  with_progress p (halted stop w) = halted stop (w, p)

  abbrev pub waited : Progress → Option (World nvs) → Option (Outcome State (Unit {0}))
  waited p none = none
  waited p (some w) = some (done tt (w, p))

  -- the `switch` of the loop; the states that have no handler only wait, and WAITING_RESPONSE waits
  -- without end
  unfoldable pub dispatch : DeviceState → Turn → State → Option (Outcome State (Unit {0}))
  dispatch nvs_init t (w, p) =
      some (done tt (handle_nvs_init nvs erase t.first_init t.second_init t.label w, p))
  dispatch wifi_ap_mode t s = some (done tt (handle_wifi_ap_mode nvs s))
  dispatch wifi_connecting t (w, p) = waited p (handle_wifi_connecting nvs t.network w)
  dispatch time_sync t s = some (done tt (handle_time_sync nvs t.rtc t.gps t.ntp s))
  dispatch provisioning t (w, p) = some (with_progress p (handle_provisioning nvs t.service (w, p)))
  dispatch provisioning_success t s = some (done tt (handle_provisioning_success nvs t.env t.now s))
  dispatch mqtt_init t (w, p) = some (done tt (handle_mqtt_connecting nvs t.mqtt w, p))
  dispatch error t (w, p) = some (done tt (handle_error nvs t.env t.wifi_later w, p))
  dispatch rebooting t (w, p) = some (with_progress p (handle_rebooting nvs w))
  dispatch boot_audit t (w, p) = some (with_progress p (handle_boot_audit nvs t.env t.audit w))
  dispatch waiting_response t s = none
  dispatch _ t s = some (done tt s)

  -- one turn of `while (true)`; none while a wait goes on
  unfoldable pub turn : Turn → State → Option (Outcome State (Unit {0}))
  turn t (w, p) = dispatch w.app.current t (w, p)

  abbrev pub next_turn :
      (State → Option (Outcome State (Unit {0})))
      → Option (Outcome State (Unit {0}))
      → Option (Outcome State (Unit {0}))
  next_turn f none = none
  next_turn f (some (done x s)) = f s
  next_turn f (some (halted stop s)) = some (halted stop s)

  -- so many turns of the main loop
  unfoldable pub turns : ℕ → Turn → State → Option (Outcome State (Unit {0}))
  turns zero t s = some (done tt s)
  turns (suc n) t s = next_turn (turns n t) (turn t s)
