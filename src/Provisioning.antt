-- ===== src/Provisioning.antt =====
-- The provisioning firmware: main.cpp and the answer of the service in src/CryptoManager.cpp of
-- perceptive-layer/mqtt_protobuff/FIRM_PROVISIONING_MQTT_PROTOBUFF/main. The managers that it has as
-- copies are those of the core: AppState, MqttManager, WifiManager, WatchdogManager.
use governance_iot_platform.Prelude.{
  ℕ, ◌-◌, ◌≤◌, leb, String, str_eq, Bool, true, false, not, ◌&&◌, ◌||◌, if◌then◌else◌, Option, none,
  some, List, [], ◌∷◌, ◌++◌, length,
}
use Prim.Native.String.{◌++◌ as text_append}
use governance_iot_platform.Prelude.Text.{codes}
use governance_iot_platform.Nvs.{Nvs}
use governance_iot_platform.AppState
use governance_iot_platform.AppState.Codes.{
  DeviceState, wifi_ap_mode, wifi_connecting, time_sync, provisioning, provisioning_success,
  mqtt_init, error, nvs_init_fail, nvs_load_fail, state_index,
}
use governance_iot_platform.Device.{World, at, set_error, transition, read_str}
use governance_iot_platform.Device.State.{
  Outcome, done, halted, restart, Effect, set_time, persist_time, Wifi, status_payload,
}
use governance_iot_platform.Ota.{is_empty}
use governance_iot_platform.Mqtt.{try_reconnect, publish_payload}
use governance_iot_platform.Crypto.{is_provisioned}
use governance_iot_platform.Crypto.Provisioning as Credentials
use governance_iot_platform.Crypto.Provisioning.{
  Writes, KeyAnswers, Response, refuse_response, take_certificate,
}
use governance_iot_platform.Wifi
use governance_iot_platform.Http
use governance_iot_platform.Http.{HttpEvent, Answer, Performed}
use governance_iot_platform.Core.Boot.{FlashAnswer, init_flash, boot_partition_changed}
use governance_iot_platform.Core.Publish.{Surroundings}
use governance_iot_platform.Core.Errors.{is_wifi_connected, drain}
pub mod Handlers
pub mod Audit
pub mod Network
pub mod Loop
pub mod Stages
pub mod Joining
pub mod Arrival
pub mod Steps
pub mod Boot
pub mod Journey
pub mod Setup
pub mod Onboarding

-- The variables of main.cpp beside those of the core: time_synced, boot_completed, the flag `started`
-- of the access point, and g_lastAdvertiseMs.
pub record Progress : Type 0 where
  pub time_synced : Bool
  pub boot_completed : Bool
  pub portal_started : Bool
  pub last_advertise_ms : ℕ

-- The decision of handle_nvs_init on what it read.
unfoldable pub next_state : Bool → Bool → Bool → DeviceState
next_state has_wifi has_token provisioned =
    if not has_wifi || (not has_token && not provisioned) then wifi_ap_mode else wifi_connecting

-- the fields of the service's answer: those of Response, and `timestamp` if it is a string
pub record Activation : Type 0 where
  pub response : Response
  pub timestamp : Option String

-- What the chip and the libraries answer during an activation: strptime and mktime of a timestamp,
-- whether the clock chip takes a time, cJSON_Parse of an answer, and the text of the given bytes.
pub record Answers : Type 0 where
  pub writes : Writes
  pub keys : KeyAnswers
  pub client_created : Bool
  pub events : List HttpEvent
  pub http_answer : Answer
  pub parse : String → Option Activation
  pub parse_time : String → Option ℕ
  pub rtc_present : Bool
  pub print : ℕ → String
  pub as_text : List ℕ → String
  pub provisioning_url : String

module _ (nvs : Nvs) where
  abbrev has_text : String → nvs.Flash → Bool
  has_text key f = not (is_empty (read_str nvs "crypto_store" key 64 f))

  -- what handle_nvs_init keeps of flash
  unfoldable pub read_identity : Option String → World nvs → World nvs
  unfolding boot_partition_changed
  read_identity label w =
      let (f, changed) = boot_partition_changed nvs label w.flash in
      record w {
        flash = f;
        core = record w.core {
          boot_part_changed = changed;
          firmware_version = read_str nvs "main_store" "fw_version" 32 f;
          device_id = read_str nvs "crypto_store" "device_id" 64 f;
        };
      }

  -- its decision
  unfoldable pub decide : World nvs → World nvs
  unfolding next_state
  decide w =
      if is_empty w.core.device_id
      then set_error nvs nvs_load_fail "device_id ausente na NVS" (at "MAIN" "handle_provisioning")
          [] w
      else transition nvs
          (next_state (has_text "wifi_ssid" w.flash) (has_text "prov_token" w.flash)
            (is_provisioned nvs w.flash))
          w

  -- handle_nvs_init; `erase` is nvs_flash_erase
  unfoldable pub handle_nvs_init :
      (nvs.Flash → nvs.Flash) → FlashAnswer → FlashAnswer → Option String → World nvs → World nvs
  unfolding read_identity decide init_flash
  handle_nvs_init erase first second label w =
      let (f, failed) = init_flash nvs erase first second w.flash in
      let w1 = record w { flash = f } in
      elim failed [
        | some name ↦ set_error nvs nvs_init_fail name (at "MAIN" "handle_nvs_init") [] w1
        | none ↦ decide (read_identity label w1)
      ]

  unfoldable pub start_portal : World nvs → World nvs
  start_portal w =
      let (f, effects) = Wifi.init_ap w.wifi in
      record w { wifi = f; effects = effects ++ w.effects }

  -- handle_wifi_ap_mode: the access point and the portal start once, and the boot counts as completed
  unfoldable pub handle_wifi_ap_mode : World nvs × Progress → World nvs × Progress
  unfolding start_portal
  handle_wifi_ap_mode (w, p) = (
    if p.portal_started then w else start_portal w,
    record p { boot_completed = true; portal_started = true },
  )

  -- A clock that the GPS or SNTP set, and the clock chip where it is there; SNTP sets the clock itself.
  unfoldable pub sync_time : Bool → Option ℕ → Option ℕ → World nvs → World nvs × Bool
  sync_time rtc (some epoch) ntp w = (
    record w {
      effects =
          (if rtc then persist_time epoch ∷ set_time epoch ∷ [] else set_time epoch ∷ [])
          ++ w.effects;
    },
    true,
  )
  sync_time rtc none (some epoch) w =
      (record w { effects = (if rtc then persist_time epoch ∷ [] else []) ++ w.effects }, true)
  sync_time rtc none none w = (w, false)

  -- handle_time_sync, on the time of a GPS fix and that of SNTP; a device that was synchronised asks
  -- SNTP no more
  unfoldable pub handle_time_sync :
      Bool → Option ℕ → Option ℕ → World nvs × Progress → World nvs × Progress
  unfolding sync_time
  handle_time_sync rtc gps ntp (w, p) =
      let (w1, synced) = sync_time rtc gps (if p.time_synced then none else ntp) w in
      (
        transition nvs (if is_provisioned nvs w1.flash then mqtt_init else provisioning) w1,
        record p { time_synced = p.time_synced || synced },
      )

  unfoldable pub set_clock : Bool → Option ℕ → World nvs → World nvs
  set_clock rtc none w = w
  set_clock rtc (some epoch) w = record w {
    effects =
        (if rtc then persist_time epoch ∷ set_time epoch ∷ [] else set_time epoch ∷ [])
        ++ w.effects;
  }

  -- the fallback to the timestamp of the service
  unfoldable pub adopt_time : Answers → Bool → Option String → World nvs → World nvs
  unfolding set_clock
  adopt_time a true timestamp w = w
  adopt_time a false none w = w
  adopt_time a false (some t) w = set_clock a.rtc_present (a.parse_time t) w

  -- CryptoManager::handleProvisioningResponse of this firmware
  unfoldable pub handle_provisioning_response :
      Answers → Bool → Option Activation → World nvs → Outcome (World nvs) Bool
  unfolding adopt_time refuse_response take_certificate
  handle_provisioning_response a synced none w =
      refuse_response nvs "API provisioning response is not a valid JSON." w
  handle_provisioning_response a synced (some r) w =
      if r.response.success
      then take_certificate nvs a.writes r.response.certificate (adopt_time a synced r.timestamp w)
      else refuse_response nvs "API return is not success." w

  unfoldable pub finish : Outcome (World nvs) Bool → Outcome (World nvs) (Unit {0})
  finish (done saved w) = done tt w
  finish (halted s w) = halted s w

  -- the consumption of the answer
  unfoldable pub consume : Answers → Bool → Performed (World nvs) → Outcome (World nvs) (Unit {0})
  unfolding finish handle_provisioning_response
  consume a synced p =
      if p.success
      then finish (handle_provisioning_response a synced (a.parse p.response) p.state)
      else done tt p.state

  unfoldable pub is_blank : List ℕ → Bool
  is_blank [] = true
  is_blank (c ∷ cs) = false

  -- the request, unless none could be made
  unfoldable pub activate : Answers → Bool → World nvs × List ℕ → Outcome (World nvs) (Unit {0})
  unfolding consume is_blank
  activate a synced (w, request) =
      if is_blank request
      then done tt w
      else consume a synced (
          Http.post nvs a.print a.client_created a.events a.http_answer a.provisioning_url
            (a.as_text request) (some "application/json") none w)

  -- handle_provisioning
  unfoldable pub handle_provisioning :
      Answers → World nvs × Progress → Outcome (World nvs) (Unit {0})
  unfolding activate
  handle_provisioning a (w, p) = activate a p.time_synced (
      Credentials.handle_provisioning nvs a.writes a.keys (codes w.core.device_id)
        (codes w.core.mac_address) (codes (read_str nvs "crypto_store" "prov_token" 64 w.flash)) w)
