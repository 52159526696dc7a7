-- ===== src/Provisioning/Joining.antt =====
-- A boot of the provisioning firmware joins its network, sets the clock and asks for the broker
-- (perceptive-layer/mqtt_protobuff/FIRM_PROVISIONING_MQTT_PROTOBUFF/main/main.cpp).
use governance_iot_platform.Prelude.{
  ℕ, String, Bool, true, false, if◌then◌else◌, Option, none, some, ◌≡◌, refl, sym, ap, subst, ◌∙◌,
}
use governance_iot_platform.Nvs.{Nvs, IsHealthy, str}
use governance_iot_platform.AppState.Codes.{
  DeviceState, wifi_connecting, time_sync, provisioning, mqtt_init, mqtt_waiting_connect, error,
  wifi_timeout,
}
use governance_iot_platform.AppState
use governance_iot_platform.Device.{World, resolve_error, transition}
use governance_iot_platform.Device.Laws.{resolve_error-app, settle-ready, settle-current}
use governance_iot_platform.Device.State.{Wifi}
use governance_iot_platform.Ota.{is_empty}
use governance_iot_platform.Wifi.{wait_loop}
use governance_iot_platform.Mqtt.{InitAnswers, init_mqtt}
use governance_iot_platform.Crypto.{is_provisioned, load_from_nvs}
use governance_iot_platform.Core.Boot.Connect.{Network, start_wifi}
use governance_iot_platform.Core.Loop.Identity.{IsFresh, resolve_error-crypto}
use governance_iot_platform.Core.Loop.Stages.{Arrives, resolve_error-rest, wait_begins}
use governance_iot_platform.Provisioning.{Progress, sync_time, handle_time_sync}
use governance_iot_platform.Provisioning.Boot.{is_provisioned-get}
use governance_iot_platform.Provisioning.Network.{
  after_wait, conclude, handle_wifi_connecting, handle_mqtt_connecting,
}
use governance_iot_platform.Provisioning.Stages.{IsAt, moved}

module _ (nvs : Nvs) (healthy : IsHealthy nvs) where
  resolve-IsAt :
      (d : DeviceState) (f : nvs.Flash) (w : World nvs)
      → IsAt nvs healthy d f w
      → IsAt nvs healthy d f (resolve_error nvs wifi_timeout w)
  resolve-IsAt d f w i = record {
    at_state =
        ap (λ s. s.current) (resolve_error-app nvs wifi_timeout w)
        ∙ settle-current wifi_timeout w.app
        ∙ i.at_state;
    ready =
        ap (λ s. s.ready) (resolve_error-app nvs wifi_timeout w)
        ∙ settle-ready wifi_timeout w.app
        ∙ i.ready;
    no_client = (resolve_error-rest nvs healthy w).0 ∙ i.no_client;
    not_started = (resolve_error-rest nvs healthy w).1 ∙ i.not_started;
    entries = λ k. resolve_error-crypto nvs healthy w k ∙ i.entries k;
  }

  after_wait-IsAt :
      (mac : String) (f : nvs.Flash) (w : World nvs)
      → IsAt nvs healthy wifi_connecting f w
      → IsAt nvs healthy time_sync f (after_wait nvs mac true w)
  unfolding after_wait
  after_wait-IsAt mac f w i =
      let named = record w { core = record w.core { mac_address = mac } } in
      let at : IsAt nvs healthy wifi_connecting f named = record {
        at_state = i.at_state;
        ready = i.ready;
        no_client = i.no_client;
        not_started = i.not_started;
        entries = i.entries;
      } in
      subst
        (λ b.
          IsAt nvs healthy time_sync f (
            transition nvs (if b then error else time_sync) (resolve_error nvs wifi_timeout named)))
        (sym i.not_started)
        (moved nvs healthy wifi_connecting time_sync f _ (resolve-IsAt wifi_connecting f named at))

  started-IsAt :
      (net : Network) (station : Wifi) (f : nvs.Flash) (w : World nvs)
      → IsAt nvs healthy wifi_connecting f w
      → IsAt nvs healthy wifi_connecting f (record (start_wifi nvs net w) { wifi = station })
  unfolding start_wifi
  started-IsAt net station f w i = record {
    at_state = i.at_state;
    ready = i.ready;
    no_client = i.no_client;
    not_started = i.not_started;
    entries = i.entries;
  }

  pub wifi_goes :
      (net : Network) (station : Wifi) (f : nvs.Flash) (w : World nvs)
      → wait_loop net.started_at net.fuel net.rounds ≡ some (true, station)
      → IsFresh nvs healthy w
      → IsAt nvs healthy wifi_connecting f w
      → Arrives nvs healthy (IsAt nvs healthy time_sync f) (handle_wifi_connecting nvs net w)
  unfolding handle_wifi_connecting conclude
  wifi_goes net station f w up fresh i =
      subst
        (λ o.
          Arrives nvs healthy (IsAt nvs healthy time_sync f)
            (conclude nvs net.mac (start_wifi nvs net w) o))
        (sym (wait_begins nvs healthy net w fresh ∙ up))
        (after_wait-IsAt net.mac f _ (started-IsAt net station f w i))

  sync_time-IsAt :
      (d : DeviceState) (f : nvs.Flash) (rtc : Bool) (gps ntp : Option ℕ) (w : World nvs)
      → IsAt nvs healthy d f w
      → IsAt nvs healthy d f (sync_time nvs rtc gps ntp w).0
  unfolding sync_time
  sync_time-IsAt d f rtc (some e) ntp w i = record {
    at_state = i.at_state;
    ready = i.ready;
    no_client = i.no_client;
    not_started = i.not_started;
    entries = i.entries;
  }
  sync_time-IsAt d f rtc none (some e) w i = record {
    at_state = i.at_state;
    ready = i.ready;
    no_client = i.no_client;
    not_started = i.not_started;
    entries = i.entries;
  }
  sync_time-IsAt d f rtc none none w i = i

  -- With a certificate the boot goes on to the broker, and without one to the activation.
  pub time_sync_goes :
      (rtc : Bool) (gps ntp : Option ℕ) (f : nvs.Flash) (w : World nvs) (p : Progress)
      → IsAt nvs healthy time_sync f w
      → IsAt nvs healthy
          (if is_provisioned nvs f then mqtt_init else provisioning)
          f
          (handle_time_sync nvs rtc gps ntp (w, p)).0
  unfolding handle_time_sync
  time_sync_goes rtc gps ntp f w p i =
      let w1 = (sync_time nvs rtc gps (if p.time_synced then none else ntp) w).0 in
      let j = sync_time-IsAt time_sync f rtc gps (if p.time_synced then none else ntp) w i in
      subst
        (λ b.
          IsAt nvs healthy (if b then mqtt_init else provisioning) f
            (transition nvs (if is_provisioned nvs w1.flash then mqtt_init else provisioning) w1))
        (is_provisioned-get nvs healthy w1.flash f (j.entries "client_cert"))
        (moved nvs healthy time_sync
          (if is_provisioned nvs w1.flash then mqtt_init else provisioning) f w1 j)

  pub mqtt_init_goes :
      (a : InitAnswers) (cert key : String) (f : nvs.Flash) (w : World nvs)
      → a.client_created ≡ true
      → nvs.get f "crypto_store" "client_cert" ≡ some (str cert)
      → nvs.get f "crypto_store" "private_key" ≡ some (str key)
      → is_empty cert ≡ false
      → is_empty key ≡ false
      → IsAt nvs healthy mqtt_init f w
      → let w' = handle_mqtt_connecting nvs a w in
        (w'.app.current ≡ mqtt_waiting_connect) × (w'.mqtt.client ≡ true)
  unfolding handle_mqtt_connecting load_from_nvs init_mqtt transition AppState.transition
  mqtt_init_goes a cert key f w made c k given given' i =
      simp
        (
          i.ready,
          healthy.opens_all,
          i.entries "client_cert" ∙ c,
          i.entries "private_key" ∙ k,
          given,
          given',
          i.no_client,
          made,
        )
        (refl, refl)
