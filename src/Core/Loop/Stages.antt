-- ===== src/Core/Loop/Stages.antt =====
-- The turns of the loop that bring up the network and the client of the broker.
use governance_iot_platform.Prelude.{
  String, true, if◌then◌else◌, Option, none, some, ◌≡◌, refl, sym, ap, subst, ◌∙◌, arith,
}
use governance_iot_platform.Nvs.{Nvs, IsHealthy}
use governance_iot_platform.AppState.Codes.{
  DeviceState, wifi_connecting, time_sync, mqtt_init, mqtt_waiting_connect, error, wifi_timeout,
}
use governance_iot_platform.AppState
use governance_iot_platform.AppState.{AppState, is_error_active}
use governance_iot_platform.Device.{World, resolve_error, transition}
use governance_iot_platform.Device.Laws.{resolve_error-app, settle-ready, settle-current}
use governance_iot_platform.Device.State.{Wifi}
use governance_iot_platform.Wifi
use governance_iot_platform.Wifi.{wait_loop, wait_for_connection}
use governance_iot_platform.Mqtt.{InitAnswers, init_mqtt}
use governance_iot_platform.Crypto.{load_from_nvs}
use governance_iot_platform.Core.Boot.Connect.{
  Network, start_wifi, after_wait, conclude, handle_wifi_connecting, handle_mqtt_connecting,
}
use governance_iot_platform.Core.Loop.Identity.{IsAt, IsFresh, moved, resolve_error-crypto}

module _ (nvs : Nvs) (healthy : IsHealthy nvs) where
  pub resolve_error-rest :
      (w : World nvs)
      → ((resolve_error nvs wifi_timeout w).mqtt.client ≡ w.mqtt.client)
        × ((resolve_error nvs wifi_timeout w).core.mqtt_started ≡ w.core.mqtt_started)
  unfolding resolve_error
  resolve_error-rest w = ground arith

  resolve-IsAt :
      (d : DeviceState) (cert key : String) (w : World nvs)
      → IsAt nvs healthy d cert key w
      → IsAt nvs healthy d cert key (resolve_error nvs wifi_timeout w)
  resolve-IsAt d cert key w i = record {
    at_state =
        ap (λ s. s.current) (resolve_error-app nvs wifi_timeout w)
        ∙ settle-current wifi_timeout w.app
        ∙ i.at_state;
    ready =
        ap (λ s. s.ready) (resolve_error-app nvs wifi_timeout w)
        ∙ settle-ready wifi_timeout w.app
        ∙ i.ready;
    no_client = (resolve_error-rest w).0 ∙ i.no_client;
    not_started = (resolve_error-rest w).1 ∙ i.not_started;
    keys = record {
      cert_stored = resolve_error-crypto nvs healthy w "client_cert" ∙ i.keys.cert_stored;
      key_stored = resolve_error-crypto nvs healthy w "private_key" ∙ i.keys.key_stored;
      cert_given = i.keys.cert_given;
      key_given = i.keys.key_given;
    };
  }

  pub mqtt_init_goes :
      (a : InitAnswers) (cert key : String) (w : World nvs)
      → a.client_created ≡ true
      → IsAt nvs healthy mqtt_init cert key w
      → let w' = handle_mqtt_connecting nvs a w in
        (w'.app.current ≡ mqtt_waiting_connect) × (w'.mqtt.client ≡ true)
  unfolding handle_mqtt_connecting load_from_nvs init_mqtt transition AppState.transition
  mqtt_init_goes a cert key w made i =
      simp
        (
          i.ready, healthy.opens_all, i.keys.cert_stored, i.keys.key_stored, i.keys.cert_given,
          i.keys.key_given, i.no_client, made,
        )
        (refl, refl)

  -- The wait for the network has ended, with the property.
  abbrev pub Arrives : (World nvs → Type 0) → Option (World nvs) → Type 0
  Arrives P none = ⊥
  Arrives P (some w) = P w

  after_wait-IsAt :
      (mac cert key : String) (w : World nvs)
      → IsAt nvs healthy wifi_connecting cert key w
      → IsAt nvs healthy time_sync cert key (after_wait nvs mac true w)
  unfolding after_wait
  after_wait-IsAt mac cert key w i =
      subst
        (λ b. IsAt nvs healthy time_sync cert key (
          transition nvs (if b then error else time_sync) (
            resolve_error nvs wifi_timeout
              (record w { core = record w.core { mac_address = mac } }))))
        (sym i.not_started)
        (moved nvs healthy wifi_connecting time_sync cert key _
          (resolve-IsAt wifi_connecting cert key _ (named mac cert key w i)))
    where
      named :
          (mac cert key : String) (w : World nvs)
          → IsAt nvs healthy wifi_connecting cert key w
          → IsAt nvs healthy wifi_connecting cert key
              (record w { core = record w.core { mac_address = mac } })
      named mac cert key w i = record {
        at_state = i.at_state;
        ready = i.ready;
        no_client = i.no_client;
        not_started = i.not_started;
        keys = i.keys;
      }

  pub wait_begins :
      (net : Network) (w : World nvs)
      → IsFresh nvs healthy w
      → wait_for_connection net.started_at net.fuel net.rounds (start_wifi nvs net w).wifi
        ≡ wait_loop net.started_at net.fuel net.rounds
  unfolding wait_for_connection start_wifi Wifi.init
  wait_begins net w h = simp (h.not_inited, h.not_initialized)

  started-IsAt :
      (net : Network) (f : Wifi) (cert key : String) (w : World nvs)
      → IsAt nvs healthy wifi_connecting cert key w
      → IsAt nvs healthy wifi_connecting cert key (record (start_wifi nvs net w) { wifi = f })
  unfolding start_wifi
  started-IsAt net f cert key w i = record {
    at_state = i.at_state;
    ready = i.ready;
    no_client = i.no_client;
    not_started = i.not_started;
    keys = i.keys;
  }

  pub wifi_goes :
      (net : Network) (f : Wifi) (cert key : String) (w : World nvs)
      → wait_loop net.started_at net.fuel net.rounds ≡ some (true, f)
      → IsFresh nvs healthy w
      → IsAt nvs healthy wifi_connecting cert key w
      → Arrives (IsAt nvs healthy time_sync cert key) (handle_wifi_connecting nvs net w)
  unfolding handle_wifi_connecting conclude
  wifi_goes net f cert key w up fresh i =
      subst
        (λ o.
          Arrives (IsAt nvs healthy time_sync cert key)
            (conclude nvs net.mac (start_wifi nvs net w) o))
        (sym (wait_begins net w fresh ∙ up))
        (after_wait-IsAt net.mac cert key _ (started-IsAt net f cert key w i))
