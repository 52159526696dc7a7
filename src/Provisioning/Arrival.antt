-- ===== src/Provisioning/Arrival.antt =====
-- The boots of the provisioning firmware
-- (perceptive-layer/mqtt_protobuff/FIRM_PROVISIONING_MQTT_PROTOBUFF/main/main.cpp and
-- main/src/CaptivePortal.cpp): from the form of the portal over the activation to the broker.
use governance_iot_platform.Prelude.{
  ℕ, suc, String, true, false, if◌then◌else◌, Option, none, some, ◌≡◌, sym, ap, subst, ◌∙◌, str_eq,
}
use governance_iot_platform.Nvs.{Nvs, IsHealthy, Value, str}
use governance_iot_platform.AppState.Codes.{
  DeviceState, nvs_init, wifi_connecting, time_sync, provisioning, mqtt_init, mqtt_waiting_connect,
}
use governance_iot_platform.Device.{World}
use governance_iot_platform.Device.State.{Wifi, Outcome, done, halted, restart}
use governance_iot_platform.Ota.{is_empty}
use governance_iot_platform.Wifi.{wait_loop}
use governance_iot_platform.Crypto.{is_provisioned}
use governance_iot_platform.Core.Boot.{flash_ok}
use governance_iot_platform.Core.Loop.Identity.{IsFresh}
use governance_iot_platform.Core.Loop.Progress.{Reaches}
use governance_iot_platform.Core.Loop.Stages.{Arrives}
use governance_iot_platform.Provisioning.{Progress, Activation, handle_nvs_init}
use governance_iot_platform.Provisioning.Network.{handle_wifi_connecting}
use governance_iot_platform.Provisioning.Steps.{Succeeds, activated-get, handle_provisioning-halts}
use governance_iot_platform.Provisioning.Boot.{has_certificate}
use governance_iot_platform.Provisioning.Stages.{IsAt, Connects, nvs_init_goes, nvs_init-IsFresh}
use governance_iot_platform.Provisioning.Joining.{wifi_goes, time_sync_goes, mqtt_init_goes}
use governance_iot_platform.Provisioning.Loop.{
  Turn, State, with_progress, waited, dispatch, turn, next_turn, turns,
}

module _ (nvs : Nvs) (erase : nvs.Flash → nvs.Flash) where
  abbrev pub Ended : Type 0
  Ended = Option (Outcome (State nvs erase) (Unit {0}))

  -- The chip has restarted, in a state with the property.
  abbrev pub Restarts : (State nvs erase → Type 0) → Ended → Type 0
  Restarts P (some (halted restart s)) = P s
  Restarts P _ = ⊥

  module _ (healthy : IsHealthy nvs) where
    -- A network that the station reaches within its wait, in a turn whose NVS is initialised at once.
    pub record Connected (t : Turn) : Type 0 where
      pub flash_answers : t.first_init ≡ flash_ok
      pub station : Wifi
      pub joined :
          wait_loop t.network.started_at t.network.fuel t.network.rounds ≡ some (true, station)

    step :
        (Q : Ended → Type 0) (n : ℕ) (t : Turn) (d : DeviceState) (w : World nvs) (p : Progress)
        → w.app.current ≡ d
        → Q (next_turn nvs erase (turns nvs erase n t) (dispatch nvs erase d t (w, p)))
        → Q (turns nvs erase (suc n) t (w, p))
    unfolding turns turn
    step Q n t d w p e =
        subst (λ s. Q (next_turn nvs erase (turns nvs erase n t) (dispatch nvs erase s t (w, p))))
          (sym e)

    from_wait :
        (Q : Ended → Type 0) (n : ℕ) (t : Turn) (f : nvs.Flash) (p : Progress)
        → ((w : World nvs) → IsAt nvs healthy time_sync f w → Q (turns nvs erase n t (w, p)))
        → (o : Option (World nvs)) → Arrives nvs healthy (IsAt nvs healthy time_sync f) o
        → Q (next_turn nvs erase (turns nvs erase n t) (waited nvs erase p o))
    from_wait Q n t f p k none a = absurd a
    from_wait Q n t f p k (some w) i = k w i

    -- The first three turns of a boot that connects: what is reached from the state behind TIME_SYNC is
    -- reached from the start.
    boot_turns :
        (Q : Ended → Type 0) (n : ℕ) (t : Turn) (f : nvs.Flash) (w : World nvs) (p : Progress)
        → Connected t
        → Connects nvs healthy f
        → IsFresh nvs healthy w
        → IsAt nvs healthy nvs_init f w
        → ((w' : World nvs) (p' : Progress)
            → IsAt nvs healthy (if is_provisioned nvs f then mqtt_init else provisioning) f w'
            → Q (turns nvs erase n t (w', p')))
        → Q (turns nvs erase (suc (suc (suc n))) t (w, p))
    unfolding dispatch
    boot_turns Q n t f w p net c fresh i k = step Q (suc (suc n)) t nvs_init w p i.at_state (
        subst
          (λ a. Q (
            next_turn nvs erase (turns nvs erase (suc (suc n)) t)
              (some (done tt (handle_nvs_init nvs erase a t.second_init t.label w, p)))))
          (sym net.flash_answers)
          (let w1 = handle_nvs_init nvs erase flash_ok t.second_init t.label w in
            let j = nvs_init_goes nvs healthy erase t.second_init t.label f w c i in
            step Q (suc n) t wifi_connecting w1 p j.at_state (
              from_wait Q (suc n) t f p
                (λ w2 i2.
                  step Q n t time_sync w2 p i2.at_state
                    (k _ _ (time_sync_goes nvs healthy t.rtc t.gps t.ntp f w2 p i2)))
                (handle_wifi_connecting nvs t.network w1)
                (wifi_goes nvs healthy t.network net.station f w1 net.joined
                  (nvs_init-IsFresh nvs healthy erase t.second_init t.label f w c i fresh) j))))

    abbrev pub IsWaiting : State nvs erase → Type 0
    IsWaiting (w, p) = (w.app.current ≡ mqtt_waiting_connect) × (w.mqtt.client ≡ true)

    -- A boot with a certificate and its key reaches the broker.
    pub certified_boot :
        (t : Turn) (cert key : String) (f : nvs.Flash) (w : World nvs) (p : Progress)
        → t.mqtt.client_created ≡ true
        → Connected t
        → Connects nvs healthy f
        → nvs.get f "crypto_store" "client_cert" ≡ some (str cert)
        → nvs.get f "crypto_store" "private_key" ≡ some (str key)
        → is_empty cert ≡ false
        → is_empty key ≡ false
        → IsFresh nvs healthy w
        → IsAt nvs healthy nvs_init f w
        → Reaches IsWaiting (turns nvs erase 4 t (w, p))
    unfolding dispatch turns
    certified_boot t cert key f w p made net c has_cert has_key given given' fresh i =
        boot_turns (Reaches IsWaiting) 1 t f w p net c fresh i λ w1 p1 j.
          let at =
            subst (λ b. IsAt nvs healthy (if b then mqtt_init else provisioning) f w1)
              (has_certificate nvs healthy f cert has_cert) j in
          step (Reaches IsWaiting) 0 t mqtt_init w1 p1 at.at_state
            (mqtt_init_goes nvs healthy t.mqtt cert key f w1 made has_cert has_key given given' at)

    -- an entry of the credentials behind an activation of a device that had those of `f`
    abbrev pub entry_activated : Turn → String → nvs.Flash → String → Option Value
    entry_activated t cert f key =
        if str_eq "prov_token" key
        then none
        else if str_eq "client_cert" key
        then some (str cert)
        else if str_eq "private_key" key
        then some (str t.service.keys.private_pem)
        else nvs.get f "crypto_store" key

    abbrev pub IsActivated : Turn → String → nvs.Flash → State nvs erase → Type 0
    IsActivated t cert f (w, p) =
        (key : String) → nvs.get w.flash "crypto_store" key ≡ entry_activated t cert f key

    -- A boot without a certificate activates the device and restarts.
    pub token_boot :
        (t : Turn) (act : Activation) (cert csr : String) (status : ℕ) (f : nvs.Flash)
        (w : World nvs) (p : Progress)
        → Connected t
        → Connects nvs healthy f
        → is_provisioned nvs f ≡ false
        → Succeeds t.service act cert csr status
        → IsFresh nvs healthy w
        → IsAt nvs healthy nvs_init f w
        → Restarts (IsActivated t cert f) (turns nvs erase 4 t (w, p))
    unfolding dispatch turns
    token_boot t act cert csr status f w p net c no_cert good fresh i =
        boot_turns (Restarts (IsActivated t cert f)) 1 t f w p net c fresh i λ w1 p1 j.
          let at =
            subst (λ b. IsAt nvs healthy (if b then mqtt_init else provisioning) f w1) no_cert j in
          step (Restarts (IsActivated t cert f)) 0 t provisioning w1 p1 at.at_state (
            subst
              (λ o.
                Restarts (IsActivated t cert f)
                  (next_turn nvs erase (turns nvs erase 0 t) (some (with_progress nvs erase p1 o))))
              (sym (handle_provisioning-halts nvs healthy t.service act cert csr status w1 p1 good))
              (λ key.
                activated-get nvs healthy t.service p1.time_synced act cert w1 key
                ∙ ap (entry_of key) (at.entries key)))
      where
        entry_of : String → Option Value → Option Value
        entry_of key old =
            if str_eq "prov_token" key
            then none
            else if str_eq "client_cert" key
            then some (str cert)
            else if str_eq "private_key" key
            then some (str t.service.keys.private_pem)
            else old
