-- ===== src/Provisioning/Onboarding.antt =====
-- A device on its way into the platform
-- (perceptive-layer/mqtt_protobuff/FIRM_PROVISIONING_MQTT_PROTOBUFF/main/main.cpp and
-- main/src/CaptivePortal.cpp): the form of the portal, the boot that activates, and the boot behind it.
use governance_iot_platform.Prelude.{
  true, ℕ, String, Bool, false, not, ◌&&◌, none, some, List, ◌≡◌, sym, ap, subst, ◌∙◌, and_false,
}
use governance_iot_platform.Nvs.{Nvs, IsHealthy}
use governance_iot_platform.AppState.Codes.{nvs_init}
use governance_iot_platform.Device.{read_str}
use governance_iot_platform.Device.State.{
  Outcome, done, halted, restart, deep_sleep_start, rollback_and_reboot,
}
use governance_iot_platform.Ota.{is_empty}
use governance_iot_platform.Crypto.{is_provisioned}
use governance_iot_platform.Core.Loop.Identity.{IsFresh}
use governance_iot_platform.Core.Loop.Progress.{Reaches}
use governance_iot_platform.Portal.{Server, configure_post_handler}
use governance_iot_platform.Portal.Decoding.{ReadsHex}
use governance_iot_platform.Portal.Saving.{Finds, saved_entry, form_saves}
use governance_iot_platform.Provisioning.{Activation, has_text}
use governance_iot_platform.Provisioning.Steps.{Succeeds}
use governance_iot_platform.Provisioning.Boot.{has_certificate, read_str-get, is_provisioned-get}
use governance_iot_platform.Provisioning.Setup.{Typed, Sends, IsRead, read_filled}
use governance_iot_platform.Provisioning.Stages.{IsAt, Connects}
use governance_iot_platform.Provisioning.Loop.{Turn, State, turns}
use governance_iot_platform.Provisioning.Arrival.{
  Ended, Restarts, Connected, IsWaiting, IsActivated, entry_activated, certified_boot, token_boot,
}

module _ (nvs : Nvs) (erase : nvs.Flash → nvs.Flash) where
  -- what the chip does behind a restart
  abbrev pub after_restart : (State nvs erase → Ended nvs erase) → Ended nvs erase → Ended nvs erase
  after_restart next (some (halted restart s)) = next s
  after_restart next o = o

  abbrev pub after_form : (nvs.Flash → Ended nvs erase) → Outcome nvs.Flash Bool → Ended nvs erase
  after_form next (halted restart f) = next f
  after_form next _ = none

  -- The state in which a boot begins on the flash that it finds: the variables are those of a start.
  pub record PowersOn (healthy : IsHealthy nvs) (start : nvs.Flash → State nvs erase) : Type 0 where
    pub begins : (f : nvs.Flash) → IsAt nvs healthy nvs_init f (start f).0
    pub fresh : (f : nvs.Flash) → IsFresh nvs healthy (start f).0

  module _ (healthy : IsHealthy nvs) where
    restart_then :
        (P Q : State nvs erase → Type 0) (next : State nvs erase → Ended nvs erase)
        (o : Ended nvs erase)
        → ((s : State nvs erase) → P s → Reaches Q (next s))
        → Restarts nvs erase P o
        → Reaches Q (after_restart next o)
    restart_then P Q next (some (halted restart s)) k h = k s h
    restart_then P Q next (some (done x s)) k h = absurd h
    restart_then P Q next (some (halted deep_sleep_start s)) k h = absurd h
    restart_then P Q next (some (halted rollback_and_reboot s)) k h = absurd h
    restart_then P Q next none k h = absurd h

    -- the credentials of an activated device let it connect
    IsActivated-Connects :
        (t : Turn) (cert : String) (f g : nvs.Flash)
        → ((key : String)
            → nvs.get g "crypto_store" key ≡ entry_activated nvs erase healthy t cert f key)
        → Connects nvs healthy f
        → Connects nvs healthy g
    IsActivated-Connects t cert f g entry c = record {
      identity =
          ap is_empty (read_str-get nvs healthy g f "device_id" (entry "device_id")) ∙ c.identity;
      network =
          ap is_empty (read_str-get nvs healthy g f "wifi_ssid" (entry "wifi_ssid")) ∙ c.network;
      allowed =
          ap (λ b. not (has_text nvs "prov_token" g) && not b)
            (has_certificate nvs healthy g cert (entry "client_cert"))
          ∙ and_false (not (has_text nvs "prov_token" g));
    }

    pub two_boots :
        (start : nvs.Flash → State nvs erase) (t t' : Turn) (act : Activation) (cert csr : String)
        (status : ℕ) (f : nvs.Flash)
        → PowersOn healthy start
        → Connected nvs erase healthy t
        → Connected nvs erase healthy t'
        → t'.mqtt.client_created ≡ true
        → Connects nvs healthy f
        → is_provisioned nvs f ≡ false
        → Succeeds t.service act cert csr status
        → is_empty cert ≡ false
        → is_empty t.service.keys.private_pem ≡ false
        → Reaches (IsWaiting nvs erase healthy) (
            after_restart
              (λ s. turns nvs erase 4 t' (start s.0.flash))
              (turns nvs erase 4 t (start f)))
    two_boots start t t' act cert csr status f on net net' made c no_cert good given given' =
        restart_then (IsActivated nvs erase healthy t cert f) (IsWaiting nvs erase healthy)
          (λ s. turns nvs erase 4 t' (start s.0.flash)) (turns nvs erase 4 t (start f))
          (λ s entry.
            certified_boot nvs erase healthy t' cert t.service.keys.private_pem s.0.flash
              (start s.0.flash).0 (start s.0.flash).1 made net'
              (IsActivated-Connects t cert f s.0.flash entry c) (entry "client_cert")
              (entry "private_key") given given' (on.fresh s.0.flash) (on.begins s.0.flash))
          (token_boot nvs erase healthy t act cert csr status f (start f).0 (start f).1 net c
            no_cert good (on.fresh f) (on.begins f))

    -- what the form leaves lets the device connect
    saved-Connects :
        (s : Server) (t : Typed) (f g : nvs.Flash)
        → ((ns key : String)
            → nvs.get g ns key ≡ saved_entry nvs s f t.ssid t.password t.token ns key)
        → IsRead nvs healthy s t.ssid
        → IsRead nvs healthy s t.token
        → is_empty (read_str nvs "crypto_store" "device_id" 64 f) ≡ false
        → Connects nvs healthy g
    unfolding saved_entry
    saved-Connects s t f g entry network token i = record {
      identity =
          ap is_empty (read_str-get nvs healthy g f "device_id" (entry "crypto_store" "device_id"))
          ∙ i;
      network =
          read_filled nvs healthy s g "wifi_ssid" t.ssid (entry "crypto_store" "wifi_ssid") network;
      allowed =
          ap (λ b. not (not b) && not (is_provisioned nvs g))
            (read_filled nvs healthy s g "prov_token" t.token (entry "crypto_store" "prov_token")
              token);
    }

    saved-is_provisioned :
        (s : Server) (t : Typed) (f g : nvs.Flash)
        → ((ns key : String)
            → nvs.get g ns key ≡ saved_entry nvs s f t.ssid t.password t.token ns key)
        → is_provisioned nvs g ≡ is_provisioned nvs f
    unfolding saved_entry
    saved-is_provisioned s t f g entry =
        is_provisioned-get nvs healthy g f (entry "crypto_store" "client_cert")

    -- A device with its identity and without a certificate, whose user sends the form of the portal
    -- with a network, a password and a token of at most 63 encoded bytes each: if it reaches that
    -- network in both boots behind the form, and every step of the activation succeeds, it activates in
    -- the first boot and has, after four turns of the main loop in the second one, a client of the
    -- broker and waits for its connection. The flash can be opened and is initialised at once, each
    -- boot begins with the variables of a start on the flash that it finds, the certificate and the key
    -- are not empty, and ESP-IDF gives an MQTT client in the second boot.
    pub form_reaches_broker :
        (start : nvs.Flash → State nvs erase) (s : Server) (body : List ℕ) (form : String → List ℕ)
        (typed : Typed) (t t' : Turn) (act : Activation) (cert csr : String) (status : ℕ)
        (f : nvs.Flash)
        → PowersOn healthy start
        → ReadsHex s.strtol
        → Finds s body form
        → Sends form typed
        → IsRead nvs healthy s typed.ssid
        → IsRead nvs healthy s typed.token
        → Connected nvs erase healthy t
        → Connected nvs erase healthy t'
        → t'.mqtt.client_created ≡ true
        → is_empty (read_str nvs "crypto_store" "device_id" 64 f) ≡ false
        → is_provisioned nvs f ≡ false
        → Succeeds t.service act cert csr status
        → is_empty cert ≡ false
        → is_empty t.service.keys.private_pem ≡ false
        → Reaches (IsWaiting nvs erase healthy) (
            after_form
              (λ f'.
                after_restart
                  (λ r. turns nvs erase 4 t' (start r.0.flash))
                  (turns nvs erase 4 t (start f')))
              (configure_post_handler nvs s (some body) f))
    form_reaches_broker start s body form typed t t' act cert csr status f on hex found h network
          token net net' made i no_cert good given given' =
        let (new, halts, entry) =
          form_saves nvs s healthy hex body form typed.ssid typed.password typed.token f found
            h.ssid_encoded h.password_encoded h.token_encoded h.ssid_short h.password_short
            h.token_short h.ssid_text h.password_text h.token_text in
        subst
          (λ o. Reaches (IsWaiting nvs erase healthy) (
            after_form
              (λ f'.
                after_restart (λ r. turns nvs erase 4 t' (start r.0.flash))
                  (turns nvs erase 4 t (start f')))
              o))
          (sym halts)
          (two_boots start t t' act cert csr status new on net net' made
            (saved-Connects s typed f new entry network token i)
            (saved-is_provisioned s typed f new entry ∙ no_cert) good given given')
