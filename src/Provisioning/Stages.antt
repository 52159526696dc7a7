-- ===== src/Provisioning/Stages.antt =====
-- The turns of a boot of the provisioning firmware, one after another
-- (perceptive-layer/mqtt_protobuff/FIRM_PROVISIONING_MQTT_PROTOBUFF/main/main.cpp).
use governance_iot_platform.Prelude.{
  String, true, false, not, ◌&&◌, Option, ◌≡◌, refl, sym, ap, subst, ◌∙◌,
}
use governance_iot_platform.Nvs.{Nvs, IsHealthy}
use governance_iot_platform.AppState.Codes.{DeviceState, nvs_init, wifi_connecting}
use governance_iot_platform.AppState
use governance_iot_platform.Device.{World, transition, read_str}
use governance_iot_platform.Ota.{is_empty}
use governance_iot_platform.Crypto.{is_provisioned}
use governance_iot_platform.Core.Boot.{FlashAnswer, flash_ok, init_flash}
use governance_iot_platform.Core.Loop.Identity.{IsFresh}
use governance_iot_platform.Provisioning.{
  next_state, has_text, read_identity, decide, handle_nvs_init,
}
use governance_iot_platform.Provisioning.Boot.{boot_partition-get, read_str-get, is_provisioned-get}

module _ (nvs : Nvs) (healthy : IsHealthy nvs) where
  -- A boot on its way, with the credentials that `f` holds.
  pub record IsAt (d : DeviceState) (f : nvs.Flash) (w : World nvs) : Type 0 where
    pub at_state : w.app.current ≡ d
    pub ready : w.app.ready ≡ true
    pub no_client : w.mqtt.client ≡ false
    pub not_started : w.core.mqtt_started ≡ false
    pub entries : (k : String) → nvs.get w.flash "crypto_store" k ≡ nvs.get f "crypto_store" k

  -- What lets a boot connect: the identity, a network, and a token or a certificate.
  pub record Connects (f : nvs.Flash) : Type 0 where
    pub identity : is_empty (read_str nvs "crypto_store" "device_id" 64 f) ≡ false
    pub network : is_empty (read_str nvs "crypto_store" "wifi_ssid" 64 f) ≡ false
    pub allowed : (not (has_text nvs "prov_token" f) && not (is_provisioned nvs f)) ≡ false

  pub Connects-get :
      (f f' : nvs.Flash)
      → ((k : String) → nvs.get f' "crypto_store" k ≡ nvs.get f "crypto_store" k)
      → Connects f
      → Connects f'
  Connects-get f f' same c = record {
    identity =
        ap is_empty (read_str-get nvs healthy f' f "device_id" (same "device_id")) ∙ c.identity;
    network =
        ap is_empty (read_str-get nvs healthy f' f "wifi_ssid" (same "wifi_ssid")) ∙ c.network;
    allowed =
        ap (λ t. not (not (is_empty t)) && not (is_provisioned nvs f'))
          (read_str-get nvs healthy f' f "prov_token" (same "prov_token"))
        ∙ ap (λ b. not (has_text nvs "prov_token" f) && not b)
            (is_provisioned-get nvs healthy f' f (same "client_cert"))
        ∙ c.allowed;
  }

  pub moved :
      (d d' : DeviceState) (f : nvs.Flash) (w : World nvs)
      → IsAt d f w
      → IsAt d' f (transition nvs d' w)
  unfolding transition AppState.transition
  moved d d' f w i = record {
    at_state = simp i.ready;
    ready = simp i.ready;
    no_client = i.no_client;
    not_started = i.not_started;
    entries = i.entries;
  }

  decide_goes :
      (w : World nvs)
      → is_empty w.core.device_id ≡ false
      → Connects w.flash
      → decide nvs w ≡ transition nvs wifi_connecting w
  unfolding decide next_state
  decide_goes w i c = simp (i, c.network, c.allowed) refl

  read_identity-IsAt :
      (d : DeviceState) (label : Option String) (f : nvs.Flash) (w : World nvs)
      → IsAt d f w
      → IsAt d f (read_identity nvs label w)
  unfolding read_identity
  read_identity-IsAt d label f w i = record {
    at_state = i.at_state;
    ready = i.ready;
    no_client = i.no_client;
    not_started = i.not_started;
    entries = λ k. boot_partition-get nvs healthy label w.flash k ∙ i.entries k;
  }

  read_identity-id :
      (label : Option String) (w : World nvs)
      → (read_identity nvs label w).core.device_id
        ≡ read_str nvs "crypto_store" "device_id" 64 (read_identity nvs label w).flash
  unfolding read_identity
  read_identity-id label w = refl

  pub nvs_init_goes :
      (erase : nvs.Flash → nvs.Flash) (second : FlashAnswer) (label : Option String) (f : nvs.Flash)
      (w : World nvs)
      → Connects f
      → IsAt nvs_init f w
      → IsAt wifi_connecting f (handle_nvs_init nvs erase flash_ok second label w)
  unfolding handle_nvs_init init_flash
  nvs_init_goes erase second label f w c i =
      let w1 = read_identity nvs label w in
      let j = read_identity-IsAt nvs_init label f w i in
      let c1 = Connects-get f w1.flash j.entries c in
      subst (IsAt wifi_connecting f)
        (sym (decide_goes w1 (ap is_empty (read_identity-id label w) ∙ c1.identity) c1))
        (moved nvs_init wifi_connecting f w1 j)

  pub nvs_init-IsFresh :
      (erase : nvs.Flash → nvs.Flash) (second : FlashAnswer) (label : Option String) (f : nvs.Flash)
      (w : World nvs)
      → Connects f
      → IsAt nvs_init f w
      → IsFresh nvs healthy w
      → IsFresh nvs healthy (handle_nvs_init nvs erase flash_ok second label w)
  unfolding handle_nvs_init init_flash read_identity transition
  nvs_init-IsFresh erase second label f w c i fresh =
      let w1 = read_identity nvs label w in
      let j = read_identity-IsAt nvs_init label f w i in
      let c1 = Connects-get f w1.flash j.entries c in
      subst (IsFresh nvs healthy)
        (sym (decide_goes w1 (ap is_empty (read_identity-id label w) ∙ c1.identity) c1))
        (record { not_inited = fresh.not_inited; not_initialized = fresh.not_initialized })
