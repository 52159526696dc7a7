-- ===== src/Core/Loop/Identity.antt =====
-- The first turn of the loop: a provisioned device finds its identity in flash
-- (`handle_nvs_init` of perceptive-layer/mqtt_protobuff/governance_core/src/governance_core.cpp).
use governance_iot_platform.Prelude.{
  ℕ, String, true, false, Option, none, some, ◌≡◌, refl, sym, ap, subst, ◌∙◌, inl, inr, Bool-cases,
}
use governance_iot_platform.Nvs.{Nvs, IsHealthy, str}
use governance_iot_platform.AppState.Codes.{DeviceState, nvs_init, wifi_connecting, wifi_timeout}
use governance_iot_platform.AppState
use governance_iot_platform.AppState.{AppState, is_error_active}
use governance_iot_platform.AppState.Activity.{settle_active, settle_inactive}
use governance_iot_platform.Device.{
  World, save_mask, mask_value, restored, resolve_error, transition, load_persisted_errors,
  read_str,
}
use governance_iot_platform.Ota.{is_empty}
use governance_iot_platform.Ota.Lifecycle.{Fits}
use governance_iot_platform.Crypto.{is_provisioned}
use governance_iot_platform.Core.Boot.{
  flash_ok, init_flash, missing, boot_partition_changed, read_identity, check_identity,
  handle_nvs_init,
}
use governance_iot_platform.Core.Loop.{Turn}

module _ (nvs : Nvs) (healthy : IsHealthy nvs) where
  -- What the provisioning leaves in flash.
  pub record HasIdentity (f : nvs.Flash) : Type 0 where
    pub device_id : String
    pub ssid : String
    pub version : String
    pub id_fits : Fits 64 device_id
    pub ssid_fits : Fits 64 ssid
    pub version_fits : Fits 32 version
    pub id_stored : nvs.get f "crypto_store" "device_id" ≡ some (str device_id)
    pub ssid_stored : nvs.get f "crypto_store" "wifi_ssid" ≡ some (str ssid)
    pub version_stored : nvs.get f "main_store" "fw_version" ≡ some (str version)

  pub record HasKeys (cert key : String) (f : nvs.Flash) : Type 0 where
    pub cert_stored : nvs.get f "crypto_store" "client_cert" ≡ some (str cert)
    pub key_stored : nvs.get f "crypto_store" "private_key" ≡ some (str key)
    pub cert_given : is_empty cert ≡ false
    pub key_given : is_empty key ≡ false

  -- The station has not been set up in this boot.
  pub record IsFresh (w : World nvs) : Type 0 where
    pub not_inited : w.core.is_wifi_inited ≡ false
    pub not_initialized : w.wifi.is_initialized ≡ false

  -- A device on its way to the broker.
  pub record IsAt (d : DeviceState) (cert key : String) (w : World nvs) : Type 0 where
    pub at_state : w.app.current ≡ d
    pub ready : w.app.ready ≡ true
    pub no_client : w.mqtt.client ≡ false
    pub not_started : w.core.mqtt_started ≡ false
    pub keys : HasKeys cert key w.flash

  boot_flash-crypto :
      (label : Option String) (f : nvs.Flash) (k : String)
      → nvs.get (boot_partition_changed nvs label f).0 "crypto_store" k ≡ nvs.get f "crypto_store" k
  unfolding boot_partition_changed
  boot_flash-crypto none f k = refl
  boot_flash-crypto (some l) f k = simp (healthy.opens_all, nvs.get_commit, nvs.get_set)

  boot_flash-version :
      (label : Option String) (f : nvs.Flash)
      → nvs.get (boot_partition_changed nvs label f).0 "main_store" "fw_version"
        ≡ nvs.get f "main_store" "fw_version"
  unfolding boot_partition_changed
  boot_flash-version none f = refl
  boot_flash-version (some l) f = simp (healthy.opens_all, nvs.get_commit, nvs.get_set)

  restored_world : World nvs → World nvs
  restored_world w = record w {
    app = restored nvs (mask_value nvs (nvs.get w.flash "error_store" "active_mask")) w.app;
  }

  load_lem : (w : World nvs) → load_persisted_errors nvs w ≡ restored_world w
  unfolding load_persisted_errors restored_world
  load_lem w = simp (healthy.opens_all)

  restored-state :
      (m : Option ℕ) (s : AppState)
      → ((restored nvs m s).ready ≡ s.ready) × ((restored nvs m s).current ≡ s.current)
  unfolding AppState.restore_mask restored
  restored-state none s = (refl, refl)
  restored-state (some m) s = (refl, refl)

  save_mask-crypto :
      (m : ℕ) (f : nvs.Flash) (k : String)
      → nvs.get (save_mask nvs m f) "crypto_store" k ≡ nvs.get f "crypto_store" k
  unfolding save_mask
  save_mask-crypto m f k = simp (healthy.opens_all, nvs.get_commit, nvs.get_set)

  pub resolve_error-crypto :
      (w : World nvs) (k : String)
      → nvs.get (resolve_error nvs wifi_timeout w).flash "crypto_store" k
        ≡ nvs.get w.flash "crypto_store" k
  unfolding resolve_error
  resolve_error-crypto w k = elim (Bool-cases (is_error_active wifi_timeout w.app)) [
    | inl e ↦ rw (settle_active wifi_timeout w.app e) (save_mask-crypto _ w.flash k)
    | inr e ↦ rw (settle_inactive wifi_timeout w.app e) refl
  ]

  module _ (label : Option String) (w : World nvs) (h : HasIdentity w.flash) where
    abbrev identified : World nvs
    identified = record (restored_world w) {
      flash = (boot_partition_changed nvs label w.flash).0;
      core = record w.core {
        boot_part_changed = (boot_partition_changed nvs label w.flash).1;
        firmware_version = h.version;
        device_id = h.device_id;
      };
    }

    read_identity_lem : read_identity nvs label w ≡ identified
    unfolding read_identity read_str restored_world
    read_identity_lem = simp (
      load_lem w,
      healthy.opens_all,
      boot_flash-crypto,
      boot_flash-version,
      h.id_stored,
      h.version_stored,
      h.id_fits.short,
      h.version_fits.short,
    )

    nothing_missing :
        (cert : String)
        → nvs.get w.flash "crypto_store" "client_cert" ≡ some (str cert)
        → missing
            (read_str nvs "crypto_store" "wifi_ssid" 64 identified.flash)
            (is_provisioned nvs identified.flash)
            identified.core
          ≡ none
    unfolding missing is_provisioned read_str
    nothing_missing cert c = simp (
      healthy.opens_all, boot_flash-crypto, h.ssid_stored, c, h.ssid_fits.short, h.id_fits.given,
      h.ssid_fits.given, h.version_fits.given,
    )

    check_identity_lem :
        (cert : String)
        → nvs.get w.flash "crypto_store" "client_cert" ≡ some (str cert)
        → check_identity nvs identified ≡ transition nvs wifi_connecting identified
    unfolding check_identity
    check_identity_lem cert c = rw (nothing_missing cert c, check_identity) refl

    identified-IsAt :
        (cert key : String) → IsAt nvs_init cert key w → IsAt nvs_init cert key identified
    unfolding restored_world
    identified-IsAt cert key i =
        let s =
          restored-state (mask_value nvs (nvs.get w.flash "error_store" "active_mask")) w.app in
        record {
          at_state = s.1 ∙ i.at_state;
          ready = s.0 ∙ i.ready;
          no_client = i.no_client;
          not_started = i.not_started;
          keys = record {
            cert_stored = boot_flash-crypto label w.flash "client_cert" ∙ i.keys.cert_stored;
            key_stored = boot_flash-crypto label w.flash "private_key" ∙ i.keys.key_stored;
            cert_given = i.keys.cert_given;
            key_given = i.keys.key_given;
          };
        }

  pub moved :
      (d d' : DeviceState) (cert key : String) (w : World nvs)
      → IsAt d cert key w
      → IsAt d' cert key (transition nvs d' w)
  unfolding transition AppState.transition
  moved d d' cert key w i = record {
    at_state = simp i.ready;
    ready = simp i.ready;
    no_client = i.no_client;
    not_started = i.not_started;
    keys = i.keys;
  }

  pub nvs_init_goes :
      (erase : nvs.Flash → nvs.Flash) (t : Turn) (cert key : String) (w : World nvs)
      → t.first_init ≡ flash_ok
      → HasIdentity w.flash
      → IsAt nvs_init cert key w
      → IsAt wifi_connecting cert key
          (handle_nvs_init nvs erase t.first_init t.second_init t.label w)
  unfolding handle_nvs_init init_flash
  nvs_init_goes erase t cert key w ok h i =
      subst (IsAt wifi_connecting cert key)
        (sym (
          ap (λ a. handle_nvs_init nvs erase a t.second_init t.label w) ok
          ∙ ap (check_identity nvs) (read_identity_lem t.label w h)
          ∙ check_identity_lem t.label w h cert i.keys.cert_stored))
        (moved nvs_init wifi_connecting cert key _ (identified-IsAt t.label w h cert key i))

  pub nvs_init-IsFresh :
      (erase : nvs.Flash → nvs.Flash) (t : Turn) (cert : String) (w : World nvs)
      → t.first_init ≡ flash_ok
      → HasIdentity w.flash
      → nvs.get w.flash "crypto_store" "client_cert" ≡ some (str cert)
      → IsFresh w
      → IsFresh (handle_nvs_init nvs erase t.first_init t.second_init t.label w)
  unfolding handle_nvs_init init_flash transition restored_world
  nvs_init-IsFresh erase t cert w ok h c fresh =
      subst IsFresh
        (sym (
          ap (λ a. handle_nvs_init nvs erase a t.second_init t.label w) ok
          ∙ ap (check_identity nvs) (read_identity_lem t.label w h)
          ∙ check_identity_lem t.label w h cert c))
        (record { not_inited = fresh.not_inited; not_initialized = fresh.not_initialized })
