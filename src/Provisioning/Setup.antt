-- ===== src/Provisioning/Setup.antt =====
-- From the form of the captive portal to the boot behind it
-- (perceptive-layer/mqtt_protobuff/FIRM_PROVISIONING_MQTT_PROTOBUFF/main/main.cpp and
-- main/src/CaptivePortal.cpp).
use governance_iot_platform.Prelude.{
  ℕ, ltb, len, ◌≤◌, String, true, false, Option, some, List, length, ◌≡◌, ap, ◌∙◌,
}
use governance_iot_platform.Nvs.{Nvs, IsHealthy, str}
use governance_iot_platform.AppState.Codes.{wifi_connecting}
use governance_iot_platform.Device.{World, read_str}
use governance_iot_platform.Device.Persist.{reboot}
use governance_iot_platform.Device.State.{halted, restart}
use governance_iot_platform.Ota.{is_empty}
use governance_iot_platform.Core.Boot.{FlashAnswer, flash_ok}
use governance_iot_platform.Portal.{Server, configure_post_handler}
use governance_iot_platform.Portal.Decoding.{Encodes, ReadsHex}
use governance_iot_platform.Portal.Saving.{IsText, Finds, saved_entry, form_saves}
use governance_iot_platform.Provisioning.{handle_nvs_init}
use governance_iot_platform.Provisioning.Boot.{read_str-get, read_str-fits, boot_with_token}

-- what the user types for the network, the password and the token
pub record Typed : Type 0 where
  pub ssid : List ℕ
  pub password : List ℕ
  pub token : List ℕ

-- The form holds what is typed, encoded in at most 63 bytes a value.
pub record Sends (form : String → List ℕ) (t : Typed) : Type 0 where
  pub ssid_encoded : Encodes (form "ssid") t.ssid
  pub password_encoded : Encodes (form "password") t.password
  pub token_encoded : Encodes (form "token") t.token
  pub ssid_short : length (form "ssid") ≤ 63
  pub password_short : length (form "password") ≤ 63
  pub token_short : length (form "token") ≤ 63
  pub ssid_text : IsText t.ssid
  pub password_text : IsText t.password
  pub token_text : IsText t.token

module _ (nvs : Nvs) (healthy : IsHealthy nvs) (s : Server) where
  -- A value that the boot reads back from flash and finds not to be empty.
  pub record IsRead (bytes : List ℕ) : Type 0 where
    pub fits : ltb (len (s.as_text bytes)) 64 ≡ true
    pub filled : is_empty (s.as_text bytes) ≡ false

  pub read_filled :
      (f : nvs.Flash) (key : String) (bytes : List ℕ)
      → nvs.get f "crypto_store" key ≡ some (str (s.as_text bytes))
      → IsRead bytes
      → is_empty (read_str nvs "crypto_store" key 64 f) ≡ false
  read_filled f key bytes e r =
      ap is_empty (read_str-fits nvs healthy f key (s.as_text bytes) e r.fits) ∙ r.filled

  -- A form whose three values are encoded in at most 63 bytes each, whatever the browser chose to
  -- escape: the device restarts, with exactly the typed network, password and token in its flash and
  -- every other entry as it was. If the device had its identity, and the network and the token are
  -- not empty, and its next boot initialises the flash at once, then that boot leaves NVS_INIT for
  -- WIFI_CONNECTING. The flash can be opened, and the texts have no byte 0.
  pub portal_connects :
      ReadsHex s.strtol
      → (body : List ℕ) (form : String → List ℕ) (t : Typed) (w : World nvs)
        (erase : nvs.Flash → nvs.Flash) (second : FlashAnswer) (label : Option String)
      → Finds s body form
      → Sends form t
      → IsRead t.ssid
      → IsRead t.token
      → is_empty (read_str nvs "crypto_store" "device_id" 64 w.flash) ≡ false
      → (new : nvs.Flash) × (configure_post_handler nvs s (some body) w.flash ≡ halted restart new)
        × ((ns key : String)
            → nvs.get new ns key ≡ saved_entry nvs s w.flash t.ssid t.password t.token ns key)
        × ((handle_nvs_init nvs erase flash_ok second label
              (reboot nvs (record w { flash = new }))).app.current
            ≡ wifi_connecting)
  unfolding saved_entry
  portal_connects hex body form t w erase second label found h network token i =
      let (new, halts, entry) =
        form_saves nvs s healthy hex body form t.ssid t.password t.token w.flash found
          h.ssid_encoded h.password_encoded h.token_encoded h.ssid_short h.password_short
          h.token_short h.ssid_text h.password_text h.token_text in
      (
        new,
        halts,
        entry,
        boot_with_token nvs healthy erase second label (record w { flash = new })
            (ap is_empty (
                read_str-get nvs healthy new w.flash "device_id" (entry "crypto_store" "device_id"))
              ∙ i)
            (read_filled new "wifi_ssid" t.ssid (entry "crypto_store" "wifi_ssid") network)
            (read_filled new "prov_token" t.token (entry "crypto_store" "prov_token") token),
      )
