-- ===== src/Provisioning/Journey.antt =====
-- The activation, and the boot behind it
-- (perceptive-layer/mqtt_protobuff/FIRM_PROVISIONING_MQTT_PROTOBUFF/main/main.cpp).
use governance_iot_platform.Prelude.{
  ℕ, String, true, false, not, ◌&&◌, some, ◌≡◌, ap, ◌∙◌, and_false,
}
use governance_iot_platform.Nvs.{Nvs, IsHealthy, str}
use governance_iot_platform.Device.{World, read_str}
use governance_iot_platform.Device.State.{halted, restart}
use governance_iot_platform.Ota.{is_empty}
use governance_iot_platform.Core.Loop.Progress.{Reaches}
use governance_iot_platform.Provisioning.{
  Progress, Activation, Answers, has_text, handle_provisioning,
}
use governance_iot_platform.Provisioning.Steps.{
  Succeeds, entry_behind, activated, activated-get, handle_provisioning-halts,
}
use governance_iot_platform.Provisioning.Boot.{read_str-get, has_certificate}
use governance_iot_platform.Provisioning.Stages.{Connects}
use governance_iot_platform.Provisioning.Loop.{Turn, State, turns}
use governance_iot_platform.Provisioning.Arrival.{Connected, IsWaiting, certified_boot}
use governance_iot_platform.Provisioning.Onboarding.{PowersOn}

module _ (nvs : Nvs) (healthy : IsHealthy nvs) where
  -- a flash with the certificate, and the identity and the network of another one
  certified-Connects :
      (cert : String) (f g : nvs.Flash)
      → is_empty (read_str nvs "crypto_store" "device_id" 64 f) ≡ false
      → is_empty (read_str nvs "crypto_store" "wifi_ssid" 64 f) ≡ false
      → nvs.get g "crypto_store" "device_id" ≡ nvs.get f "crypto_store" "device_id"
      → nvs.get g "crypto_store" "wifi_ssid" ≡ nvs.get f "crypto_store" "wifi_ssid"
      → nvs.get g "crypto_store" "client_cert" ≡ some (str cert)
      → Connects nvs healthy g
  certified-Connects cert f g i s same_id same_ssid has_cert = record {
    identity = ap is_empty (read_str-get nvs healthy g f "device_id" same_id) ∙ i;
    network = ap is_empty (read_str-get nvs healthy g f "wifi_ssid" same_ssid) ∙ s;
    allowed =
        ap (λ b. not (has_text nvs "prov_token" g) && not b)
          (has_certificate nvs healthy g cert has_cert)
        ∙ and_false (not (has_text nvs "prov_token" g));
  }

  -- An activation that succeeds at every step restarts the device. The flash then holds the
  -- certificate of the service and the new private key, the token is erased, and the other
  -- credentials are as before. If the device had its identity and a network, the certificate and the
  -- key are not empty, and in the boot behind the restart the flash is initialised at once, the
  -- station joins the network and ESP-IDF gives an MQTT client, then four turns of the main loop
  -- come to that client, waiting for its connection: the device does not activate again. The flash
  -- can be opened, and the boot begins with the variables of a start on the flash that it finds.
  pub activation_completes :
      (a : Answers) (act : Activation) (cert csr : String) (status : ℕ) (w : World nvs)
      (p : Progress) (erase : nvs.Flash → nvs.Flash) (start : nvs.Flash → State nvs erase)
      (t : Turn)
      → Succeeds a act cert csr status
      → is_empty (read_str nvs "crypto_store" "device_id" 64 w.flash) ≡ false
      → is_empty (read_str nvs "crypto_store" "wifi_ssid" 64 w.flash) ≡ false
      → is_empty cert ≡ false
      → is_empty a.keys.private_pem ≡ false
      → PowersOn nvs erase healthy start
      → Connected nvs erase healthy t
      → t.mqtt.client_created ≡ true
      → (new : World nvs) × (handle_provisioning nvs a (w, p) ≡ halted restart new)
        × ((key : String)
            → nvs.get new.flash "crypto_store" key ≡ entry_behind nvs healthy a cert w key)
        × Reaches (IsWaiting nvs erase healthy) (turns nvs erase 4 t (start new.flash))
  activation_completes a act cert csr status w p erase start t h i s given given' on net made =
      let new = activated nvs healthy a p.time_synced act cert w in
      let entry = activated-get nvs healthy a p.time_synced act cert w in
      (
        new,
        handle_provisioning-halts nvs healthy a act cert csr status w p h,
        entry,
        certified_boot nvs erase healthy t cert a.keys.private_pem new.flash (start new.flash).0
            (start new.flash).1 made net
            (certified-Connects cert w.flash new.flash i s (entry "device_id") (entry "wifi_ssid")
              (entry "client_cert"))
            (entry "client_cert") (entry "private_key") given given' (on.fresh new.flash)
            (on.begins new.flash),
      )
