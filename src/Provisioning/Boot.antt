-- ===== src/Provisioning/Boot.antt =====
-- The boot of the provisioning firmware on a flash that is given
-- (perceptive-layer/mqtt_protobuff/FIRM_PROVISIONING_MQTT_PROTOBUFF/main/main.cpp).
use governance_iot_platform.Prelude.{
  ℕ, ltb, len, String, Bool, true, false, if◌then◌else◌, Option, none, some, ◌≡◌, refl, ap, ◌∙◌,
  and_false,
}
use governance_iot_platform.Nvs.{Nvs, IsHealthy, str}
use governance_iot_platform.AppState
use governance_iot_platform.AppState.Codes.{wifi_connecting, mqtt_init}
use governance_iot_platform.Device.{World, read_str, transition}
use governance_iot_platform.Device.Persist.{reboot}
use governance_iot_platform.Ota.{is_empty}
use governance_iot_platform.Crypto.{is_provisioned}
use governance_iot_platform.Core.Boot.{FlashAnswer, flash_ok, init_flash, boot_partition_changed}
use governance_iot_platform.Provisioning.{
  Progress, next_state, read_identity, decide, handle_nvs_init, sync_time, handle_time_sync,
}

module _ (nvs : Nvs) (healthy : IsHealthy nvs) where
  pub boot_partition-get :
      (label : Option String) (f : nvs.Flash) (key : String)
      → nvs.get (boot_partition_changed nvs label f).0 "crypto_store" key
        ≡ nvs.get f "crypto_store" key
  unfolding boot_partition_changed
  boot_partition-get none f key = refl
  boot_partition-get (some label) f key = simp (healthy.opens_all, nvs.get_commit, nvs.get_set) refl

  -- What is read of two flashes that agree on the credentials.
  pub read_str-get :
      (f f' : nvs.Flash) (key : String)
      → nvs.get f "crypto_store" key ≡ nvs.get f' "crypto_store" key
      → read_str nvs "crypto_store" key 64 f ≡ read_str nvs "crypto_store" key 64 f'
  unfolding read_str
  read_str-get f f' key e = simp (healthy.opens_all, e) refl

  pub is_provisioned-get :
      (f f' : nvs.Flash)
      → nvs.get f "crypto_store" "client_cert" ≡ nvs.get f' "crypto_store" "client_cert"
      → is_provisioned nvs f ≡ is_provisioned nvs f'
  unfolding is_provisioned
  is_provisioned-get f f' e = simp (healthy.opens_all, e) refl

  decide-connects :
      (w : World nvs)
      → w.app.ready ≡ true
      → is_empty w.core.device_id ≡ false
      → is_empty (read_str nvs "crypto_store" "wifi_ssid" 64 w.flash) ≡ false
      → is_provisioned nvs w.flash ≡ true
      → (decide nvs w).app.current ≡ wifi_connecting
  unfolding decide next_state transition AppState.transition
  decide-connects w r i s c = simp (i, s, c, r, and_false) refl

  -- The next boot of a device with an identity, a network and a certificate.
  pub boot_connects :
      (erase : nvs.Flash → nvs.Flash) (second : FlashAnswer) (label : Option String) (w : World nvs)
      → is_empty (read_str nvs "crypto_store" "device_id" 64 w.flash) ≡ false
      → is_empty (read_str nvs "crypto_store" "wifi_ssid" 64 w.flash) ≡ false
      → is_provisioned nvs w.flash ≡ true
      → (handle_nvs_init nvs erase flash_ok second label (reboot nvs w)).app.current
        ≡ wifi_connecting
  unfolding handle_nvs_init init_flash read_identity AppState.init
  boot_connects erase second label w i s c =
      let f = (boot_partition_changed nvs label w.flash).0 in
      let same = boot_partition-get label w.flash in
      decide-connects (read_identity nvs label (reboot nvs w)) refl
        (ap is_empty (read_str-get f w.flash "device_id" (same "device_id")) ∙ i)
        (ap is_empty (read_str-get f w.flash "wifi_ssid" (same "wifi_ssid")) ∙ s)
        (is_provisioned-get f w.flash (same "client_cert") ∙ c)

  pub has_certificate :
      (f : nvs.Flash) (cert : String)
      → nvs.get f "crypto_store" "client_cert" ≡ some (str cert)
      → is_provisioned nvs f ≡ true
  unfolding is_provisioned
  has_certificate f cert e = simp (healthy.opens_all, e) refl

  pub sync_time-flash :
      (rtc : Bool) (gps ntp : Option ℕ) (w : World nvs)
      → (sync_time nvs rtc gps ntp w).0.flash ≡ w.flash
  unfolding sync_time
  sync_time-flash rtc (some e) ntp w = refl
  sync_time-flash rtc none (some e) w = refl
  sync_time-flash rtc none none w = refl

  sync_time-app :
      (rtc : Bool) (gps ntp : Option ℕ) (w : World nvs)
      → (sync_time nvs rtc gps ntp w).0.app ≡ w.app
  unfolding sync_time
  sync_time-app rtc (some e) ntp w = refl
  sync_time-app rtc none (some e) w = refl
  sync_time-app rtc none none w = refl

  pub time_sync-mqtt :
      (rtc : Bool) (gps ntp : Option ℕ) (w : World nvs) (p : Progress)
      → w.app.ready ≡ true
      → is_provisioned nvs w.flash ≡ true
      → (handle_time_sync nvs rtc gps ntp (w, p)).0.app.current ≡ mqtt_init
  unfolding handle_time_sync transition AppState.transition
  time_sync-mqtt rtc gps ntp w p r c =
      let n = if p.time_synced then none else ntp in
      simp (sync_time-flash rtc gps n w, sync_time-app rtc gps n w, r, c) refl

  decide-token :
      (w : World nvs)
      → w.app.ready ≡ true
      → is_empty w.core.device_id ≡ false
      → is_empty (read_str nvs "crypto_store" "wifi_ssid" 64 w.flash) ≡ false
      → is_empty (read_str nvs "crypto_store" "prov_token" 64 w.flash) ≡ false
      → (decide nvs w).app.current ≡ wifi_connecting
  unfolding decide next_state transition AppState.transition
  decide-token w r i s t = simp (i, s, t, r) refl

  -- The next boot of a device with an identity, a network and a token.
  pub boot_with_token :
      (erase : nvs.Flash → nvs.Flash) (second : FlashAnswer) (label : Option String) (w : World nvs)
      → is_empty (read_str nvs "crypto_store" "device_id" 64 w.flash) ≡ false
      → is_empty (read_str nvs "crypto_store" "wifi_ssid" 64 w.flash) ≡ false
      → is_empty (read_str nvs "crypto_store" "prov_token" 64 w.flash) ≡ false
      → (handle_nvs_init nvs erase flash_ok second label (reboot nvs w)).app.current
        ≡ wifi_connecting
  unfolding handle_nvs_init init_flash read_identity AppState.init
  boot_with_token erase second label w i s t =
      let f = (boot_partition_changed nvs label w.flash).0 in
      let same = boot_partition-get label w.flash in
      decide-token (read_identity nvs label (reboot nvs w)) refl
        (ap is_empty (read_str-get f w.flash "device_id" (same "device_id")) ∙ i)
        (ap is_empty (read_str-get f w.flash "wifi_ssid" (same "wifi_ssid")) ∙ s)
        (ap is_empty (read_str-get f w.flash "prov_token" (same "prov_token")) ∙ t)

  -- A text that fits is read as it was written.
  pub read_str-fits :
      (f : nvs.Flash) (key text : String)
      → nvs.get f "crypto_store" key ≡ some (str text)
      → ltb (len text) 64 ≡ true
      → read_str nvs "crypto_store" key 64 f ≡ text
  unfolding read_str
  read_str-fits f key text e fits = simp (healthy.opens_all, e, fits) refl
