-- ===== src/Portal/Saving.antt =====
-- The form of the captive portal, from the request to the flash
-- (perceptive-layer/mqtt_protobuff/FIRM_PROVISIONING_MQTT_PROTOBUFF/main/src/CaptivePortal.cpp).
use governance_iot_platform.Prelude.{
  ℕ, ◌-◌, ◌≤◌, ◌≢◌, String, ◌&&◌, Option, some, List, [], ◌∷◌, take, length, All, take-all, ◌≡◌,
  refl, ap, ◌∙◌, arith, if◌then◌else◌, str_eq,
}
use governance_iot_platform.Prelude.Text.{text_in}
use governance_iot_platform.Nvs.{Nvs, IsHealthy, Value, str}
use governance_iot_platform.Device.State.{halted, restart}
use governance_iot_platform.Portal.{
  Server, url_decode, form_field, save_credential_nvs, configure_post_handler,
}
use governance_iot_platform.Portal.Decoding.{
  Encodes, nothing, space, plain, escaped, ReadsHex, url_decode-Encodes,
}

length-Encodes : {enc text : List ℕ} → Encodes enc text → length text ≤ length enc
length-Encodes nothing = omega arith
length-Encodes (space e) = omega (arith, length-Encodes e)
length-Encodes (plain c h k e) = omega (arith, length-Encodes e)
length-Encodes (escaped high low a b ha hb e) = omega (arith, length-Encodes e)

-- a text without the byte that ends it
abbrev pub IsText : List ℕ → Type 0
IsText text = All (λ c. c ≢ 0) text

text_in-IsText : (text : List ℕ) → IsText text → text_in text ≡ text
unfolding text_in
text_in-IsText [] h = refl
text_in-IsText (c ∷ cs) h = ground (arith, text_in-IsText cs h.1)

-- httpd_query_key_value copies the value of the key, cut to its buffer less the terminator.
abbrev pub Finds : Server → List ℕ → (String → List ℕ) → Type 0
Finds s body form =
    (key : String) (size : ℕ) → s.query_key_value body key size ≡ take (size - 1) (form key)

module _ (nvs : Nvs) (s : Server) where
  form_field-typed :
      (body : List ℕ) (form : String → List ℕ) (key : String) (text : List ℕ)
      → ReadsHex s.strtol
      → Finds s body form
      → Encodes (form key) text
      → length (form key) ≤ 63
      → form_field nvs s body key ≡ text
  unfolding form_field
  form_field-typed body form key text hex found e h =
      ap (λ v. url_decode s.strtol v 64) (found key 64 ∙ take-all 63 (form key) h)
      ∙ url_decode-Encodes s.strtol hex 64 e
      ∙ take-all 63 text (omega (arith, length-Encodes e))

  -- What the three saves leave in a flash that can be opened.
  save_credential-get :
      IsHealthy nvs
      → (key : String) (value : List ℕ) (flash : nvs.Flash) (ns k : String) → IsText value
      → nvs.get (save_credential_nvs nvs s key value flash) ns k ≡ (
          if str_eq "crypto_store" ns && str_eq key k
          then some (str (s.as_text value))
          else nvs.get flash ns k)
  unfolding save_credential_nvs
  save_credential-get healthy key value flash ns k text =
      simp (healthy.opens_all, nvs.get_commit, nvs.get_set, text_in-IsText value text) refl

  -- an entry of the flash behind the form: the three typed values, and all else as it was
  unfoldable pub saved_entry : nvs.Flash → List ℕ → List ℕ → List ℕ → String → String → Option Value
  saved_entry old ssid pass token ns key =
      if str_eq "crypto_store" ns && str_eq "prov_token" key
      then some (str (s.as_text token))
      else if str_eq "crypto_store" ns && str_eq "wifi_pass" key
      then some (str (s.as_text pass))
      else if str_eq "crypto_store" ns && str_eq "wifi_ssid" key
      then some (str (s.as_text ssid))
      else nvs.get old ns key

  abbrev saves : List ℕ → List ℕ → List ℕ → nvs.Flash → nvs.Flash
  saves ssid pass token flash = save_credential_nvs nvs s "prov_token" token (
      save_credential_nvs nvs s "wifi_pass" pass (save_credential_nvs nvs s "wifi_ssid" ssid flash))

  saves-get :
      IsHealthy nvs
      → (ssid pass token : List ℕ) (flash : nvs.Flash) (ns key : String) → IsText ssid
      → IsText pass
      → IsText token
      → nvs.get (saves ssid pass token flash) ns key ≡ saved_entry flash ssid pass token ns key
  unfolding saved_entry
  saves-get healthy ssid pass token flash ns key hs hp ht =
      simp
        (
          save_credential-get healthy "prov_token" token,
          save_credential-get healthy "wifi_pass" pass,
          save_credential-get healthy "wifi_ssid" ssid,
        )
        refl

  -- A form whose three values are encoded in at most 63 bytes each, whatever the browser chose to
  -- escape: the device restarts, with exactly the typed network, password and token in its flash and
  -- every other entry as it was. The flash can be opened, and the texts have no byte 0.
  pub form_saves :
      IsHealthy nvs
      → ReadsHex s.strtol
      → (body : List ℕ) (form : String → List ℕ) (ssid pass token : List ℕ) (flash : nvs.Flash)
      → Finds s body form
      → Encodes (form "ssid") ssid
      → Encodes (form "password") pass
      → Encodes (form "token") token
      → length (form "ssid") ≤ 63
      → length (form "password") ≤ 63
      → length (form "token") ≤ 63
      → IsText ssid
      → IsText pass
      → IsText token
      → (new : nvs.Flash) × (configure_post_handler nvs s (some body) flash ≡ halted restart new)
        × ((ns key : String) → nvs.get new ns key ≡ saved_entry flash ssid pass token ns key)
  unfolding configure_post_handler
  form_saves healthy hex body form ssid pass token flash found es ep et ls lp lt hs hp ht = (
    saves ssid pass token flash,
    simp
        (
          form_field-typed body form "ssid" ssid hex found es ls,
          form_field-typed body form "password" pass hex found ep lp,
          form_field-typed body form "token" token hex found et lt,
        )
        refl,
    λ ns key. saves-get healthy ssid pass token flash ns key hs hp ht,
  )
