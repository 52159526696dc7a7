-- ===== src/Portal.antt =====
-- The captive portal of the provisioning firmware
-- (perceptive-layer/mqtt_protobuff/FIRM_PROVISIONING_MQTT_PROTOBUFF/main/src/CaptivePortal.cpp). A
-- char is its byte; a C text is the list of the bytes before its terminator.
use governance_iot_platform.Prelude.{
  ℕ, zero, suc, ◌-◌, ◌%◌, String, Bool, true, false, ◌&&◌, Option, none, some, List, [], ◌∷◌,
  if◌then◌else◌, ◌==◌,
}
use governance_iot_platform.Prelude.Text.{text_in}
use governance_iot_platform.Nvs.{Nvs, str, read_write}
use governance_iot_platform.Device.State.{Outcome, done, halted, restart}
pub mod Decoding
pub mod Saving

-- strtol of a text of two characters, to the base 16
module _ (strtol : ℕ → ℕ → ℕ) where
  -- the character that the loop of url_decode writes, and what is left of the source
  unfoldable pub next_char : ℕ → List ℕ → ℕ × List ℕ
  next_char c (a ∷ b ∷ rest) =
      if c == b'+'
      then (b' ', a ∷ b ∷ rest)
      else if c == b'%'
      then (strtol a b % 256, rest)
      else (c, a ∷ b ∷ rest)
  next_char c rest = (if c == b'+' then b' ' else c, rest)

  -- the loop, with the room that is left before the terminator
  unfoldable pub decode_loop : ℕ → List ℕ → List ℕ
  unfolding next_char
  decode_loop zero src = []
  decode_loop (suc n) [] = []
  decode_loop (suc n) (c ∷ cs) = let (char, rest) = next_char c cs in char ∷ decode_loop n rest

  -- static void url_decode: what it leaves before the terminator in `dst_len` bytes
  unfoldable pub url_decode : List ℕ → ℕ → List ℕ
  unfolding decode_loop
  url_decode src dst_len = decode_loop (dst_len - 1) src

-- What the server and the C library answer: httpd_query_key_value of a body, a key and the size of
-- its buffer, and the text of the flash that has the given bytes.
pub record Server : Type 0 where
  pub strtol : ℕ → ℕ → ℕ
  pub query_key_value : List ℕ → String → ℕ → List ℕ
  pub as_text : List ℕ → String

module _ (nvs : Nvs) (s : Server) where
  -- static void save_credential_nvs
  unfoldable pub save_credential_nvs : String → List ℕ → nvs.Flash → nvs.Flash
  unfolding text_in
  save_credential_nvs key value flash =
      if nvs.opens flash read_write "crypto_store"
      then nvs.commit (nvs.set flash "crypto_store" key (str (s.as_text (text_in value))))
          "crypto_store"
      else flash

  -- the decoded value of one field of the form
  unfoldable pub form_field : List ℕ → String → List ℕ
  unfolding url_decode
  form_field body key = url_decode s.strtol (s.query_key_value body key 64) 64

  -- configure_post_handler, with the bytes that httpd_req_recv gives, none where it fails
  unfoldable pub configure_post_handler : Option (List ℕ) → nvs.Flash → Outcome nvs.Flash Bool
  unfolding form_field save_credential_nvs
  configure_post_handler none flash = done false flash
  configure_post_handler (some body) flash = halted restart (
      save_credential_nvs "prov_token" (form_field body "token") (
        save_credential_nvs "wifi_pass" (form_field body "password")
          (save_credential_nvs "wifi_ssid" (form_field body "ssid") flash)))
