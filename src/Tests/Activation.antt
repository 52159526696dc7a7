-- ===== src/Tests/Activation.antt =====
-- The portal, the credentials, the requests and the activation of a device.
use governance_iot_platform.Prelude.{
  ℕ, ◌+◌, ◌-◌, ◌*◌, leb, String, str_eq, true, false, if◌then◌else◌, none, some, List, [], ◌∷◌,
  ◌++◌, take, ◌≡◌, refl, arith, inl, inr,
}
use governance_iot_platform.AppState.Codes.{provisioning, wifi_connecting}
use governance_iot_platform.Device.{World, read_str}
use governance_iot_platform.Device.Persist.{reboot}
use governance_iot_platform.Device.State.{halted, restart}
use governance_iot_platform.Core.Boot.{flash_ok}
use governance_iot_platform.Portal.{Server, configure_post_handler}
use governance_iot_platform.Portal.Decoding.{
  HexDigit, decimal, upper, small, nothing, space, plain, escaped, ReadsHex,
}
use governance_iot_platform.Portal.Saving.{saved_entry}
use governance_iot_platform.Provisioning.Setup.{Typed, Sends, IsRead, portal_connects}
use governance_iot_platform.Payload.{Field, text, flag, add_all, clear}
use governance_iot_platform.Payload.Fields.{Shows, object_text, add_all-Shows}
use governance_iot_platform.Crypto.Provisioning.{escape_json_string}
use governance_iot_platform.Crypto.Escape.{read_string, read_string-escape}
use governance_iot_platform.Http.{Request, perform_request, status_code, on_data}
use governance_iot_platform.Http.Outcomes.{Reported, perform_request-Reported}
use governance_iot_platform.Provisioning.{Progress, Activation, Answers, handle_nvs_init}
use governance_iot_platform.Provisioning.Steps.{Succeeds}
use governance_iot_platform.Tests.Fixtures.{memory, memory-IsHealthy, device, no_client}

hex_value : ℕ → ℕ
hex_value c = if leb c b'9' then c - b'0' else if leb c b'F' then c - 55 else c - 87

hex_value-HexDigit : {v c : ℕ} → HexDigit v c → hex_value c ≡ v
unfolding hex_value
hex_value-HexDigit (decimal v h) = ground arith
hex_value-HexDigit (upper v h l) = ground arith
hex_value-HexDigit (small v h l) = ground arith

pub hex_number : ℕ → ℕ → ℕ
hex_number a b = hex_value a * 16 + hex_value b

pub hex_number-ReadsHex : ReadsHex hex_number
unfolding hex_number
hex_number-ReadsHex high low a b ha hb = omega (arith, hex_value-HexDigit ha, hex_value-HexDigit hb)

-- the form `ssid=n+%41&password=p&token=t`
abbrev pub typed_form : String → List ℕ
typed_form key =
    if str_eq key "ssid"
    then b'n' ∷ b'+' ∷ b'%' ∷ b'4' ∷ b'1' ∷ []
    else if str_eq key "password"
    then b'p' ∷ []
    else b't' ∷ []

abbrev pub http_server : Server
http_server = record {
  strtol = hex_number;
  query_key_value = λ body key size. take (size - 1) (typed_form key);
  as_text = λ bytes. "typed";
}

abbrev two_fields : List Field
two_fields = text "mac" "aa" ∷ flag "ok" true ∷ []

add_all-Shows_example : Shows (add_all clear two_fields) (object_text two_fields)
add_all-Shows_example = add_all-Shows two_fields

read_string-escape_example :
    read_string false (escape_json_string (65 ∷ 10 ∷ 34 ∷ []) ++ b'"' ∷ b'}' ∷ [])
    ≡ some (65 ∷ 10 ∷ 34 ∷ [], b'}' ∷ [])
read_string-escape_example =
    read_string-escape (65 ∷ 10 ∷ 34 ∷ []) (b'}' ∷ [])
      (inr (omega arith, omega arith), (inl (inl refl), (inr (omega arith, omega arith), tt)))

abbrev pub waiting : World memory
waiting = device provisioning [] no_client

abbrev pub printed : ℕ → String
printed n = "200"

abbrev activation_request : Request
activation_request = record {
  url = "http://mdm";
  body = some "{}";
  content_type = none;
  authorization = none;
}

perform_request-Reported_example :
    Reported true
      (status_code 500)
      waiting.app
      (perform_request memory printed true [] (status_code 500) activation_request waiting).success
      (perform_request memory printed true [] (status_code 500) activation_request waiting).message
      (perform_request memory printed true []
        (status_code 500)
        activation_request
        waiting).state.app
perform_request-Reported_example =
    perform_request-Reported memory printed true [] (status_code 500) activation_request waiting
      refl

abbrev pub activation : Activation
activation = record {
  response = record { success = true; certificate = some "cert2" };
  timestamp = some "2026";
}

abbrev pub answers : Answers
answers = record {
  writes = record { set_ok = true; commit_ok = true };
  keys = record {
    allocated = true;
    generated = true;
    private_pem = "key2";
    subject_set = true;
    csr_pem = some "csr";
  };
  client_created = true;
  events = on_data "{}" ∷ [];
  http_answer = status_code 200;
  parse = λ body. some activation;
  parse_time = λ t. some 1767225600;
  rtc_present = true;
  print = printed;
  as_text = λ bytes. "request";
  provisioning_url = "http://mdm";
}

pub answers-Succeeds : Succeeds answers activation "cert2" "csr" 200
answers-Succeeds = record {
  set_ok = refl;
  commit_ok = refl;
  allocated = refl;
  generated = refl;
  subject_set = refl;
  csr_made = refl;
  csr_filled = refl;
  created = refl;
  answered = refl;
  good = refl;
  parsed = refl;
  confirmed = refl;
  certified = refl;
}

abbrev pub fresh : Progress
fresh = record {
  time_synced = false;
  boot_completed = false;
  portal_started = false;
  last_advertise_ms = 0;
}

abbrev pub typed : Typed
typed = record { ssid = b'n' ∷ b' ' ∷ b'A' ∷ []; password = b'p' ∷ []; token = b't' ∷ [] }

pub form-Sends : Sends typed_form typed
form-Sends = record {
  ssid_encoded =
      plain b'n' (omega arith) (omega arith)
        (space (escaped 4 1 b'4' b'1' (decimal 4 (omega arith)) (decimal 1 (omega arith)) nothing));
  password_encoded = plain b'p' (omega arith) (omega arith) nothing;
  token_encoded = plain b't' (omega arith) (omega arith) nothing;
  ssid_short = omega arith;
  password_short = omega arith;
  token_short = omega arith;
  ssid_text = omega arith;
  password_text = omega arith;
  token_text = omega arith;
}

pub typed-IsRead : (bytes : List ℕ) → IsRead memory memory-IsHealthy http_server bytes
typed-IsRead bytes = record { fits = refl; filled = refl }

portal_connects_example :
    (new : memory.Flash) × (configure_post_handler memory http_server (some []) waiting.flash
      ≡ halted restart new)
    × ((ns key : String)
        → memory.get new ns key
          ≡ saved_entry memory http_server waiting.flash typed.ssid typed.password typed.token ns
              key)
    × ((handle_nvs_init memory
          (λ f. f)
          flash_ok
          flash_ok
          none
          (reboot memory (record waiting { flash = new }))).app.current
        ≡ wifi_connecting)
unfolding read_str
portal_connects_example =
    portal_connects memory memory-IsHealthy http_server hex_number-ReadsHex [] typed_form typed
      waiting (λ f. f) flash_ok none (λ key size. refl) form-Sends (typed-IsRead typed.ssid)
      (typed-IsRead typed.token) refl
