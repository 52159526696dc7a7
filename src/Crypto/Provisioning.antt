-- ===== src/Crypto/Provisioning.antt =====
-- The provisioning exchange of CryptoManager
-- (perceptive-layer/mqtt_protobuff/governance_core/src/CryptoManager.cpp): the key and its request,
-- and what the device does with the answer. mbedTLS and cJSON answer by arguments.
use governance_iot_platform.Prelude.{
  ℕ, String, Bool, true, false, not, if◌then◌else◌, ◌==◌, Option, none, some, List, [], ◌∷◌, ◌++◌,
  str_eq,
}
use governance_iot_platform.Prelude.Text.{codes}
use governance_iot_platform.Nvs.{Nvs, str, read_write}
use governance_iot_platform.AppState.Codes.{
  nvs_init_fail, nvs_write_fail, nvs_commit_fail, provisioning_response_invalid,
  memory_alocation_fail, key_generation_fail, csr_subject_name_fail, csr_to_pem_fail, ErrorCode,
}
use governance_iot_platform.Device.{World, at, set_error}
use governance_iot_platform.Device.State.{Outcome, done, halted, restart}
use Prim.Native.String.{◌++◌ as text_append}

-- what escapeJSONString writes for one character
unfoldable pub escape_char : ℕ → List ℕ
escape_char c =
    if c == 10
    then b'\\' ∷ b'n' ∷ []
    else if c == 13
    then b'\\' ∷ b'r' ∷ []
    else if c == b'"'
    then b'\\' ∷ b'"' ∷ []
    else c ∷ []

-- static std::string escapeJSONString
unfoldable pub escape_json_string : List ℕ → List ℕ
unfolding escape_char
escape_json_string [] = []
escape_json_string (c ∷ cs) = escape_char c ++ escape_json_string cs

-- Whether nvs_set_str and nvs_commit succeed.
pub record Writes : Type 0 where
  pub set_ok : Bool
  pub commit_ok : Bool

-- What mbedTLS answers: the buffers, the key with its text, the subject, and the text of the
-- request, none where it cannot be written.
pub record KeyAnswers : Type 0 where
  pub allocated : Bool
  pub generated : Bool
  pub private_pem : String
  pub subject_set : Bool
  pub csr_pem : Option String

-- cJSON_Parse of the answer: whether `success` is true, and `data` if it is a string.
pub record Response : Type 0 where
  pub success : Bool
  pub certificate : Option String

module _ (nvs : Nvs) where
  abbrev fail : ErrorCode → String → String → World nvs → World nvs
  fail code msg method w = set_error nvs code msg (at "CryptoManager" method) [] w

  abbrev for_key : String → String → String
  for_key msg key = text_append msg (text_append " [key=" (text_append key "]"))

  -- CryptoManager::saveToNVS
  unfoldable pub save_to_nvs : Writes → String → String → World nvs → World nvs × Bool
  save_to_nvs a key text w =
      if not (nvs.opens w.flash read_write "crypto_store")
      then (fail nvs_init_fail (for_key "NVS open failed" key) "saveToNVS" w, false)
      else if not a.set_ok
      then (fail nvs_write_fail (for_key "NVS set failed" key) "saveToNVS" w, false)
      else let written = nvs.set w.flash "crypto_store" key (str text) in
        if not a.commit_ok
        then (
          fail nvs_commit_fail (for_key "NVS commit failed" key) "saveToNVS"
              (record w { flash = written }),
          false,
        )
        else (record w { flash = nvs.commit written "crypto_store" }, true)

  -- CryptoManager::saveCertificate
  unfoldable pub save_certificate : Writes → String → World nvs → World nvs × Bool
  unfolding save_to_nvs
  save_certificate a cert w = save_to_nvs a "client_cert" cert w

  -- the end of generateCSR, once the key is saved
  unfoldable pub write_csr : Option String → World nvs → World nvs × String
  write_csr none w = (fail csr_to_pem_fail "Error when writing CSR in PEM" "generateCSR" w, "")
  write_csr (some pem) w = (w, pem)

  -- CryptoManager::generateCSR, with the request, which is empty where it fails
  unfoldable pub generate_csr : Writes → KeyAnswers → World nvs → World nvs × String
  unfolding save_to_nvs write_csr
  generate_csr a k w =
      if not k.allocated
      then (
        fail memory_alocation_fail "Failed to alocate memory for PEM buffers." "generateCSR" w,
        "",
      )
      else if not k.generated
      then (fail key_generation_fail "Error when generating KEYS." "generateCSR" w, "")
      else let saved = (save_to_nvs a "private_key" k.private_pem w).0 in
        if not k.subject_set
        then (
          fail csr_subject_name_fail "Error defining Subject Name on CSR." "generateCSR" saved,
          "",
        )
        else write_csr k.csr_pem saved

  -- the request of handleProvisioning
  unfoldable pub provisioning_request : List ℕ → List ℕ → List ℕ → List ℕ → List ℕ
  unfolding escape_json_string
  provisioning_request device_id mac token csr =
      codes "{\"provisioningToken\":\""
      ++ (token
          ++ (codes "\",\"deviceId\":\""
              ++ (device_id
                  ++ (codes "\",\"macAddress\":\""
                      ++ (mac
                          ++ (codes "\",\"publicKey\":\""
                              ++ (escape_json_string csr ++ codes "\"}")))))))

  -- CryptoManager::handleProvisioning
  unfoldable pub handle_provisioning :
      Writes → KeyAnswers → List ℕ → List ℕ → List ℕ → World nvs → World nvs × List ℕ
  unfolding generate_csr provisioning_request
  handle_provisioning a k device_id mac token w =
      let (w', csr) = generate_csr a k w in
      (w', if str_eq csr "" then [] else provisioning_request device_id mac token (codes csr))

  unfoldable pub refuse_response : String → World nvs → Outcome (World nvs) Bool
  refuse_response msg w =
      done false (fail provisioning_response_invalid msg "handleProvisioningResponse" w)

  -- `prov_token` is erased and the device restarts
  unfoldable pub complete : World nvs × Bool → Outcome (World nvs) Bool
  complete (w, false) = done false w
  complete (w, true) = halted restart (
      if nvs.opens w.flash read_write "crypto_store"
      then record w {
        flash = nvs.commit (nvs.erase_key w.flash "crypto_store" "prov_token") "crypto_store";
      }
      else w)

  unfoldable pub take_certificate : Writes → Option String → World nvs → Outcome (World nvs) Bool
  unfolding refuse_response complete save_certificate
  take_certificate a none w = refuse_response "Certified not found on field 'data'" w
  take_certificate a (some cert) w = complete (save_certificate a cert w)

  -- CryptoManager::handleProvisioningResponse; its parameter msgOut stays as it was
  unfoldable pub handle_provisioning_response :
      Writes → Option Response → World nvs → Outcome (World nvs) Bool
  unfolding refuse_response take_certificate
  handle_provisioning_response a none w =
      refuse_response "API provisioning response is not a valid JSON." w
  handle_provisioning_response a (some r) w =
      if r.success
      then take_certificate a r.certificate w
      else refuse_response "API return is not success." w
