-- ===== src/GrpcFirmware/Crypto.antt =====
-- The activation of the firmware over HTTP/2: perceptive-layer/grpc/grpc_only/main/src/CryptoManager.cpp
-- and src/HttpService.cpp, whose errors go to the AppState of this firmware. mbedTLS, cJSON and
-- esp_http_client answer by arguments.
use governance_iot_platform.Prelude.{
  ℕ, ltb, leb, String, Bool, true, false, not, ◌&&◌, if◌then◌else◌, Option, none, some, List, [],
}
use mathlib.Core.List.{foldl}
use governance_iot_platform.Nvs.{Nvs, str, read_write}
use governance_iot_platform.Device.{at}
use governance_iot_platform.Device.State.{Outcome, done, halted, restart}
use governance_iot_platform.Crypto.Provisioning.{Writes, KeyAnswers, Response}
use governance_iot_platform.Http.{
  HttpEvent, http_event_handler, Answer, status_code, client_error, Performed, prepare, post_method,
}
use governance_iot_platform.GrpcFirmware.State.{
  ErrorCode, nvs_init_fail, nvs_write_fail, nvs_commit_fail, provisioning_response_invalid,
  memory_alocation_fail, key_generation_fail, csr_subject_name_fail, csr_to_pem_fail,
  http_init_fail, http_request_fail, http_init, http_request, Device, transition, set_error,
}
use Prim.Native.String.{◌++◌ as text_append}

module _ (nvs : Nvs) where
  abbrev fail : ErrorCode → String → String → Device nvs → Device nvs
  fail code msg method d = set_error nvs code msg (at "CryptoManager" method) [] d

  abbrev for_key : String → String → String
  for_key msg key = text_append msg (text_append " [key=" (text_append key "]"))

  -- CryptoManager::saveToNVS
  unfoldable pub save_to_nvs : Writes → String → String → Device nvs → Device nvs × Bool
  unfolding set_error
  save_to_nvs a key text d =
      let written = nvs.set d.flash "crypto_store" key (str text) in
      if not (nvs.opens d.flash read_write "crypto_store")
      then (fail nvs_init_fail (for_key "NVS open failed" key) "saveToNVS" d, false)
      else if not a.set_ok
      then (fail nvs_write_fail (for_key "NVS set failed" key) "saveToNVS" d, false)
      else if not a.commit_ok
      then (
        fail nvs_commit_fail (for_key "NVS commit failed" key) "saveToNVS"
            (record d { flash = written }),
        false,
      )
      else (record d { flash = nvs.commit written "crypto_store" }, true)

  unfoldable pub write_csr : Option String → Device nvs → Device nvs × String
  unfolding set_error
  write_csr none d = (fail csr_to_pem_fail "Error when writing CSR in PEM" "generateCSR" d, "")
  write_csr (some pem) d = (d, pem)

  -- CryptoManager::generateCSR, with the request, which is empty where it fails
  unfoldable pub generate_csr : Writes → KeyAnswers → Device nvs → Device nvs × String
  unfolding save_to_nvs write_csr
  generate_csr a k d =
      let saved = (save_to_nvs a "private_key" k.private_pem d).0 in
      if not k.allocated
      then (
        fail memory_alocation_fail "Failed to alocate memory for PEM buffers." "generateCSR" d,
        "",
      )
      else if not k.generated
      then (fail key_generation_fail "Error when generating KEYS." "generateCSR" d, "")
      else if not k.subject_set
      then (
        fail csr_subject_name_fail "Error defining Subject Name on CSR." "generateCSR" saved,
        "",
      )
      else write_csr k.csr_pem saved

  unfoldable pub refuse_response : String → Device nvs → Outcome (Device nvs) Bool
  unfolding set_error
  refuse_response msg d =
      done false (fail provisioning_response_invalid msg "handleProvisioningResponse" d)

  -- the token is erased and the device restarts
  unfoldable pub complete : Device nvs × Bool → Outcome (Device nvs) Bool
  complete (d, false) = done false d
  complete (d, true) = halted restart (
      if nvs.opens d.flash read_write "crypto_store"
      then record d {
        flash = nvs.commit (nvs.erase_key d.flash "crypto_store" "prov_token") "crypto_store";
      }
      else d)

  unfoldable pub take_certificate : Writes → Option String → Device nvs → Outcome (Device nvs) Bool
  unfolding refuse_response complete save_to_nvs
  take_certificate a none d = refuse_response "Certified not found on field 'data'" d
  take_certificate a (some cert) d = complete (save_to_nvs a "client_cert" cert d)

  -- CryptoManager::handleProvisioningResponse
  unfoldable pub handle_provisioning_response :
      Writes → Option Response → Device nvs → Outcome (Device nvs) Bool
  unfolding refuse_response take_certificate
  handle_provisioning_response a none d =
      refuse_response "API provisioning response is not a valid JSON." d
  handle_provisioning_response a (some r) d =
      if r.success
      then take_certificate a r.certificate d
      else refuse_response "API return is not success." d

  -- the end of HttpService::perform_request: its result, and msgOut
  unfoldable pub conclude : (ℕ → String) → Answer → String → Device nvs → Device nvs × Bool × String
  unfolding set_error
  conclude print (status_code n) response d =
      let good =
        text_append "Request Successful (Code: "
          (text_append (print n) (text_append ")Response Buffer:" response)) in
      let bad = text_append "HTTP Code: " (print n) in
      if leb 200 n && ltb n 300 then (d, true, good) else (
        set_error nvs http_request_fail bad (at "HttpService" "perform_request") [] d,
        false,
        bad,
      )
  conclude print (client_error name) response d =
      let msg = text_append "Falha no request HTTP: " name in
      (set_error nvs http_request_fail msg (at "HttpService" "perform_request") [] d, false, msg)

  -- HttpService::post with a JSON body; none for a client that is not created
  unfoldable pub post :
      (ℕ → String)
      → Option Answer
      → List HttpEvent
      → String
      → String
      → Device nvs
      → Performed (Device nvs)
  unfolding conclude set_error transition http_event_handler prepare
  post print none events url body d =
      let msg : String = "Falha ao inicializar cliente HTTP" in
      record {
        state =
            set_error nvs http_init_fail msg (at "HttpService" "perform_request") []
              (transition nvs http_init d);
        success = false;
        response = "";
        message = msg;
        request = none;
      }
  post print (some answer) events url body d =
      let response = foldl http_event_handler "" events in
      let (d', success, msg) =
        conclude print answer response (transition nvs http_request (transition nvs http_init d)) in
      record {
        state = d';
        success = success;
        response = response;
        message = msg;
        request = some (prepare url post_method body (some "application/json") none);
      }
