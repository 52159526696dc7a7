-- ===== src/GrpcFirmware/Reports.antt =====
-- What the firmware over HTTP/2 reports (perceptive-layer/grpc/grpc_only/main/main.cpp): its
-- advertisements and its errors.
use governance_iot_platform.Prelude.{
  ℕ, ◌-◌, ◌/◌, leb, String, Bool, true, false, if◌then◌else◌, none, some, List, ◌∷◌, ◌++◌, take,
}
use governance_iot_platform.Prelude.Text.{codes}
use governance_iot_platform.Nvs.{Nvs}
use governance_iot_platform.Http.{Performed}
use governance_iot_platform.Core.Errors.{is_wifi_connected}
use governance_iot_platform.Grpc.Client.{Publication}
use governance_iot_platform.GrpcFirmware.State.{
  state_index, wifi_connecting, rebooting, waiting_response, ErrorCode, error_name, wifi_timeout,
  clear_error, post_error, advertise, Device, transition,
}
use governance_iot_platform.GrpcFirmware.Crypto.{post}
use Prim.Native.String.{◌++◌ as text_append}
use governance_iot_platform.GrpcFirmware.Main.{Service}

-- the test `err.code == ErrorCode::WIFI_TIMEOUT`
abbrev pub is_timeout : ErrorCode → Bool
is_timeout wifi_timeout = true
is_timeout _ = false

module _ (nvs : Nvs) where
  -- the text of an advertisement, cut to its buffer
  unfoldable pub advertisement : (ℕ → String) → String → Device nvs → List ℕ
  unfolding state_index
  advertisement print ssid d = take 127 (
      codes d.core.mac_address
      ++ b'/'
        ∷ (codes d.core.firmware_version
            ++ b'/' ∷ (codes ssid ++ b'/' ∷ codes (print (state_index d.app.current)))))

  -- handle_provisioning_success, at the time `micros` of esp_timer_get_time; `publish` is
  -- GrpcManager::publish of a payload on the topic `status`
  unfoldable pub handle_provisioning_success :
      (ℕ → String) → String → (List ℕ → Publication) → ℕ → Device nvs → Device nvs
  unfolding advertisement
  handle_provisioning_success print ssid publish micros d =
      let now = micros / 10000 in
      let sent = publish (advertisement print ssid d) in
      if leb 1000 (now - d.core.last_advertise)
      then record d {
        core = record d.core { last_advertise = now };
        requests = advertise sent.bodies ∷ d.requests;
      }
      else d

  abbrev quoted : String → String → String → String
  quoted key value rest = text_append key (text_append value rest)

  -- the body of an error report
  unfoldable pub error_body : String → String → Device nvs → String
  unfolding error_name
  error_body ip ssid d =
      let e = d.app.last_error in
      quoted "{\"device_id\":\"" d.core.device_id (
        quoted "\",\"mac\":\"" d.core.mac_address (
          quoted "\",\"fw_version\":\"" d.core.firmware_version (
            quoted "\",\"ip\":\"" ip (
              quoted "\",\"ssid\":\"" ssid (
                quoted "\",\"error_code\":\"" (error_name e.code) (
                  quoted "\",\"error_msg\":\"" e.msg (
                    quoted "\",\"error_source\":\"" e.source.class_name
                      (quoted "::" e.source.method "\"}"))))))))

  -- the state behind the report of an error
  unfoldable pub reported : String → Performed (Device nvs) → Device nvs
  reported body p = elim p.request [
    | none ↦ p.state
    | some r ↦ record p.state { requests = post_error body ∷ p.state.requests }
  ]

  -- the reaction to a reported error, by its code
  unfoldable pub after_report : ErrorCode → Device nvs → Device nvs
  unfolding transition clear_error
  after_report code d =
      if is_timeout code
      then transition nvs wifi_connecting (record d { app = clear_error d.app })
      else transition nvs waiting_response d

  -- handle_error
  unfoldable pub handle_error : Service → String → String → Device nvs → Device nvs
  unfolding after_report error_body post transition reported
  handle_error s ip ssid d =
      let body = error_body ip ssid d in
      let sent =
        post nvs s.print s.client s.events "http://172.16.39.40:8082/api/provisioning/error" body
          d in
      if is_wifi_connected d.wifi
      then after_report d.app.last_error.code (reported body sent)
      else transition nvs rebooting d
