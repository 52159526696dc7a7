-- ===== src/GrpcFirmware/Main.antt =====
-- The handlers of the firmware over HTTP/2 (perceptive-layer/grpc/grpc_only/main/main.cpp).
use governance_iot_platform.Prelude.{
  ℕ, String, Bool, true, false, not, ◌&&◌, ◌||◌, if◌then◌else◌, Option, none, some, List, [], ◌++◌,
  map,
}
use governance_iot_platform.Prelude.Text.{codes}
use governance_iot_platform.Nvs.{Nvs}
use governance_iot_platform.Device.{at, read_str}
use governance_iot_platform.Device.State.{Wifi, Effect, Outcome, done, halted}
use governance_iot_platform.Wifi
use governance_iot_platform.Wifi.{wait_for_connection}
use governance_iot_platform.Ota.{ImageState, is_empty}
use governance_iot_platform.Crypto.{is_provisioned}
use governance_iot_platform.Crypto.Provisioning.{Writes, KeyAnswers, Response, provisioning_request}
use governance_iot_platform.Http.{HttpEvent, Answer, Performed}
use governance_iot_platform.Core.Boot.{FlashAnswer, init_flash}
use governance_iot_platform.Core.Boot.Connect.{Network}
use governance_iot_platform.Grpc.Client.{set_callback, Publication}
use governance_iot_platform.Grpc.Client as GrpcClient
use governance_iot_platform.GrpcFirmware.State.{
  DeviceState, wifi_ap_mode, wifi_connecting, time_sync, provisioning, mqtt_init,
  provisioning_success, nvs_init_fail, nvs_load_fail, wifi_timeout, Request, driver, Device,
  transition, set_error,
}
use governance_iot_platform.GrpcFirmware.Ota.{set_valid_version}
use governance_iot_platform.GrpcFirmware.Crypto.{generate_csr, handle_provisioning_response, post}
use Prim.Native.String.{◌++◌ as text_append}
use governance_iot_platform.Prelude.{str_eq}

-- the decision of handle_nvs_init on what it read
unfoldable pub next_state : Bool → Bool → Bool → DeviceState
next_state has_wifi has_token provisioned =
    if not has_wifi || (not has_token && not provisioned) then wifi_ap_mode else wifi_connecting

-- What mbedTLS, the service and the flash answer during an activation; no client of HTTP is none.
pub record Service : Type 0 where
  pub writes : Writes
  pub keys : KeyAnswers
  pub client : Option Answer
  pub events : List HttpEvent
  pub parse : String → Option Response
  pub print : ℕ → String
  pub as_text : List ℕ → String

module _ (nvs : Nvs) where
  abbrev with_requests : List Effect → List Request → List Request
  with_requests effects requests = map driver effects ++ requests

  abbrev has_text : String → nvs.Flash → Bool
  has_text key f = not (is_empty (read_str nvs "crypto_store" key 64 f))

  -- what handle_nvs_init keeps of flash
  abbrev pub with_identity : Device nvs → Device nvs
  with_identity d = record d {
    core = record d.core {
      firmware_version = read_str nvs "main_store" "fw_version" 32 d.flash;
      device_id = read_str nvs "crypto_store" "device_id" 64 d.flash;
    };
  }

  -- its decision
  unfoldable pub identify : Device nvs → Device nvs
  unfolding next_state transition set_error
  identify d =
      let d1 = with_identity d in
      if is_empty (read_str nvs "crypto_store" "device_id" 64 d.flash)
      then set_error nvs nvs_load_fail "device_id ausente na NVS" (at "MAIN" "handle_nvs_init") []
          d1
      else transition nvs
          (next_state (has_text "wifi_ssid" d.flash) (has_text "prov_token" d.flash)
            (is_provisioned nvs d.flash))
          d1

  unfoldable pub identified : nvs.Flash × Option String → Device nvs → Device nvs
  unfolding identify set_error
  identified (f, none) d = identify (record d { flash = f })
  identified (f, some name) d =
      set_error nvs nvs_init_fail name (at "MAIN" "handle_nvs_init") [] (record d { flash = f })

  -- handle_nvs_init; `erase` is nvs_flash_erase
  unfoldable pub handle_nvs_init :
      (nvs.Flash → nvs.Flash) → FlashAnswer → FlashAnswer → Device nvs → Device nvs
  unfolding identified
  handle_nvs_init erase first second d = identified (init_flash nvs erase first second d.flash) d

  -- handle_wifi_ap_mode
  unfoldable pub handle_wifi_ap_mode : Device nvs → Device nvs
  handle_wifi_ap_mode d =
      let (f, effects) = Wifi.init_ap d.wifi in
      if d.core.portal_started then d else record d {
        wifi = f;
        core = record d.core { portal_started = true };
        requests = with_requests effects d.requests;
      }

  -- the first lines of handle_wifi_connecting
  unfoldable pub start_wifi : Network → Device nvs → Device nvs
  start_wifi net d =
      let (f, effects) =
        if d.core.is_wifi_inited
        then Wifi.reconnect d.wifi
        else Wifi.init net.copy net.menu
            (record {
              ssid = read_str nvs "crypto_store" "wifi_ssid" 64 d.flash;
              password = read_str nvs "crypto_store" "wifi_pass" 64 d.flash;
              max_retries = some net.max_retries;
            })
            d.wifi in
      record d {
        wifi = f;
        core = record d.core { is_wifi_inited = true };
        requests = with_requests effects d.requests;
      }

  -- its last lines, by the result of the wait
  unfoldable pub after_wait : Option ImageState → Bool → String → Bool → Device nvs → Device nvs
  unfolding set_error transition set_valid_version
  after_wait image marked mac false d =
      set_error nvs wifi_timeout
        (text_append "Não foi possível conectar em "
          (read_str nvs "crypto_store" "wifi_ssid" 64 d.flash))
        (at "MAIN" "handle_wifi_connecting") [] d
  after_wait image marked mac true d =
      let d1 = record d { core = record d.core { mac_address = mac } } in
      let valid = set_valid_version nvs image marked d1 in
      transition nvs time_sync (
        if d.core.valid_firmware
        then d1
        else record valid { core = record valid.core { valid_firmware = true } })

  unfoldable pub waited :
      Option ImageState → Bool → String → Option (Bool × Wifi) → Device nvs → Option (Device nvs)
  unfolding after_wait
  waited image marked mac none d = none
  waited image marked mac (some (up, f)) d =
      some (after_wait image marked mac up (record d { wifi = f }))

  -- handle_wifi_connecting; none while it still waits
  unfoldable pub handle_wifi_connecting :
      Option ImageState → Bool → Network → Device nvs → Option (Device nvs)
  unfolding start_wifi waited
  handle_wifi_connecting image marked net d =
      let d1 = start_wifi net d in
      waited image marked net.mac (wait_for_connection net.started_at net.fuel net.rounds d1.wifi)
        d1

  -- handle_time_sync; SNTP sets the clock by itself
  unfoldable pub handle_time_sync : Device nvs → Device nvs
  unfolding transition
  handle_time_sync d =
      transition nvs (if is_provisioned nvs d.flash then mqtt_init else provisioning) d

  unfoldable pub finish : Outcome (Device nvs) Bool → Outcome (Device nvs) (Unit {0})
  finish (done saved d) = done tt d
  finish (halted stop d) = halted stop d

  unfoldable pub consume : Service → Performed (Device nvs) → Outcome (Device nvs) (Unit {0})
  unfolding finish handle_provisioning_response
  consume s p =
      if p.success
      then finish (handle_provisioning_response nvs s.writes (s.parse p.response) p.state)
      else done tt p.state

  -- the request of an activation, unless no key or request could be made
  unfoldable pub activate : Service → String → Device nvs × String → Outcome (Device nvs) (Unit {0})
  unfolding consume post
  activate s token (d, csr) =
      let body =
        provisioning_request nvs (codes d.core.device_id) (codes d.core.mac_address) (codes token)
          (codes csr) in
      if str_eq csr ""
      then done tt d
      else consume s (
          post nvs s.print s.client s.events "http://172.16.39.40:8082/api/provisioning/activate"
            (s.as_text body) d)

  -- handle_provisioning
  unfoldable pub handle_provisioning : Service → Device nvs → Outcome (Device nvs) (Unit {0})
  unfolding activate generate_csr
  handle_provisioning s d =
      activate s (read_str nvs "crypto_store" "prov_token" 64 d.flash)
        (generate_csr nvs s.writes s.keys d)

  -- handle_grpc_init, with the answer of h2client_initialize
  unfoldable pub handle_grpc_init : Bool → Device nvs → Device nvs
  unfolding transition
  handle_grpc_init initialised d =
      let (client, moves) =
        GrpcClient.init initialised (codes d.core.mac_address) (set_callback d.client) in
      let d1 = record d { client = client } in
      if moves then transition nvs provisioning_success d1 else d1
