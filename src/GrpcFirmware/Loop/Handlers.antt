-- ===== src/GrpcFirmware/Loop/Handlers.antt =====
-- The handlers of the firmware over HTTP/2 do not move to the audit of the boot
-- (perceptive-layer/grpc/grpc_only/main/main.cpp).
use governance_iot_platform.Prelude.{
  ℕ, String, Bool, true, false, if◌then◌else◌, Option, none, some, List, ◌∷◌, ◌≡◌, refl, ap, ◌∙◌,
  arith, inl, inr, Bool-cases,
}
use governance_iot_platform.Nvs.{Nvs}
use governance_iot_platform.Device.{read_str}
use governance_iot_platform.Device.State.{Wifi, Outcome}
use governance_iot_platform.Crypto.{is_provisioned}
use governance_iot_platform.Ota.{
  Finish, finished, validate_failed, finish_failed, ImageState, pending_verify, other_state,
  is_empty,
}
use governance_iot_platform.Core.Boot.Connect.{Network}
use governance_iot_platform.Core.Errors.{is_wifi_connected}
use governance_iot_platform.Http.{Performed, Request}
use governance_iot_platform.GrpcFirmware.State.{
  wifi_connecting, time_sync, provisioning, mqtt_init, rebooting, waiting_response, ErrorCode,
  clear_error, post_error, Device, move, transition,
}
use governance_iot_platform.GrpcFirmware.Ota.{finish_download, set_valid_version}
use governance_iot_platform.Grpc.Client.{Publication}
use governance_iot_platform.GrpcFirmware.Crypto.{post}
use governance_iot_platform.GrpcFirmware.Main.{
  Service, with_identity, next_state, identify, identified, handle_wifi_ap_mode, start_wifi,
  after_wait, waited, handle_wifi_connecting, handle_time_sync, handle_grpc_init,
}
use governance_iot_platform.GrpcFirmware.Reports.{
  is_timeout, handle_provisioning_success, error_body, reported, after_report, handle_error,
}
use governance_iot_platform.GrpcFirmware.Loop.Keeping.{
  is_audit, IsUnaudited, Keeps, transition-IsUnaudited, set_error-IsUnaudited, post-IsUnaudited,
}

module _ (nvs : Nvs) where
  next_state-audit : (a b c : Bool) → is_audit (next_state a b c) ≡ false
  unfolding next_state is_audit
  next_state-audit a b c = ground arith

  identify-IsUnaudited : (d : Device nvs) → IsUnaudited nvs d → IsUnaudited nvs (identify nvs d)
  unfolding identify
  identify-IsUnaudited d h =
      elim (Bool-cases (is_empty (read_str nvs "crypto_store" "device_id" 64 d.flash))) [
        | inl e ↦ rw e (set_error-IsUnaudited nvs _ _ _ _ (with_identity nvs d) h)
        | inr e ↦
            rw e (transition-IsUnaudited nvs _ (with_identity nvs d) (next_state-audit _ _ _) h)
      ]

  pub identified-IsUnaudited :
      (r : nvs.Flash × Option String) (d : Device nvs)
      → IsUnaudited nvs d
      → IsUnaudited nvs (identified nvs r d)
  unfolding identified
  identified-IsUnaudited (f, none) d h = identify-IsUnaudited (record d { flash = f }) h
  identified-IsUnaudited (f, some name) d h =
      set_error-IsUnaudited nvs _ _ _ _ (record d { flash = f }) h

  pub ap_mode-IsUnaudited :
      (d : Device nvs) → IsUnaudited nvs d → IsUnaudited nvs (handle_wifi_ap_mode nvs d)
  unfolding handle_wifi_ap_mode
  ap_mode-IsUnaudited d h = ground arith

  either-IsUnaudited :
      (b : Bool) (x y : Device nvs)
      → IsUnaudited nvs x
      → IsUnaudited nvs y
      → IsUnaudited nvs (if b then x else y)
  either-IsUnaudited true x y p q = p
  either-IsUnaudited false x y p q = q

  set_valid_version-app :
      (image : Option ImageState) (marked : Bool) (d : Device nvs)
      → (set_valid_version nvs image marked d).app ≡ d.app
  unfolding set_valid_version
  set_valid_version-app none marked d = refl
  set_valid_version-app (some other_state) marked d = refl
  set_valid_version-app (some pending_verify) marked d = ground arith

  after_wait-IsUnaudited :
      (image : Option ImageState) (marked : Bool) (mac : String) (up : Bool) (d : Device nvs)
      → IsUnaudited nvs d
      → IsUnaudited nvs (after_wait nvs image marked mac up d)
  unfolding after_wait is_audit
  after_wait-IsUnaudited image marked mac false d h = set_error-IsUnaudited nvs _ _ _ _ d h
  after_wait-IsUnaudited image marked mac true d h =
      let d1 = record d { core = record d.core { mac_address = mac } } in
      let valid = set_valid_version nvs image marked d1 in
      let valid1 = record valid { core = record valid.core { valid_firmware = true } } in
      let same = ap (λ s. is_audit s.current) (set_valid_version-app image marked d1) ∙ h in
      transition-IsUnaudited nvs time_sync (if d.core.valid_firmware then d1 else valid1) refl
        (either-IsUnaudited d.core.valid_firmware d1 valid1 h same)

  -- The state of a wait that has ended.
  abbrev pub Waits : Option (Device nvs) → Type 0
  Waits none = Unit
  Waits (some d) = IsUnaudited nvs d

  waited-Waits :
      (image : Option ImageState) (marked : Bool) (mac : String) (o : Option (Bool × Wifi))
      (d : Device nvs)
      → IsUnaudited nvs d
      → Waits (waited nvs image marked mac o d)
  unfolding waited
  waited-Waits image marked mac none d h = tt
  waited-Waits image marked mac (some (up, f)) d h =
      after_wait-IsUnaudited image marked mac up (record d { wifi = f }) h

  start_wifi-app : (net : Network) (d : Device nvs) → (start_wifi nvs net d).app ≡ d.app
  unfolding start_wifi
  start_wifi-app net d = refl

  pub wifi-Waits :
      (image : Option ImageState) (marked : Bool) (net : Network) (d : Device nvs)
      → IsUnaudited nvs d
      → Waits (handle_wifi_connecting nvs image marked net d)
  unfolding handle_wifi_connecting
  wifi-Waits image marked net d h =
      waited-Waits image marked net.mac _ (start_wifi nvs net d)
        (ap (λ s. is_audit s.current) (start_wifi-app net d) ∙ h)

  pub time_sync-IsUnaudited :
      (d : Device nvs) → IsUnaudited nvs d → IsUnaudited nvs (handle_time_sync nvs d)
  unfolding handle_time_sync is_audit
  time_sync-IsUnaudited d h =
      transition-IsUnaudited nvs (if is_provisioned nvs d.flash then mqtt_init else provisioning) d
        (ground arith) h

  pub grpc_init-IsUnaudited :
      (initialised : Bool) (d : Device nvs)
      → IsUnaudited nvs d
      → IsUnaudited nvs (handle_grpc_init nvs initialised d)
  unfolding handle_grpc_init transition move is_audit
  grpc_init-IsUnaudited initialised d h = ground arith

  after_report-IsUnaudited :
      (c : ErrorCode) (d : Device nvs) → IsUnaudited nvs d → IsUnaudited nvs (after_report nvs c d)
  unfolding after_report clear_error is_audit
  after_report-IsUnaudited c d h = elim (Bool-cases (is_timeout c)) [
    | inl e ↦ rw e (
        transition-IsUnaudited nvs wifi_connecting (record d { app = clear_error d.app }) refl
          (ground arith))
    | inr e ↦ rw e (transition-IsUnaudited nvs waiting_response d refl h)
  ]

  reported-IsUnaudited :
      (body : String) (p : Performed (Device nvs))
      → IsUnaudited nvs p.state
      → IsUnaudited nvs (reported nvs body p)
  unfolding reported
  reported-IsUnaudited body p h = elim p.request as (λ o. IsUnaudited nvs (request_of o)) [
    | none ↦ h
    | some r ↦ h
  ]
    where
      request_of : Option Request → Device nvs
      request_of o = elim o [
        | none ↦ p.state
        | some r ↦ record p.state { requests = post_error body ∷ p.state.requests }
      ]

  pub handle_error-IsUnaudited :
      (s : Service) (ip ssid : String) (d : Device nvs)
      → IsUnaudited nvs d
      → IsUnaudited nvs (handle_error nvs s ip ssid d)
  unfolding handle_error is_audit
  handle_error-IsUnaudited s ip ssid d h =
      let body = error_body nvs ip ssid d in
      let sent =
        post nvs s.print s.client s.events "http://172.16.39.40:8082/api/provisioning/error" body
          d in
      either-IsUnaudited (is_wifi_connected d.wifi)
        (after_report nvs d.app.last_error.code (reported nvs body sent))
        (transition nvs rebooting d)
        (after_report-IsUnaudited d.app.last_error.code (reported nvs body sent) (
          reported-IsUnaudited body sent
            (post-IsUnaudited nvs s.print s.client s.events _ body d h)))
        (transition-IsUnaudited nvs rebooting d refl h)

  pub success-IsUnaudited :
      (print : ℕ → String) (ssid : String) (publish : List ℕ → Publication) (micros : ℕ)
      (d : Device nvs)
      → IsUnaudited nvs d
      → IsUnaudited nvs (handle_provisioning_success nvs print ssid publish micros d)
  unfolding handle_provisioning_success
  success-IsUnaudited print ssid publish micros d h = ground arith

  pub finish_download-Keeps :
      (f : Finish) (version : String) (d : Device nvs)
      → IsUnaudited nvs d
      → Keeps nvs (finish_download nvs f version d)
  unfolding finish_download
  finish_download-Keeps finished version d h = h
  finish_download-Keeps validate_failed version d h = h
  finish_download-Keeps (finish_failed name) version d h = h

  pub either-Keeps {ℓ} :
      {A : Type ℓ} (b : Bool) (x y : Outcome (Device nvs) A)
      → Keeps nvs x
      → Keeps nvs y
      → Keeps nvs (if b then x else y)
  either-Keeps true x y p q = p
  either-Keeps false x y p q = q
