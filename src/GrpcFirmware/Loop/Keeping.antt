-- ===== src/GrpcFirmware/Loop/Keeping.antt =====
-- The activation of the firmware over HTTP/2 never leads to the audit of the boot
-- (perceptive-layer/grpc/grpc_only/main/main.cpp).
use governance_iot_platform.Prelude.{
  str_eq, leb, ltb, ℕ, String, Bool, true, false, ◌&&◌, Option, none, some, List, ◌≡◌, refl, arith,
  inl, inr, Bool-cases,
}
use governance_iot_platform.Nvs.{Nvs}
use governance_iot_platform.AppState.Codes.{Source}
use governance_iot_platform.Device.State.{Outcome, done, halted, final}
use governance_iot_platform.GrpcFirmware.State.{
  DeviceState, verify_rollback, http_init, http_request, ErrorCode, Device, move, register,
  transition, set_error,
}
use governance_iot_platform.Crypto.Provisioning.{Writes, KeyAnswers, Response, provisioning_request}
use governance_iot_platform.Prelude.Text.{codes}
use governance_iot_platform.Device.{read_str}
use governance_iot_platform.Http.{Performed, HttpEvent, Answer, status_code, client_error}
use governance_iot_platform.GrpcFirmware.Crypto.{
  save_to_nvs, write_csr, generate_csr, refuse_response, complete, take_certificate,
  handle_provisioning_response, conclude, post,
}
use governance_iot_platform.GrpcFirmware.Main.{
  Service, finish, consume, activate, handle_provisioning,
}

-- the state in which the loop would audit the boot
unfoldable pub is_audit : DeviceState → Bool
is_audit verify_rollback = true
is_audit _ = false

module _ (nvs : Nvs) where
  abbrev pub IsUnaudited : Device nvs → Type 0
  IsUnaudited d = is_audit d.app.current ≡ false

  pub transition-IsUnaudited :
      (s : DeviceState) (d : Device nvs)
      → is_audit s ≡ false
      → IsUnaudited d
      → IsUnaudited (transition nvs s d)
  unfolding transition move
  transition-IsUnaudited s d e h = ground arith

  pub set_error-IsUnaudited :
      (c : ErrorCode) (m : String) (s : Source) (l : List (String × String)) (d : Device nvs)
      → IsUnaudited d
      → IsUnaudited (set_error nvs c m s l d)
  unfolding set_error register is_audit
  set_error-IsUnaudited c m s l d h = ground arith

  abbrev pub Keeps {ℓ} : {A : Type ℓ} → Outcome (Device nvs) A → Type 0
  Keeps o = IsUnaudited (final o)

  save_to_nvs-IsUnaudited :
      (a : Writes) (key text : String) (d : Device nvs)
      → IsUnaudited d
      → IsUnaudited (save_to_nvs nvs a key text d).0
  unfolding save_to_nvs set_error register is_audit
  save_to_nvs-IsUnaudited a key text d h = ground arith

  generate_csr-IsUnaudited :
      (a : Writes) (k : KeyAnswers) (d : Device nvs)
      → IsUnaudited d
      → IsUnaudited (generate_csr nvs a k d).0
  unfolding generate_csr write_csr set_error register is_audit
  generate_csr-IsUnaudited a k d h =
      ground (arith, save_to_nvs-IsUnaudited a "private_key" k.private_pem d h)

  complete-Keeps : (r : Device nvs × Bool) → IsUnaudited r.0 → Keeps (complete nvs r)
  unfolding complete
  complete-Keeps (d, false) h = h
  complete-Keeps (d, true) h = ground arith

  take_certificate-Keeps :
      (a : Writes) (o : Option String) (d : Device nvs)
      → IsUnaudited d
      → Keeps (take_certificate nvs a o d)
  unfolding take_certificate refuse_response
  take_certificate-Keeps a none d h = set_error-IsUnaudited _ _ _ _ d h
  take_certificate-Keeps a (some cert) d h =
      complete-Keeps (save_to_nvs nvs a "client_cert" cert d)
        (save_to_nvs-IsUnaudited a "client_cert" cert d h)

  response-Keeps :
      (a : Writes) (r : Option Response) (d : Device nvs)
      → IsUnaudited d
      → Keeps (handle_provisioning_response nvs a r d)
  unfolding handle_provisioning_response refuse_response
  response-Keeps a none d h = set_error-IsUnaudited _ _ _ _ d h
  response-Keeps a (some r) d h = elim (Bool-cases r.success) [
    | inl e ↦ rw e (take_certificate-Keeps a r.certificate d h)
    | inr e ↦ rw e (set_error-IsUnaudited _ _ _ _ d h)
  ]

  conclude-IsUnaudited :
      (print : ℕ → String) (a : Answer) (response : String) (d : Device nvs)
      → IsUnaudited d
      → IsUnaudited (conclude nvs print a response d).0
  unfolding conclude
  conclude-IsUnaudited print (status_code n) response d h =
      elim (Bool-cases (leb 200 n && ltb n 300)) [
        | inl e ↦ rw e h
        | inr e ↦ rw e (set_error-IsUnaudited _ _ _ _ d h)
      ]
  conclude-IsUnaudited print (client_error name) response d h = set_error-IsUnaudited _ _ _ _ d h

  pub post-IsUnaudited :
      (print : ℕ → String) (a : Option Answer) (events : List HttpEvent) (url body : String)
      (d : Device nvs)
      → IsUnaudited d
      → IsUnaudited (post nvs print a events url body d).state
  unfolding post is_audit
  post-IsUnaudited print none events url body d h =
      set_error-IsUnaudited _ _ _ _ (transition nvs http_init d)
        (transition-IsUnaudited http_init d refl h)
  post-IsUnaudited print (some a) events url body d h =
      conclude-IsUnaudited print a _ (transition nvs http_request (transition nvs http_init d)) (
        transition-IsUnaudited http_request (transition nvs http_init d) refl
          (transition-IsUnaudited http_init d refl h))

  finish-Keeps : (o : Outcome (Device nvs) Bool) → Keeps o → Keeps (finish nvs o)
  unfolding finish
  finish-Keeps (done b d) h = h
  finish-Keeps (halted stop d) h = h

  consume-Keeps :
      (s : Service) (p : Performed (Device nvs)) → IsUnaudited p.state → Keeps (consume nvs s p)
  unfolding consume
  consume-Keeps s p h = elim (Bool-cases p.success) [
    | inl e ↦ rw e (
        finish-Keeps (handle_provisioning_response nvs s.writes (s.parse p.response) p.state)
          (response-Keeps s.writes (s.parse p.response) p.state h))
    | inr e ↦ rw e h
  ]

  pub handle_provisioning-Keeps :
      (s : Service) (d : Device nvs) → IsUnaudited d → Keeps (handle_provisioning nvs s d)
  unfolding handle_provisioning activate
  handle_provisioning-Keeps s d h =
      let (d1, csr) = generate_csr nvs s.writes s.keys d in
      let h1 = generate_csr-IsUnaudited s.writes s.keys d h in
      elim (Bool-cases (str_eq csr "")) [
        | inl e ↦ rw e h1
        | inr e ↦ rw e (
            consume-Keeps s
              (post nvs s.print s.client s.events
                "http://172.16.39.40:8082/api/provisioning/activate"
                (s.as_text (
                  provisioning_request nvs (codes d1.core.device_id) (codes d1.core.mac_address)
                    (codes (read_str nvs "crypto_store" "prov_token" 64 d.flash)) (codes csr)))
                d1)
              (post-IsUnaudited s.print s.client s.events _ _ d1 h1))
      ]
