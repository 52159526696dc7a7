-- ===== src/Crypto/Response.antt =====
-- What the device does with the answer of the provisioning service
-- (perceptive-layer/mqtt_protobuff/governance_core/src/CryptoManager.cpp,
-- handleProvisioningResponse).
use governance_iot_platform.Prelude.{
  String, Bool, true, false, if◌then◌else◌, Option, none, some, [], ◌≡◌, refl, str_eq, inl, inr,
  Bool-cases,
}
use governance_iot_platform.Nvs.{Nvs, IsHealthy, str}
use governance_iot_platform.AppState.Codes.{ErrorCode, provisioning_response_invalid, Source}
use governance_iot_platform.Device.{World, at, set_error, save_mask}
use governance_iot_platform.Device.State.{Outcome, done, halted, restart}
use governance_iot_platform.Crypto.Provisioning.{
  Writes, Response, save_certificate, complete, take_certificate, refuse_response,
  handle_provisioning_response,
}

-- the certificate of an answer that the device accepts
abbrev pub accepted : Option Response → Option String
accepted none = none
accepted (some r) = if r.success then r.certificate else none

module _ (nvs : Nvs) (healthy : IsHealthy nvs) where
  -- An error event touches no entry but the mask.
  pub set_error-get :
      (c : ErrorCode) (m : String) (s : Source) (w : World nvs) (key : String)
      → nvs.get (set_error nvs c m s [] w).flash "crypto_store" key
        ≡ nvs.get w.flash "crypto_store" key
  unfolding set_error save_mask
  set_error-get c m s w key = elim (Bool-cases w.app.ready) [
    | inl e ↦ simp (e, healthy.opens_all, nvs.get_commit, nvs.get_set) refl
    | inr e ↦ simp e refl
  ]

  unfoldable pub saved : String → World nvs → World nvs
  saved cert w = record w {
    flash = nvs.commit (nvs.set w.flash "crypto_store" "client_cert" (str cert)) "crypto_store";
  }

  pub save_certificate-saved :
      (a : Writes) (cert : String) (w : World nvs)
      → a.set_ok ≡ true
      → a.commit_ok ≡ true
      → save_certificate nvs a cert w ≡ (saved cert w, true)
  unfolding save_certificate saved
  save_certificate-saved a cert w set commit = simp (healthy.opens_all, set, commit) refl

  unfoldable pub erased : World nvs → World nvs
  erased w = record w {
    flash = nvs.commit (nvs.erase_key w.flash "crypto_store" "prov_token") "crypto_store";
  }

  pub complete-erased : (w : World nvs) → complete nvs (w, true) ≡ halted restart (erased w)
  unfolding complete erased
  complete-erased w = simp healthy.opens_all refl

  pub entry_completed :
      (cert : String) (w : World nvs) (key : String)
      → nvs.get (erased (saved cert w)).flash "crypto_store" key ≡ (
          if str_eq "prov_token" key
          then none
          else if str_eq "client_cert" key
          then some (str cert)
          else nvs.get w.flash "crypto_store" key)
  unfolding erased saved
  entry_completed cert w key = simp (nvs.get_commit, nvs.get_erase, nvs.get_set) refl

  -- A call that refuses, and leaves the credentials as they are.
  abbrev pub Refuses : World nvs → Outcome (World nvs) Bool → Type 0
  Refuses w o =
      (new : World nvs) × (o ≡ done false new)
      × ((key : String) → nvs.get new.flash "crypto_store" key ≡ nvs.get w.flash "crypto_store" key)

  refuse_response-Refuses : (msg : String) (w : World nvs) → Refuses w (refuse_response nvs msg w)
  unfolding refuse_response
  refuse_response-Refuses msg w = (
    set_error nvs provisioning_response_invalid msg
        (at "CryptoManager" "handleProvisioningResponse") [] w,
    refl,
    λ key.
        set_error-get provisioning_response_invalid msg
          (at "CryptoManager" "handleProvisioningResponse") w key,
  )

  refuses :
      (a : Writes) (b : Bool) (c : Option String) (w : World nvs)
      → (if b then c else none) ≡ none
      → Refuses w
          (handle_provisioning_response nvs a (some (record { success = b; certificate = c })) w)
  unfolding handle_provisioning_response take_certificate
  refuses a false c w e = refuse_response-Refuses "API return is not success." w
  refuses a true none w e = refuse_response-Refuses "Certified not found on field 'data'" w
  refuses a true (some d) w e = cc

  -- An answer that is not accepted restarts nothing: the call returns false, and every credential is
  -- as before.
  pub response_refused :
      (a : Writes) (r : Option Response) (w : World nvs)
      → accepted r ≡ none
      → Refuses w (handle_provisioning_response nvs a r w)
  unfolding handle_provisioning_response
  response_refused a none w e =
      refuse_response-Refuses "API provisioning response is not a valid JSON." w
  response_refused a (some r) w e = refuses a r.success r.certificate w e
