-- ===== src/Provisioning/Steps.antt =====
-- One activation (perceptive-layer/mqtt_protobuff/FIRM_PROVISIONING_MQTT_PROTOBUFF/main/main.cpp,
-- handle_provisioning): its steps, when each of them succeeds, and the flash behind them.
use governance_iot_platform.Prelude.{
  ℕ, leb, ltb, String, Bool, true, false, ◌&&◌, if◌then◌else◌, Option, none, some, List, ◌∷◌, ◌≡◌,
  refl, ap, ◌∙◌, str_eq,
}
use mathlib.Core.List.{foldl}
use governance_iot_platform.Nvs.{Nvs, IsHealthy, Value, str}
use governance_iot_platform.AppState.Codes.{http_init, http_request}
use governance_iot_platform.Device.{World, transition}
use governance_iot_platform.Device.State.{halted, restart}
use governance_iot_platform.Crypto.Provisioning as Credentials
use governance_iot_platform.Crypto.Provisioning.{
  Writes, KeyAnswers, save_to_nvs, generate_csr, write_csr, provisioning_request, take_certificate,
  save_certificate, complete,
}
use governance_iot_platform.Crypto.Response.{
  saved, erased, complete-erased, save_certificate-saved, entry_completed,
}
use governance_iot_platform.Http
use governance_iot_platform.Http.{Answer, status_code, http_event_handler, Performed}
use governance_iot_platform.Provisioning.{
  Progress, Activation, Answers, set_clock, adopt_time, handle_provisioning_response, finish,
  consume, is_blank, activate, handle_provisioning,
}

-- the body of the service's answer
abbrev pub body : Answers → String
body a = foldl http_event_handler "" a.events

-- Every step of an activation succeeds: the flash takes its writes, a key and a request are made, and
-- the service answers with a status of success and with a certificate.
pub record Succeeds (a : Answers) (act : Activation) (cert csr : String) (status : ℕ) : Type 0 where
  pub set_ok : a.writes.set_ok ≡ true
  pub commit_ok : a.writes.commit_ok ≡ true
  pub allocated : a.keys.allocated ≡ true
  pub generated : a.keys.generated ≡ true
  pub subject_set : a.keys.subject_set ≡ true
  pub csr_made : a.keys.csr_pem ≡ some csr
  pub csr_filled : str_eq csr "" ≡ false
  pub created : a.client_created ≡ true
  pub answered : a.http_answer ≡ status_code status
  pub good : (leb 200 status && ltb status 300) ≡ true
  pub parsed : a.parse (body a) ≡ some act
  pub confirmed : act.response.success ≡ true
  pub certified : act.response.certificate ≡ some cert

module _ (nvs : Nvs) (healthy : IsHealthy nvs) where
  unfoldable pub keyed : String → World nvs → World nvs
  keyed pem w = record w {
    flash = nvs.commit (nvs.set w.flash "crypto_store" "private_key" (str pem)) "crypto_store";
  }

  save_to_nvs-keyed :
      (a : Writes) (pem : String) (w : World nvs)
      → a.set_ok ≡ true
      → a.commit_ok ≡ true
      → save_to_nvs nvs a "private_key" pem w ≡ (keyed pem w, true)
  unfolding save_to_nvs keyed
  save_to_nvs-keyed a pem w set commit = simp (healthy.opens_all, set, commit) refl

  generate_csr-keyed :
      (a : Answers) (act : Activation) (cert csr : String) (status : ℕ) (w : World nvs)
      → Succeeds a act cert csr status
      → generate_csr nvs a.writes a.keys w ≡ (keyed a.keys.private_pem w, csr)
  unfolding generate_csr write_csr
  generate_csr-keyed a act cert csr status w h =
      simp
        (
          h.allocated,
          h.generated,
          h.subject_set,
          h.csr_made,
          save_to_nvs-keyed a.writes a.keys.private_pem w h.set_ok h.commit_ok,
        )
        refl

  -- the state in which the answer of the service is read
  abbrev requested : World nvs → World nvs
  requested w = transition nvs http_request (transition nvs http_init w)

  abbrev pub activated : Answers → Bool → Activation → String → World nvs → World nvs
  activated a synced act cert w = erased nvs healthy (
      saved nvs healthy cert
        (adopt_time nvs a synced act.timestamp (requested (keyed a.keys.private_pem w))))

  abbrev post : Answers → List ℕ → World nvs → Performed (World nvs)
  post a request w =
      Http.post nvs a.print a.client_created a.events a.http_answer a.provisioning_url
        (a.as_text request) (some "application/json") none w

  record IsPosted (p : Performed (World nvs)) (w : World nvs) (response : String) : Type 0 where
    success : p.success ≡ true
    state : p.state ≡ requested w
    answer : p.response ≡ response

  post-IsPosted :
      (a : Answers) (act : Activation) (cert csr : String) (status : ℕ) (request : List ℕ)
      (w : World nvs)
      → Succeeds a act cert csr status
      → IsPosted (post a request w) w (body a)
  unfolding Http.post Http.perform_request Http.conclude
  post-IsPosted a act cert csr status request w h = record {
    success = simp (h.created, h.answered, h.good) refl;
    state = simp (h.created, h.answered, h.good) refl;
    answer = simp (h.created, h.answered) refl;
  }

  consume-IsPosted :
      (a : Answers) (synced : Bool) (p : Performed (World nvs)) (w : World nvs) (response : String)
      → IsPosted p w response
      → consume nvs a synced p
        ≡ finish nvs (handle_provisioning_response nvs a synced (a.parse response) (requested w))
  unfolding consume
  consume-IsPosted a synced p w response h = simp (h.success, h.answer, h.state) refl

  response-halts :
      (a : Answers) (act : Activation) (cert csr : String) (status : ℕ) (synced : Bool)
      (w : World nvs)
      → Succeeds a act cert csr status
      → finish nvs (handle_provisioning_response nvs a synced (a.parse (body a)) w)
        ≡ halted restart
            (erased nvs healthy (saved nvs healthy cert (adopt_time nvs a synced act.timestamp w)))
  unfolding handle_provisioning_response take_certificate finish
  response-halts a act cert csr status synced w h =
      let timed = adopt_time nvs a synced act.timestamp w in
      simp
        (
          h.parsed,
          h.confirmed,
          h.certified,
          save_certificate-saved nvs healthy a.writes cert timed h.set_ok h.commit_ok,
        )
        (ap (finish nvs) (complete-erased nvs healthy (saved nvs healthy cert timed)))

  activate-halts :
      (a : Answers) (act : Activation) (cert csr : String) (status : ℕ) (w : World nvs)
      (synced : Bool) (c : ℕ) (request : List ℕ)
      → Succeeds a act cert csr status
      → activate nvs a synced (w, c ∷ request)
        ≡ halted restart (
            erased nvs healthy
              (saved nvs healthy cert (adopt_time nvs a synced act.timestamp (requested w))))
  unfolding activate is_blank
  activate-halts a act cert csr status w synced c request h =
      consume-IsPosted a synced (post a (c ∷ request) w) w (body a)
        (post-IsPosted a act cert csr status (c ∷ request) w h)
      ∙ response-halts a act cert csr status synced (requested w) h

  pub handle_provisioning-halts :
      (a : Answers) (act : Activation) (cert csr : String) (status : ℕ) (w : World nvs)
      (p : Progress)
      → Succeeds a act cert csr status
      → handle_provisioning nvs a (w, p) ≡ halted restart (activated a p.time_synced act cert w)
  unfolding handle_provisioning Credentials.handle_provisioning provisioning_request
  handle_provisioning-halts a act cert csr status w p h =
      simp (generate_csr-keyed a act cert csr status w h, h.csr_filled)
        (activate-halts a act cert csr status (keyed a.keys.private_pem w) p.time_synced _ _ h)

  set_clock-flash :
      (rtc : Bool) (o : Option ℕ) (w : World nvs) → (set_clock nvs rtc o w).flash ≡ w.flash
  unfolding set_clock
  set_clock-flash rtc none w = refl
  set_clock-flash rtc (some epoch) w = refl

  adopt_time-flash :
      (a : Answers) (synced : Bool) (t : Option String) (w : World nvs)
      → (adopt_time nvs a synced t w).flash ≡ w.flash
  unfolding adopt_time
  adopt_time-flash a true t w = refl
  adopt_time-flash a false none w = refl
  adopt_time-flash a false (some t) w = set_clock-flash a.rtc_present (a.parse_time t) w

  -- the credentials behind an activation
  abbrev pub entry_behind : Answers → String → World nvs → String → Option Value
  entry_behind a cert w key =
      if str_eq "prov_token" key
      then none
      else if str_eq "client_cert" key
      then some (str cert)
      else if str_eq "private_key" key
      then some (str a.keys.private_pem)
      else nvs.get w.flash "crypto_store" key

  pub activated-get :
      (a : Answers) (synced : Bool) (act : Activation) (cert : String) (w : World nvs)
      (key : String)
      → nvs.get (activated a synced act cert w).flash "crypto_store" key ≡ entry_behind a cert w key
  unfolding keyed transition
  activated-get a synced act cert w key =
      simp (entry_completed nvs healthy, adopt_time-flash, nvs.get_commit, nvs.get_set) refl
