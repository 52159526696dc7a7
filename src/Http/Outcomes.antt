-- ===== src/Http/Outcomes.antt =====
-- Success and failure of a request
-- (perceptive-layer/mqtt_protobuff/FIRM_PROVISIONING_MQTT_PROTOBUFF/main/src/HttpService.cpp).
use governance_iot_platform.Prelude.{
  ℕ, ◌≤◌, ◌<◌, leb, ltb, String, Bool, true, false, ◌&&◌, List, [], ◌≡◌, refl, ◌∙◌, ◌⊎◌, inl, inr,
  arith, Bool-cases,
}
use mathlib.Core.List.{foldl}
use Prim.Native.String.{◌++◌ as text_append}
use governance_iot_platform.Nvs.{Nvs}
use governance_iot_platform.AppState
use governance_iot_platform.AppState.Codes.{
  http_init, http_request, http_request_fail, http_init_fail, ErrorCode, DeviceState,
}
use governance_iot_platform.AppState.{AppState}
use governance_iot_platform.Device.{World, transition, at, failure}
use governance_iot_platform.Device.Laws.{set_error-app}
use governance_iot_platform.Http.{
  Answer, status_code, client_error, HttpEvent, Request, http_event_handler, perform_request,
  conclude,
}

-- the answers that count as a success
abbrev pub IsGood : Bool → Answer → Type 0
IsGood false a = ⊥
IsGood true (status_code n) = (200 ≤ n) × (n < 300)
IsGood true (client_error name) = ⊥

-- the error that a failed request reports
abbrev pub error_of : Bool → ErrorCode
error_of false = http_init_fail
error_of true = http_request_fail

-- the state behind the transitions of a request
abbrev pub requested : Bool → AppState → AppState
requested false s = AppState.transition http_init s
requested true s = AppState.transition http_request (AppState.transition http_init s)

abbrev pub failed_with : Bool → String → AppState → AppState
failed_with created msg s =
    AppState.register (failure (error_of created) msg (at "HttpService" "perform_request") [])
      (requested created s)

-- A request succeeds and reports nothing, or it fails and its error is queued with its message.
abbrev pub Reported : Bool → Answer → AppState → Bool → String → AppState → Type 0
Reported created a before success msg after =
    ((success ≡ true) × IsGood created a × (after ≡ requested created before))
    ⊎ ((success ≡ false) × (¬ (IsGood created a)) × (after ≡ failed_with created msg before))

transition-ready : (d : DeviceState) (s : AppState) → (AppState.transition d s).ready ≡ s.ready
unfolding AppState.transition
transition-ready d s = ground arith

module _ (nvs : Nvs) (print : ℕ → String) where
  conclude-Reported :
      (a : Answer) (response : String) (w : World nvs)
      → w.app.ready ≡ true
      → Reported true a w.app
          (conclude nvs print a response
            (transition nvs http_request (transition nvs http_init w))).1
          (conclude nvs print a response
            (transition nvs http_request (transition nvs http_init w))).2
          (conclude nvs print a response
            (transition nvs http_request (transition nvs http_init w))).0.app
  unfolding conclude transition
  conclude-Reported (status_code n) response w r = elim (Bool-cases (leb 200 n && ltb n 300)) [
    | inl e ↦ rw e (inl (refl, (ground arith, ground arith), refl))
    | inr e ↦ rw e (
        inr (
          refl,
          λ good. ground arith,
          set_error-app nvs http_request_fail (text_append "HTTP Code: " (print n))
              (at "HttpService" "perform_request") []
              (transition nvs http_request (transition nvs http_init w)) ready_still,
        ))
  ]
    where
      ready_still : (requested true w.app).ready ≡ true
      ready_still =
          transition-ready http_request (AppState.transition http_init w.app)
          ∙ transition-ready http_init w.app
          ∙ r
  conclude-Reported (client_error name) response w r = inr (
    refl,
    λ good. good,
    set_error-app nvs http_request_fail (text_append "Falha no request HTTP: " name)
        (at "HttpService" "perform_request") []
        (transition nvs http_request (transition nvs http_init w))
        (transition-ready http_request (AppState.transition http_init w.app)
          ∙ transition-ready http_init w.app
          ∙ r),
  )

  -- A request succeeds exactly when the client is created and the service answers with a status from
  -- 200 to 299; then no event is queued. Otherwise one error event is queued, with the message that
  -- the caller is given. The errors are initialised.
  pub perform_request-Reported :
      (created : Bool) (events : List HttpEvent) (a : Answer) (r : Request) (w : World nvs)
      → w.app.ready ≡ true
      → Reported created a w.app
          (perform_request nvs print created events a r w).success
          (perform_request nvs print created events a r w).message
          (perform_request nvs print created events a r w).state.app
  unfolding perform_request transition
  perform_request-Reported false events a r w h = inr (
    refl,
    λ good. good,
    set_error-app nvs http_init_fail "Falha ao inicializar cliente HTTP"
        (at "HttpService" "perform_request") [] (transition nvs http_init w)
        (transition-ready http_init w.app ∙ h),
  )
  perform_request-Reported true events a r w h =
      conclude-Reported a (foldl http_event_handler "" events) w h
