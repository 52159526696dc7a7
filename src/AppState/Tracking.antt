-- ===== src/AppState/Tracking.antt =====
-- What the mask says after calls of any kind
-- (perceptive-layer/mqtt_protobuff/governance_core/src/AppState.cpp).
use governance_iot_platform.Prelude.{
  ◌==◌, Bool, true, false, not, ◌&&◌, ◌||◌, if◌then◌else◌, List, [], ◌∷◌, ◌≡◌, refl, ap, ◌∙◌, arith,
}
use governance_iot_platform.AppState.Codes.{ErrorCode, error_index}
use governance_iot_platform.AppState.{AppState, is_error_active, pop_error, transition}
use governance_iot_platform.AppState.Activity.{
  is_error_active_lem, is_error_active-register, is_error_active-settle,
}
use governance_iot_platform.AppState.Backlog.{
  Call, registers, settles, pops, transitions, step, run,
}

abbrev is_code : ErrorCode → ErrorCode → Bool
is_code c d = not (error_index c == 0) && error_index d == error_index c

-- The word that a list of calls has on a code: that of the last report or resolution of this code,
-- and `before` when there is none.
pub last_word : ErrorCode → List Call → Bool → Bool
last_word c [] before = before
last_word c (registers e ∷ ks) before = last_word c ks (if is_code c e.code then true else before)
last_word c (settles r ∷ ks) before = last_word c ks (if is_code c r then false else before)
last_word c (pops ∷ ks) before = last_word c ks before
last_word c (transitions d ∷ ks) before = last_word c ks before

-- NONE is never active, so that a resolution of it changes nothing.
settled :
    (r : ErrorCode) (s : AppState) (c : ErrorCode)
    → (is_error_active c s && not (error_index r == error_index c))
      ≡ (if is_code c r then false else is_error_active c s)
settled r s c = ground (arith, is_error_active_lem c s)

one_call :
    (k : Call) (s : AppState) (c : ErrorCode)
    → is_error_active c (step k s) ≡ last_word c (k ∷ []) (is_error_active c s)
unfolding last_word step pop_error transition is_error_active
one_call (registers e) s c = is_error_active-register e s c ∙ reported
  where
    reported :
        (is_error_active c s || is_code c e.code)
        ≡ (if is_code c e.code then true else is_error_active c s)
    reported = ground arith
one_call (settles r) s c = is_error_active-settle r s c ∙ settled r s c
one_call pops s c = ground arith
one_call (transitions d) s c = ground arith

last_word_cons :
    (c : ErrorCode) (k : Call) (ks : List Call) (b : Bool)
    → last_word c ks (last_word c (k ∷ []) b) ≡ last_word c (k ∷ ks) b
unfolding last_word
last_word_cons c (registers e) ks b = refl
last_word_cons c (settles r) ks b = refl
last_word_cons c pops ks b = refl
last_word_cons c (transitions d) ks b = refl

-- After any reports, resolutions, pops and transitions, a code is active exactly if the last report or
-- resolution of it is a report, or if there is none and it was active before.
pub is_error_active-run :
    (ks : List Call) (s : AppState) (c : ErrorCode)
    → is_error_active c (run ks s) ≡ last_word c ks (is_error_active c s)
unfolding run last_word
is_error_active-run [] s c = refl
is_error_active-run (k ∷ ks) s c =
    is_error_active-run ks (step k s) c
    ∙ ap (last_word c ks) (one_call k s c)
    ∙ last_word_cons c k ks _
