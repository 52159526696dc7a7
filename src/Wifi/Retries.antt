-- ===== src/Wifi/Retries.antt =====
-- How often the station tries again, and what it reports in the end.
use governance_iot_platform.Prelude.{
  ℕ, ◌+◌, ◌≤◌, ◌<◌, true, false, List, [], ◌∷◌, length, ◌≡◌, refl, sym, subst, arith,
}
use governance_iot_platform.Device.State.{Wifi, connecting, failed}
use governance_iot_platform.Wifi.{
  Reason, classify, set_failure, set_success, exhausted_reason, on_disconnected, WifiEvent,
  sta_start, got_ip, sta_disconnected, other_event, event_handler,
}

-- Events, in order, and how many connections the driver is asked for after disconnections.
unfoldable pub run : List WifiEvent → Wifi → Wifi
run [] f = f
run (e ∷ es) f = run es (event_handler e f).0

event_handler-retries :
    (e : WifiEvent) (f : Wifi)
    → f.retry_count ≤ f.final_retries
    → ((event_handler e f).0.retry_count ≤ (event_handler e f).0.final_retries)
      × ((event_handler e f).0.final_retries ≡ f.final_retries)
unfolding event_handler on_disconnected set_success
event_handler-retries sta_start f h = ground arith
event_handler-retries got_ip f h = ground arith
event_handler-retries (sta_disconnected r) f h = ground arith
event_handler-retries other_event f h = ground arith

-- From a state whose retries are within their limit, whatever the driver reports, they stay so.
pub run-retries :
    (es : List WifiEvent) (f : Wifi)
    → f.retry_count ≤ f.final_retries
    → (run es f).retry_count ≤ (run es f).final_retries
unfolding run
run-retries [] f h = h
run-retries (e ∷ es) f h = run-retries es _ (event_handler-retries e f h).0

abbrev pub losses : List Reason → List WifiEvent
losses [] = []
losses (r ∷ rs) = sta_disconnected r ∷ losses rs

abbrev retried : Wifi → Wifi
retried f = record f { status = connecting; retry_count = f.retry_count + 1; connected_bit = false }

one_loss :
    (x : Reason) (f : Wifi)
    → f.status ≡ connecting
    → f.retry_count < f.final_retries
    → (on_disconnected x f).0 ≡ retried f
unfolding on_disconnected
one_loss x f c h = ground arith

last_loss :
    (r : Reason) (f : Wifi)
    → f.status ≡ connecting
    → f.retry_count ≡ f.final_retries
    → let g = (on_disconnected r f).0 in
      (g.status ≡ failed)
      × (g.fail_reason ≡ exhausted_reason (classify r))
      × (g.fail_bit ≡ true)
      × (g.connected_bit ≡ false)
unfolding on_disconnected set_failure
last_loss r f c n = ground arith

-- The station is at its limit, and fails for the reason of the next loss, with the bits to say so.
abbrev pub IsExhausted : ℕ → Reason → Wifi → Type 0
IsExhausted limit r f =
    (f.status ≡ connecting)
    × (f.retry_count ≡ limit)
    × ((on_disconnected r f).0.status ≡ failed)
    × ((on_disconnected r f).0.fail_reason ≡ exhausted_reason (classify r))
    × ((on_disconnected r f).0.fail_bit ≡ true)
    × ((on_disconnected r f).0.connected_bit ≡ false)

-- A station that is connecting and loses its connection as often as it has retries left is still
-- connecting, at its limit; the next loss makes it fail for the reason of that loss, with its fail
-- bit set and its connected bit clear.
pub losses_exhaust :
    (rs : List Reason) (r : Reason) (f : Wifi)
    → f.status ≡ connecting
    → f.retry_count + length rs ≡ f.final_retries
    → IsExhausted f.final_retries r (run (losses rs) f)
unfolding run event_handler
losses_exhaust [] r f c n =
    let l = last_loss r f c (omega arith) in (c, omega arith, l.0, l.1, l.2, l.3)
losses_exhaust (x ∷ rs) r f c n =
    subst (λ g. IsExhausted f.final_retries r (run (losses rs) g))
      (sym (one_loss x f c (omega arith))) (losses_exhaust rs r (retried f) refl (omega arith))
