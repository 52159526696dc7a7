-- ===== src/AppState/Backlog.antt =====
-- The queue of error events: what `setError` drops, and how long the queue can grow.
use governance_iot_platform.Prelude.{
  ℕ, zero, suc, ◌+◌, ◌-◌, ◌^◌, ◌≤◌, ◌<◌, ◌==◌, leb, Bool, true, false, not, ◌&&◌, if◌then◌else◌,
  ◌≡◌, refl, ap, ◌∙◌, arith, List, [], ◌∷◌, ◌++◌, length, drop, length-append, length-drop, sym,
  ==_iff, Bool-cases, inl, inr, bit_and,
}
use governance_iot_platform.Prelude.Bits.{test_bit}
use governance_iot_platform.AppState.Codes.{DeviceState, ErrorCode, error_index, AppError}
use governance_iot_platform.AppState.{
  AppState, drop_oldest, register, settle, pop_error, transition, is_error_active, resolution,
  max_error_queue,
}
use governance_iot_platform.AppState.Activity.{
  error_index-lt, clear_bit, is_error_active_lem, settle_inactive, settle_active,
}

-- the loop of `setError` leaves the newest 31 events
drop_oldest_lem : (q : List AppError) → drop_oldest q ≡ drop (length q - 31) q
unfolding drop_oldest
drop_oldest_lem [] = refl
drop_oldest_lem (e ∷ q) = elim (Bool-cases (leb 32 (length (e ∷ q)))) [
  | inl full ↦ rw full (drop_oldest_lem q ∙ ap (λ n. drop n (e ∷ q)) (sym (enough full)))
  | inr short ↦ rw short (ap (λ n. drop n (e ∷ q)) (sym (few short)))
]
  where
    enough : leb 32 (length (e ∷ q)) ≡ true → length (e ∷ q) - 31 ≡ suc (length q - 31)
    enough h = ground arith

    few : leb 32 (length (e ∷ q)) ≡ false → length (e ∷ q) - 31 ≡ 0
    few h = ground arith

length-drop_oldest : (q : List AppError) → length (drop_oldest q) ≤ 31
length-drop_oldest q = rw drop_oldest_lem (omega (arith, length-drop (length q - 31) q))

-- How many of 1 .. n satisfy a test.
pub count : (ℕ → Bool) → ℕ → ℕ
count f zero = 0
count f (suc n) = let rest = count f n in if f (suc n) then suc rest else rest

count-le : (f : ℕ → Bool) (n : ℕ) → count f n ≤ n
unfolding count
count-le f zero = omega arith
count-le f (suc n) = ground (arith, count-le f n)

count_above :
    (f g : ℕ → Bool) (i n : ℕ)
    → ((j : ℕ) → j ≤ n → g j ≡ (f j && not (i == j)))
    → n < i
    → count g n ≡ count f n
unfolding count
count_above f g i zero h lt = refl
count_above f g i (suc n) h lt =
    ground (arith, h (suc n) (omega arith), count_above f g i n (λ j le. h j (omega arith)))

-- Clearing one set digit lowers the count by one.
count_clear :
    (f g : ℕ → Bool) (i n : ℕ)
    → ((j : ℕ) → j ≤ n → g j ≡ (f j && not (i == j)))
    → 0 < i
    → i ≤ n
    → f i ≡ true
    → count g n + 1 ≡ count f n
unfolding count
count_clear f g i zero h pos le e = absurd (omega arith)
count_clear f g i (suc n) h pos le e = elim (Bool-cases (i == suc n)) [
  | inl here ↦ ground (
    arith,
    h (suc n) (omega arith),
    count_above f g i n (λ j le'. h j (omega arith)) (ground arith),
    ap f ((==_iff i (suc n)).0 here),
  )
  | inr below ↦ ground (
    arith,
    h (suc n) (omega arith),
    count_clear f g i n (λ j le'. h j (omega arith)) pos (ground arith) e,
  )
]

-- How many error codes are active.
pub active_errors : AppState → ℕ
active_errors s = count (λ j. test_bit s.active_error_mask j) 31

-- Each active error can add one resolution to the queue, later.
abbrev pub IsBounded : AppState → Type 0
IsBounded s = length s.error_queue + active_errors s ≤ 63

-- `setError` bounds the queue whatever it was
pub register-IsBounded : (e : AppError) (s : AppState) → IsBounded (register e s)
unfolding register active_errors
register-IsBounded e s = omega (
  arith,
  length-append (drop_oldest s.error_queue) (e ∷ []),
  length-drop_oldest s.error_queue,
  count-le (λ j. test_bit (register e s).active_error_mask j) 31,
)

settle-IsBounded : (r : ErrorCode) (s : AppState) → IsBounded s → IsBounded (settle r s).0
unfolding settle active_errors
settle-IsBounded r s h = elim (Bool-cases (is_error_active r s)) [
  | inl was ↦
      rw (settle_active r s was)
        (omega (arith, length-append s.error_queue (resolution r ∷ []), fewer was))
  | inr not_active ↦ rw (settle_inactive r s not_active) h
]
  where
    fewer :
        is_error_active r s ≡ true
        → count (λ j. test_bit (bit_and s.active_error_mask (2 ^ 32 - 1 - 2 ^ error_index r)) j) 31
            + 1
          ≡ active_errors s
    fewer was =
        count_clear (λ j. test_bit s.active_error_mask j) _ (error_index r) 31
          (λ j le. clear_bit s.active_error_mask (error_index r) j (error_index-lt r) (omega arith))
          (ground (arith, is_error_active_lem r s)) (omega (arith, error_index-lt r))
          (ground (arith, is_error_active_lem r s))

-- `setError` keeps the newest 31 events, in order, and puts its own last.
pub register-queue :
    (e : AppError) (s : AppState)
    → (register e s).error_queue ≡ drop (length s.error_queue - 31) s.error_queue ++ e ∷ []
unfolding register
register-queue e s = rw drop_oldest_lem

-- The calls that change the state, in any order.
pub data Call : Type 0 where
  registers : AppError → Call
  settles : ErrorCode → Call
  pops : Call
  transitions : DeviceState → Call

unfoldable pub step : Call → AppState → AppState
step (registers e) s = register e s
step (settles c) s = (settle c s).0
step pops s = (pop_error s).0
step (transitions d) s = transition d s

unfoldable pub run : List Call → AppState → AppState
run [] s = s
run (c ∷ cs) s = run cs (step c s)

step-IsBounded : (c : Call) (s : AppState) → IsBounded s → IsBounded (step c s)
unfolding step pop_error transition active_errors
step-IsBounded (registers e) s h = register-IsBounded e s
step-IsBounded (settles r) s h = settle-IsBounded r s h
step-IsBounded pops s h = ground arith
step-IsBounded (transitions d) s h = ground arith

run-IsBounded : (cs : List Call) (s : AppState) → IsBounded s → IsBounded (run cs s)
unfolding run
run-IsBounded [] s h = h
run-IsBounded (c ∷ cs) s h = run-IsBounded cs (step c s) (step-IsBounded c s h)

-- After any calls on a state whose queue holds at most 32 events, the queue holds at most 63.
pub run-queue_bounded :
    (cs : List Call) (s : AppState) → length s.error_queue ≤ 32 → length (run cs s).error_queue ≤ 63
unfolding active_errors
run-queue_bounded cs s h =
    omega
      (arith, run-IsBounded cs s (omega (arith, count-le (λ j. test_bit s.active_error_mask j) 31)))

-- When the queue is full, resolving an active error still grows it past `MAX_ERROR_QUEUE`.
pub settle_passes_limit :
    (r : ErrorCode) (s : AppState)
    → is_error_active r s ≡ true
    → length s.error_queue ≡ max_error_queue
    → length (settle r s).0.error_queue ≡ max_error_queue + 1
settle_passes_limit r s was full =
    rw (settle_active r s was) (omega (arith, length-append s.error_queue (resolution r ∷ [])))
