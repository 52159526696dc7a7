-- ===== src/Wifi/Waiting.antt =====
-- The wait for a connection ends within its time, and reports a connection only when there is one.
use governance_iot_platform.Prelude.{
  ℕ, zero, suc, ◌+◌, ◌-◌, ◌*◌, ◌≤◌, ◌<◌, leb, Bool, true, false, Option, none, some, ◌≡◌, refl,
  arith, Bool-cases, inl, inr, ◌⊎◌,
}
use governance_iot_platform.Device.State.{Wifi}
use governance_iot_platform.Wifi.{Round, max_wait_us, wait_loop, wait_for_connection, set_failure}

-- A round in which neither bit is set has waited for TICK_WAIT_MS.
abbrev pub IsPatient : ℕ → (ℕ → Round) → Type 0
IsPatient started rounds =
    (i : ℕ)
    → (rounds i).seen.connected_bit ≡ false
    → (rounds i).seen.fail_bit ≡ false
    → started + 500000 * suc i ≤ (rounds i).clock

-- The wait ends: with true if the station is connected, with false if it has failed.
abbrev pub IsAnswered : Option (Bool × Wifi) → Type 0
IsAnswered none = ⊥
IsAnswered (some (answer, f)) =
    ((answer ≡ true) × (f.connected_bit ≡ true)) ⊎ ((answer ≡ false) × (f.fail_bit ≡ true))

wait_loop-IsAnswered :
    (started fuel k : ℕ) (rounds : ℕ → Round)
    → ((i : ℕ)
        → (rounds i).seen.connected_bit ≡ false
        → (rounds i).seen.fail_bit ≡ false
        → started + 500000 * suc (i + k) ≤ (rounds i).clock)
    → 200 ≤ fuel + k
    → 0 < fuel
    → IsAnswered (wait_loop started fuel rounds)
unfolding wait_loop set_failure
wait_loop-IsAnswered started zero k rounds slow enough some_left = absurd (omega arith)
wait_loop-IsAnswered started (suc fuel) k rounds slow enough some_left =
    elim (Bool-cases (leb max_wait_us ((rounds 0).clock - started))) [
      | inl late ↦ rw late (inr (refl, refl))
      | inr early ↦ rw early (elim (Bool-cases (rounds 0).seen.connected_bit) [
        | inl up ↦ simp up (inl (refl, refl))
        | inr not_up ↦ simp not_up (elim (Bool-cases (rounds 0).seen.fail_bit) [
          | inl bad ↦ simp bad (inr (refl, refl))
          | inr not_bad ↦
              let passed = slow 0 not_up not_bad in
              simp not_bad (
                wait_loop-IsAnswered started fuel (suc k) (λ i. rounds (suc i))
                  (λ i a b. shift i _ (slow (suc i) a b)) (ground arith) (ground arith))
        ])
      ])
    ]
  where
    shift :
        (i c : ℕ) → started + 500000 * suc (suc i + k) ≤ c → started + 500000 * suc (i + suc k) ≤ c
    shift i c h = omega arith

-- If the event group exists and the clock of each round without a bit has advanced by half a second
-- for each round so far, 200 rounds are enough: the wait ends, with true only if the station is
-- connected and with false only if it is marked as failed.
pub wait_for_connection-IsAnswered :
    (started fuel : ℕ) (rounds : ℕ → Round) (f : Wifi)
    → f.event_group ≡ true
    → IsPatient started rounds
    → 200 ≤ fuel
    → IsAnswered (wait_for_connection started fuel rounds f)
unfolding wait_for_connection
wait_for_connection-IsAnswered started fuel rounds f made slow enough = rw made (
    wait_loop-IsAnswered started fuel 0 rounds (λ i a b. unshift i _ (slow i a b)) (omega arith)
      (omega arith))
  where
    unshift : (i c : ℕ) → started + 500000 * suc i ≤ c → started + 500000 * suc (i + 0) ≤ c
    unshift i c h = omega arith
