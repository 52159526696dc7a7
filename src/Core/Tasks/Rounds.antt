-- ===== src/Core/Tasks/Rounds.antt =====
-- The rounds of the tasks in any order
-- (perceptive-layer/mqtt_protobuff/governance_core/src/governance_core.cpp).
use governance_iot_platform.Prelude.{ℕ, true, none, some, List, [], ◌∷◌, ◌++◌, ◌≡◌, ◌⊎◌, inl, inr}
use governance_iot_platform.Nvs.{Nvs}
use governance_iot_platform.AppState.{AppState}
use governance_iot_platform.Device.State.{Mqtt, Outcome, done, ◌>>=◌}
use governance_iot_platform.Core.Publish.{Surroundings}
use governance_iot_platform.Core.Tasks.{
  Reading, Message, Settings, State, starts_with, telemetry_round, status_round, publisher_round,
}

-- What may happen next: a round of a task, the first one with readings, or a change of the device's
-- state and of its connection by other tasks.
pub data Step (V : Type 0) : Type 0 where
  telemetry_step : Reading V → List (Reading V) → Step V
  status_step : Step V
  publisher_step : Step V
  others : AppState → Mqtt → Step V

-- One of these messages has a topic with this prefix.
abbrev pub Has : {V : Type 0} → List ℕ → List (Message V) → Type 0
Has prefix [] = ⊥
Has prefix (m ∷ ms) = (starts_with prefix m.topic ≡ true) ⊎ Has prefix ms

module _ (nvs : Nvs) {V : Type 0} (c : Settings V) (env : Surroundings) where
  pub Has-later :
      (prefix : List ℕ) (ms : List (Message V)) (m : Message V)
      → Has prefix ms
      → Has prefix (ms ++ m ∷ [])
  Has-later prefix [] m h = absurd h
  Has-later prefix (x ∷ ms) m (inl h) = inl h
  Has-later prefix (x ∷ ms) m (inr h) = inr (Has-later prefix ms m h)

  pub Has-last :
      (prefix : List ℕ) (ms : List (Message V)) (m : Message V)
      → starts_with prefix m.topic ≡ true
      → Has prefix (ms ++ m ∷ [])
  Has-last prefix [] m h = inl h
  Has-last prefix (x ∷ ms) m h = inr (Has-last prefix ms m h)

  unfoldable pub round : Step V → State nvs c env → Outcome (State nvs c env) (Unit {0})
  unfolding telemetry_round status_round publisher_round
  round (telemetry_step r rs) s = telemetry_round nvs c env (some (r ∷ rs)) none s
  round status_step s = status_round nvs c env s
  round publisher_step s = publisher_round nvs c env s
  round (others app mqtt) (w, box) = done tt (record w { app = app; mqtt = mqtt }, box)

  unfoldable pub run : List (Step V) → State nvs c env → Outcome (State nvs c env) (Unit {0})
  unfolding round
  run [] s = done tt s
  run (x ∷ xs) s = (round x >>= λ _. run xs) s
