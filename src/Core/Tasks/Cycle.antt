-- ===== src/Core/Tasks/Cycle.antt =====
-- The cycle of a sleeping firmware
-- (perceptive-layer/mqtt_protobuff/governance_core/src/governance_core.cpp): the rounds of its tasks
-- in any order.
use governance_iot_platform.Prelude.{
  ℕ, Bool, true, false, not, ◌&&◌, none, some, List, [], ◌∷◌, ◌++◌, ◌≡◌, refl, sym, subst, ◌⊎◌, inl,
  inr, Bool-cases, arith,
}
use governance_iot_platform.Prelude.Text.{codes}
use governance_iot_platform.Nvs.{Nvs}
use governance_iot_platform.Device.{World}
use governance_iot_platform.Device.State.{Stop, Outcome, done, halted, ◌>>=◌}
use governance_iot_platform.Core.Publish.{Surroundings}
use governance_iot_platform.Core.Power.{enter_deep_sleep, watch_battery}
use governance_iot_platform.Core.Loop.{is_operational}
use governance_iot_platform.Core.Tasks.{
  Reading, Message, Mailbox, Settings, State, starts_with, queue_send, send_encoded, note_published,
  set_telemetry_published, set_status_published, telemetry_message, status_message, check_battery,
  send_telemetry, collect, telemetry_round, status_round, publish_next, end_cycle, publisher_round,
}
use governance_iot_platform.Core.Tasks.Rounds.{
  Step, Has, telemetry_step, status_step, publisher_step, others, Has-later, Has-last, round, run,
}

module _ (nvs : Nvs) {V : Type 0} (c : Settings V) (env : Surroundings) where
  -- A flag is set only after a message of its topic was published.
  abbrev Noted : Bool → List ℕ → Mailbox V → Type 0
  Noted flag prefix box = (flag ≡ false) ⊎ Has prefix box.published

  record IsSound (w : World nvs) (box : Mailbox V) : Type 0 where
    telemetry_noted : Noted w.core.telemetry_published (codes "telemetry/") box
    status_noted : Noted w.core.status_published (codes "status/") box

  abbrev After : Outcome (State nvs c env) (Unit {0}) → Type 0
  After (done _ (w, box)) = IsSound w box
  After (halted _ (w, box)) =
      Has (codes "telemetry/") box.published × Has (codes "status/") box.published

  send_encoded-published :
      (m : Message V) (box : Mailbox V) → (send_encoded c.encodes m box).published ≡ box.published
  unfolding send_encoded queue_send
  send_encoded-published m box = ground arith

  send-IsSound :
      (m : Message V) (w : World nvs) (box : Mailbox V)
      → IsSound w box
      → IsSound w (send_encoded c.encodes m box)
  send-IsSound m w box h = record {
    telemetry_noted =
        subst (λ ms. (w.core.telemetry_published ≡ false) ⊎ Has (codes "telemetry/") ms)
          (sym (send_encoded-published m box)) h.telemetry_noted;
    status_noted =
        subst (λ ms. (w.core.status_published ≡ false) ⊎ Has (codes "status/") ms)
          (sym (send_encoded-published m box)) h.status_noted;
  }

  pub check_battery-none : (w : World nvs) → check_battery nvs c env none w ≡ done tt w
  unfolding check_battery watch_battery
  check_battery-none w = elim (Bool-cases c.hibernates) [ inl e ↦ rw e refl | inr e ↦ rw e refl ]

  telemetry_round-After :
      (r : Reading V) (rs : List (Reading V)) (w : World nvs) (box : Mailbox V)
      → IsSound w box
      → After (telemetry_round nvs c env (some (r ∷ rs)) none (w, box))
  unfolding telemetry_round collect send_telemetry
  telemetry_round-After r rs w box h =
      elim (Bool-cases
        (is_operational w.app.current && not (c.sleeps && w.core.telemetry_published))) [
          | inl e ↦
              simp (e, check_battery-none w)
                (send-IsSound (telemetry_message nvs c env (r ∷ rs) w) w box h)
          | inr e ↦ simp e h
        ]

  status_round-After :
      (w : World nvs) (box : Mailbox V) → IsSound w box → After (status_round nvs c env (w, box))
  unfolding status_round
  status_round-After w box h =
      elim (Bool-cases
        (is_operational w.app.current && not (c.sleeps && w.core.status_published))) [
          | inl e ↦ simp e (send-IsSound (status_message nvs c env w) w box h)
          | inr e ↦ simp e h
        ]

  note_published-IsSound :
      (m : Message V) (w : World nvs) (box : Mailbox V) (queue : List (Message V))
      → IsSound w box
      → IsSound
          (note_published nvs c env m w)
          (record { queue = queue; published = box.published ++ m ∷ [] })
  unfolding note_published set_telemetry_published set_status_published
  note_published-IsSound m w box queue h = elim (Bool-cases c.sleeps) [
    | inr awake ↦
        rw awake (record { telemetry_noted = later_telemetry; status_noted = later_status })
    | inl sleepy ↦ elim (Bool-cases (starts_with (codes "telemetry/") m.topic)) [
      | inl t ↦
          rw (sleepy, t)
            (record {
              telemetry_noted = inr (Has-last nvs c env (codes "telemetry/") box.published m t);
              status_noted = later_status;
            })
      | inr no_t ↦ elim (Bool-cases (starts_with (codes "status/") m.topic)) [
        | inl t ↦
            rw (sleepy, no_t, t)
              (record {
                telemetry_noted = later_telemetry;
                status_noted = inr (Has-last nvs c env (codes "status/") box.published m t);
              })
        | inr no_s ↦
            rw (sleepy, no_t, no_s)
              (record { telemetry_noted = later_telemetry; status_noted = later_status })
      ]
    ]
  ]
    where
      later :
          (flag : Bool) (prefix : List ℕ)
          → Noted flag prefix box
          → (flag ≡ false) ⊎ Has prefix (box.published ++ m ∷ [])
      later flag prefix (inl e) = inl e
      later flag prefix (inr has) = inr (Has-later nvs c env prefix box.published m has)

      later_telemetry :
          (w.core.telemetry_published ≡ false) ⊎ Has (codes "telemetry/") (box.published ++ m ∷ [])
      later_telemetry = later w.core.telemetry_published (codes "telemetry/") h.telemetry_noted

      later_status :
          (w.core.status_published ≡ false) ⊎ Has (codes "status/") (box.published ++ m ∷ [])
      later_status = later w.core.status_published (codes "status/") h.status_noted

  publish_next-IsSound :
      (queue : List (Message V)) (w : World nvs) (box : Mailbox V)
      → IsSound w box
      → IsSound (publish_next nvs c env queue (w, box)).0 (publish_next nvs c env queue (w, box)).1
  unfolding publish_next
  publish_next-IsSound [] w box h = h
  publish_next-IsSound (m ∷ queue) w box h =
      elim (Bool-cases (is_operational w.app.current && w.mqtt.is_connected)) [
        | inl e ↦ simp e (note_published-IsSound m w box queue h)
        | inr e ↦
            simp e (record { telemetry_noted = h.telemetry_noted; status_noted = h.status_noted })
      ]

  Noted-true :
      (flag : Bool) (prefix : List ℕ) (box : Mailbox V)
      → flag ≡ true
      → Noted flag prefix box
      → Has prefix box.published
  Noted-true flag prefix box e (inl no_flag) = cc
  Noted-true flag prefix box e (inr has) = has

  end_cycle-After :
      (w : World nvs) (box : Mailbox V) → IsSound w box → After (end_cycle nvs c env (w, box))
  unfolding end_cycle enter_deep_sleep
  end_cycle-After w box h =
      elim (Bool-cases (c.sleeps && w.core.telemetry_published && w.core.status_published)) [
        | inl e ↦ simp e (
          Noted-true w.core.telemetry_published (codes "telemetry/") box (ground arith)
              h.telemetry_noted,
          Noted-true w.core.status_published (codes "status/") box (ground arith) h.status_noted,
        )
        | inr e ↦ simp e h
      ]

  round-After :
      (x : Step V) (w : World nvs) (box : Mailbox V)
      → IsSound w box
      → After (round nvs c env x (w, box))
  unfolding round publisher_round
  round-After (telemetry_step r rs) w box h = telemetry_round-After r rs w box h
  round-After status_step w box h = status_round-After w box h
  round-After publisher_step w box h =
      end_cycle-After (publish_next nvs c env box.queue (w, box)).0
        (publish_next nvs c env box.queue (w, box)).1 (publish_next-IsSound box.queue w box h)
  round-After (others app mqtt) w box h = record {
    telemetry_noted = h.telemetry_noted;
    status_noted = h.status_noted;
  }

  then_run :
      (xs : List (Step V)) (o : Outcome (State nvs c env) (Unit {0}))
      → ((w : World nvs) (box : Mailbox V) → IsSound w box → After (run nvs c env xs (w, box)))
      → After o
      → (s : State nvs c env) → After (((λ (t : State nvs c env). o) >>= λ _. run nvs c env xs) s)
  then_run xs (done t (w, box)) k h s = k w box h
  then_run xs (halted r (w, box)) k h s = h

  run-After :
      (xs : List (Step V)) (w : World nvs) (box : Mailbox V)
      → IsSound w box
      → After (run nvs c env xs (w, box))
  unfolding run
  run-After [] w box h = h
  run-After (x ∷ xs) w box h =
      then_run xs (round nvs c env x (w, box)) (λ w' box' h'. run-After xs w' box' h')
        (round-After x w box h) (w, box)

  -- In whatever order the rounds of the three tasks and the changes by other tasks come, while the
  -- collections give readings and no battery is watched: the tasks put the device to sleep only after
  -- they published a telemetry message and a status message.
  pub sleep_after_both :
      (xs : List (Step V)) (w : World nvs) (queue : List (Message V)) {s : Stop} {w' : World nvs}
      {box' : Mailbox V}
      → w.core.telemetry_published ≡ false
      → w.core.status_published ≡ false
      → run nvs c env xs (w, record { queue = queue; published = [] }) ≡ halted s (w', box')
      → Has (codes "telemetry/") box'.published × Has (codes "status/") box'.published
  sleep_after_both xs w queue t s e = subst After e (
      run-After xs w (record { queue = queue; published = [] })
        (record { telemetry_noted = inl t; status_noted = inl s }))
