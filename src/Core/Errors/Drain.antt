-- ===== src/Core/Errors/Drain.antt =====
-- The queue is published oldest first, each event once, and the device goes back to OPERATIONAL.
use governance_iot_platform.Prelude.{
  ℕ, zero, suc, ◌≤◌, String, true, false, some, List, [], ◌∷◌, ◌++◌, length, ◌≡◌, refl, sym, ap,
  All, ◌∙◌, arith,
}
use mathlib.Core.List.{reverse, reverse-cons, append_assoc, map}
use governance_iot_platform.Nvs.{Nvs}
use governance_iot_platform.AppState.Codes.{AppError, operational}
use governance_iot_platform.AppState
use governance_iot_platform.Device.{World, transition, emit}
use governance_iot_platform.Device.State.{Wifi, Effect, publish, error_payload}
use governance_iot_platform.Mqtt.{publish_payload}
use governance_iot_platform.Core.Publish.{
  Surroundings, publish_proto_error, error_message, fitting_error,
}
use governance_iot_platform.Core.Errors.{drain, reset_cycle, handle_error, is_wifi_connected}
use Prim.Native.String.{◌++◌ as text_append}

module _ (nvs : Nvs) (env : Surroundings) where
  -- the publication of an event that fits its buffer
  abbrev pub publication : World nvs → String → AppError → Effect
  publication w topic e = publish topic (error_payload (error_message nvs env e w)) 1

  -- The message of an event, whole, fits its buffer of 512 bytes.
  abbrev pub IsFitting : World nvs → AppError → Type 0
  IsFitting w e = env.encodes 512 (error_payload (error_message nvs env e w)) ≡ true

  fitting :
      (e : AppError) (w : World nvs)
      → IsFitting w e
      → fitting_error env.encodes (error_message nvs env e w)
        ≡ some (error_payload (error_message nvs env e w))
  unfolding fitting_error
  fitting e w fits = rw fits

  publish_fitting :
      (topic : String) (e : AppError) (w : World nvs)
      → IsFitting w e
      → w.mqtt.client ≡ true
      → publish_proto_error nvs env topic (error_message nvs env e w) w
        ≡ emit nvs (publication w topic e) w
  unfolding publish_proto_error publish_payload
  publish_fitting topic e w fits c = ground (arith, fitting e w fits)

  abbrev with_queue : List AppError → World nvs → World nvs
  with_queue q w = record w { app = record w.app { error_queue = q } }

  drain_lem :
      (fuel : ℕ) (topic : String) (q : List AppError) (w : World nvs)
      → All (IsFitting w) q
      → w.mqtt.client ≡ true
      → length q ≤ fuel
      → drain nvs env fuel topic (with_queue q w)
        ≡ record (with_queue [] w) { effects = reverse (map (publication w topic) q) ++ w.effects }
  unfolding drain AppState.pop_error AppState.has_queued_errors error_message
  drain_lem zero topic [] w fits c h = refl
  drain_lem zero topic (e ∷ q) w fits c h = absurd (omega arith)
  drain_lem (suc fuel) topic [] w fits c h = refl
  drain_lem (suc fuel) topic (e ∷ q) w fits c h =
      ap (drain nvs env fuel topic) (publish_fitting topic e (with_queue q w) fits.0 c)
      ∙ drain_lem fuel topic q (emit nvs (publication w topic e) w) fits.1 c (omega arith)
      ∙ ap (λ r. record (with_queue [] w) { effects = r })
          (sym (
            ap (λ r. r ++ w.effects)
              (reverse-cons (publication w topic e) (map (publication w topic) q))
            ∙ append_assoc (reverse (map (publication w topic) q)) (publication w topic e ∷ [])
                w.effects))

  -- With both connections up and messages that fit their buffers, `handle_error` publishes the
  -- whole queue on the topic of the device, oldest first, leaves it empty, and goes back to
  -- OPERATIONAL.
  pub handle_error_publishes_queue :
      (later : Wifi) (w : World nvs)
      → All (IsFitting w) w.app.error_queue
      → AppState.has_queued_errors w.app ≡ true
      → is_wifi_connected w.wifi ≡ true
      → w.mqtt.is_connected ≡ true
      → w.mqtt.client ≡ true
      → w.app.ready ≡ true
      → let w' = handle_error nvs env false later w in
        (w'.effects
          ≡ reverse (map (publication w (text_append "error/" w.core.device_id)) w.app.error_queue)
            ++ w.effects)
        × (w'.app.error_queue ≡ [])
        × (w'.app.current ≡ operational)
        × (w'.app.active_error_mask ≡ w.app.active_error_mask)
  unfolding handle_error reset_cycle transition AppState.transition
  handle_error_publishes_queue later w fits queued wifi mqtt client ready =
      simp (queued, wifi, mqtt)
        (simp
          (
            drain_lem (length w.app.error_queue) (text_append "error/" w.core.device_id)
                w.app.error_queue w fits client (omega arith),
            ready,
          )
          (refl, refl, refl, refl))
