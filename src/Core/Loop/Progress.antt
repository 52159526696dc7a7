-- ===== src/Core/Loop/Progress.antt =====
-- What the main loop reaches: from the start of a provisioned device to its connection to the broker,
-- and from errors that wait in OPERATIONAL back to OPERATIONAL.
use governance_iot_platform.Prelude.{
  All, ℕ, zero, suc, String, true, false, ◌&&◌, if◌then◌else◌, Option, none, some, [], ◌++◌, map,
  ◌≡◌, refl, sym, ap, subst, ◌∙◌,
}
use mathlib.Core.List.{reverse}
use governance_iot_platform.Nvs.{Nvs, IsHealthy}
use governance_iot_platform.AppState.Codes.{
  DeviceState, nvs_init, wifi_connecting, time_sync, mqtt_init, mqtt_waiting_connect, error,
  operational,
}
use governance_iot_platform.AppState
use governance_iot_platform.AppState.{AppState, is_error_active}
use governance_iot_platform.Device.{World, transition}
use governance_iot_platform.Device.State.{Wifi, Outcome, done, halted}
use governance_iot_platform.Wifi.{wait_loop}
use governance_iot_platform.Core.Publish.{error_message}
use governance_iot_platform.Core.Errors.{handle_error, is_wifi_connected}
use governance_iot_platform.Core.Errors.Drain.{IsFitting, handle_error_publishes_queue, publication}
use governance_iot_platform.Core.Boot.{flash_ok}
use governance_iot_platform.Core.Loop.{Turn, is_operational, waited, redirect, dispatch, turn}
use governance_iot_platform.Core.Loop.Identity.{
  HasIdentity, IsAt, IsFresh, nvs_init_goes, nvs_init-IsFresh,
}
use Prim.Native.String.{◌++◌ as text_append}
use governance_iot_platform.Core.Loop.Clock.{time_sync_goes}
use governance_iot_platform.Core.Loop.Stages.{Arrives, wifi_goes, mqtt_init_goes}

-- The loop has taken its turns, none of which waits without end or stops the chip, and the state has
-- the property.
abbrev pub Reaches : {S : Type 0} → (S → Type 0) → Option (Outcome S (Unit {0})) → Type 0
Reaches P none = ⊥
Reaches P (some (done x w)) = P w
Reaches P (some (halted stop w)) = ⊥

module _ (nvs : Nvs) (erase : nvs.Flash → nvs.Flash) where
  abbrev pub next_turn :
      (World nvs → Option (Outcome (World nvs) (Unit {0})))
      → Option (Outcome (World nvs) (Unit {0}))
      → Option (Outcome (World nvs) (Unit {0}))
  next_turn f none = none
  next_turn f (some (done x w)) = f w
  next_turn f (some (halted stop w)) = some (halted stop w)

  -- so many turns of the main loop
  unfoldable pub turns : ℕ → Turn → World nvs → Option (Outcome (World nvs) (Unit {0}))
  turns zero t w = some (done tt w)
  turns (suc n) t w = next_turn (turns n t) (turn nvs erase t w)

  module _ (healthy : IsHealthy nvs) where
    redirect_idle :
        (w : World nvs) → is_operational w.app.current ≡ false → redirect nvs erase w ≡ w
    unfolding redirect
    redirect_idle w e = rw e refl

    turn_at :
        (d : DeviceState) (t : Turn) (cert key : String) (w : World nvs)
        → is_operational d ≡ false
        → IsAt nvs healthy d cert key w
        → turn nvs erase t w ≡ dispatch nvs erase d t w
    unfolding turn
    turn_at d t cert key w o i =
        ap (λ v. dispatch nvs erase v.app.current t v)
          (redirect_idle w (ap is_operational i.at_state ∙ o))
        ∙ ap (λ s. dispatch nvs erase s t w) i.at_state

    step :
        (P : World nvs → Type 0) (n : ℕ) (t : Turn) (w : World nvs)
        (o : Option (Outcome (World nvs) (Unit {0})))
        → turn nvs erase t w ≡ o
        → Reaches P (next_turn (turns n t) o)
        → Reaches P (turns (suc n) t w)
    unfolding turns
    step P n t w o e = subst (λ x. Reaches P (next_turn (turns n t) x)) (sym e)

    abbrev IsWaiting : World nvs → Type 0
    IsWaiting w = (w.app.current ≡ mqtt_waiting_connect) × (w.mqtt.client ≡ true)

    from_mqtt_init :
        (t : Turn) (cert key : String) (w : World nvs)
        → t.mqtt.client_created ≡ true
        → IsAt nvs healthy mqtt_init cert key w
        → Reaches IsWaiting (turns 1 t w)
    unfolding dispatch turns
    from_mqtt_init t cert key w made i =
        step IsWaiting 0 t w _ (turn_at mqtt_init t cert key w refl i)
          (mqtt_init_goes nvs healthy t.mqtt cert key w made i)

    from_time_sync :
        (t : Turn) (cert key : String) (w : World nvs)
        → t.mqtt.client_created ≡ true
        → IsAt nvs healthy time_sync cert key w
        → Reaches IsWaiting (turns 2 t w)
    unfolding dispatch
    from_time_sync t cert key w made i =
        step IsWaiting 1 t w _ (turn_at time_sync t cert key w refl i)
          (from_mqtt_init t cert key _ made (time_sync_goes nvs healthy t.time cert key w i))

    from_wait :
        (t : Turn) (cert key : String) (o : Option (World nvs))
        → t.mqtt.client_created ≡ true
        → Arrives nvs healthy (IsAt nvs healthy time_sync cert key) o
        → Reaches IsWaiting (next_turn (turns 2 t) (waited nvs erase o))
    from_wait t cert key none made a = absurd a
    from_wait t cert key (some w) made i = from_time_sync t cert key w made i

    from_wifi :
        (t : Turn) (f : Wifi) (cert key : String) (w : World nvs)
        → t.mqtt.client_created ≡ true
        → wait_loop t.network.started_at t.network.fuel t.network.rounds ≡ some (true, f)
        → IsFresh nvs healthy w
        → IsAt nvs healthy wifi_connecting cert key w
        → Reaches IsWaiting (turns 3 t w)
    unfolding dispatch
    from_wifi t f cert key w made up fresh i =
        step IsWaiting 2 t w _ (turn_at wifi_connecting t cert key w refl i)
          (from_wait t cert key _ made (wifi_goes nvs healthy t.network f cert key w up fresh i))

    -- With an identity that fits its buffers, a certificate and a key in flash, an NVS that is
    -- initialised at once and opens, a station that connects within the wait, and an ESP-IDF that
    -- gives an MQTT client, a device that starts in NVS_INIT, with the mutex and without a station or an MQTT client, has in four turns
    -- of the main loop an MQTT client and waits for its connection, whatever the sources of time
    -- answer.
    pub boot_reaches_broker :
        (t : Turn) (f : Wifi) (cert key : String) (w : World nvs)
        → t.first_init ≡ flash_ok
        → t.mqtt.client_created ≡ true
        → wait_loop t.network.started_at t.network.fuel t.network.rounds ≡ some (true, f)
        → HasIdentity nvs healthy w.flash
        → IsFresh nvs healthy w
        → IsAt nvs healthy nvs_init cert key w
        → Reaches
            (λ w'. (w'.app.current ≡ mqtt_waiting_connect) × (w'.mqtt.client ≡ true))
            (turns 4 t w)
    unfolding dispatch
    boot_reaches_broker t f cert key w ok made up h fresh i =
        step IsWaiting 3 t w _ (turn_at nvs_init t cert key w refl i) (
          from_wifi t f cert key _ made up
            (nvs_init-IsFresh nvs healthy erase t cert w ok h i.keys.cert_stored fresh)
            (nvs_init_goes nvs healthy erase t cert key w ok h i))

    abbrev errored : World nvs → World nvs
    errored w = record w { app = record w.app { previous = w.app.current; current = error } }

    redirect_queued :
        (w : World nvs)
        → w.app.current ≡ operational
        → w.app.ready ≡ true
        → AppState.has_queued_errors w.app ≡ true
        → redirect nvs erase w ≡ errored w
    unfolding redirect transition AppState.transition
    redirect_queued w o r q =
        ap (λ b. if b && AppState.has_queued_errors w.app then transition nvs error w else w)
          (ap is_operational o)
        ∙ ap (λ b. if b then transition nvs error w else w) q
        ∙ ap (λ b. record w { app = if b then (errored w).app else w.app }) r

    turn_queued :
        (t : Turn) (w : World nvs)
        → w.app.current ≡ operational
        → w.app.ready ≡ true
        → AppState.has_queued_errors w.app ≡ true
        → turn nvs erase t w
          ≡ some (done tt (handle_error nvs t.env t.sleeps t.wifi_later (errored w)))
    unfolding turn dispatch
    turn_queued t w o r q = ap (λ v. dispatch nvs erase v.app.current t v) (redirect_queued w o r q)

    -- The queue of `w` has been published, oldest first, on the topic of the device.
    abbrev pub IsPublished : Turn → World nvs → World nvs → Type 0
    IsPublished t w w' =
        (w'.app.current ≡ operational)
        × (w'.app.error_queue ≡ [])
        × (w'.effects
            ≡ reverse (
                map (publication nvs t.env w (text_append "error/" w.core.device_id))
                  w.app.error_queue)
              ++ w.effects)

    -- In a firmware that does not sleep, events that wait in OPERATIONAL are all published in one turn
    -- of the main loop, oldest first, if both connections are up, the MQTT client and the mutex exist
    -- and the message of each event that is queued fits its buffer of 512 bytes, details included; the device is in OPERATIONAL again, with an empty queue.
    pub turn_publishes_queue :
        (t : Turn) (w : World nvs)
        → All (IsFitting nvs t.env w) w.app.error_queue
        → t.sleeps ≡ false
        → w.app.current ≡ operational
        → w.app.ready ≡ true
        → AppState.has_queued_errors w.app ≡ true
        → is_wifi_connected w.wifi ≡ true
        → w.mqtt.is_connected ≡ true
        → w.mqtt.client ≡ true
        → Reaches (IsPublished t w) (turn nvs erase t w)
    unfolding error_message AppState.has_queued_errors
    turn_publishes_queue t w fits awake o r q wifi mqtt client =
        let sent =
          handle_error_publishes_queue nvs t.env t.wifi_later (errored w) fits q wifi mqtt client
            r in
        subst (Reaches (IsPublished t w))
          (sym (
            turn_queued t w o r q
            ∙ ap (λ b. some (done tt (handle_error nvs t.env b t.wifi_later (errored w)))) awake))
          (sent.2, sent.1, sent.0)
