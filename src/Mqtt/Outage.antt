-- ===== src/Mqtt/Outage.antt =====
-- A broker that cannot be reached is reported once, however long it lasts.
use governance_iot_platform.Prelude.{
  true, false, List, [], ◌∷◌, ◌≡◌, refl, sym, subst, ◌∙◌, ◌⊎◌, inl, inr, arith,
}
use governance_iot_platform.Nvs.{Nvs}
use governance_iot_platform.AppState.Codes.{mqtt_disconnected, AppError}
use governance_iot_platform.AppState
use governance_iot_platform.Device.{World, at, failure, set_error}
use governance_iot_platform.Mqtt.{
  event_disconnected, event_error, reconnect_timer_cb, schedule_reconnect, on_lost,
  mqtt_event_handler, try_reconnect,
}

module _ (nvs : Nvs) where
  -- What can happen to the connection while it is down.
  pub data Down : Type 0 where
    disconnects errors timer_fires retries : Down

  unfoldable pub down : Down → World nvs → World nvs
  down disconnects w = mqtt_event_handler nvs (λ t p w. w) event_disconnected w
  down errors w = mqtt_event_handler nvs (λ t p w. w) event_error w
  down timer_fires w = reconnect_timer_cb nvs w
  down retries w = try_reconnect nvs w

  unfoldable pub outage : List Down → World nvs → World nvs
  outage [] w = w
  outage (d ∷ ds) w = outage ds (down d w)

  -- the one report of an outage
  abbrev pub unreachable : AppError
  unreachable =
      failure mqtt_disconnected "Broker MQTT inacessível após 5 tentativas de reconexão"
        (at "MqttManager" "schedule_reconnect") []

  down_reported :
      (d : Down) (w : World nvs)
      → w.mqtt.error_reported ≡ true
      → ((down d w).mqtt.error_reported ≡ true) × ((down d w).app ≡ w.app)
  unfolding down mqtt_event_handler on_lost reconnect_timer_cb schedule_reconnect try_reconnect
  down_reported disconnects w h = ground arith
  down_reported errors w h = ground arith
  down_reported timer_fires w h = ground arith
  down_reported retries w h = ground arith

  outage_reported :
      (ds : List Down) (w : World nvs) → w.mqtt.error_reported ≡ true → (outage ds w).app ≡ w.app
  unfolding outage
  outage_reported [] w h = refl
  outage_reported (d ∷ ds) w h =
      let (still, same) = down_reported d w h in outage_reported ds (down d w) still ∙ same

  down_unreported :
      (d : Down) (w : World nvs)
      → w.app.ready ≡ true
      → w.mqtt.error_reported ≡ false
      → (((down d w).mqtt.error_reported ≡ false) × ((down d w).app ≡ w.app))
        ⊎ (((down d w).mqtt.error_reported ≡ true)
            × ((down d w).app ≡ AppState.register unreachable w.app))
  unfolding down mqtt_event_handler on_lost reconnect_timer_cb schedule_reconnect try_reconnect
      set_error
  down_unreported disconnects w r h = ground arith
  down_unreported errors w r h = ground arith
  down_unreported timer_fires w r h = ground arith
  down_unreported retries w r h = ground arith

  -- Once the mutex exists, from a state that has not reported it, whatever disconnections, errors, timer ticks and retries
  -- come before the next connection, in any order and number: the device's state is as it was, or
  -- differs by one report of MQTT_DISCONNECTED.
  pub outage_reports_once :
      (ds : List Down) (w : World nvs)
      → w.app.ready ≡ true
      → w.mqtt.error_reported ≡ false
      → ((outage ds w).app ≡ w.app) ⊎ ((outage ds w).app ≡ AppState.register unreachable w.app)
  unfolding outage
  outage_reports_once [] w r h = inl refl
  outage_reports_once (d ∷ ds) w r h = elim (down_unreported d w r h) [
    | inl (still, same) ↦
        subst
          (λ a.
            ((outage ds (down d w)).app ≡ a)
            ⊎ ((outage ds (down d w)).app ≡ AppState.register unreachable a))
          same (outage_reports_once ds (down d w) (subst (λ a. a.ready ≡ true) (sym same) r) still)
    | inr (told, once) ↦ inr (outage_reported ds (down d w) told ∙ once)
  ]
