-- ===== src/Mqtt/Subscriptions.antt =====
-- The list of subscriptions holds each topic once, and a reconnection asks for all of them again.
use governance_iot_platform.Prelude.{
  ℕ, String, str_eq, Bool, true, false, ◌||◌, List, [], ◌∷◌, ◌++◌, ◌≡◌, refl, sym, ap, ◌∙◌, arith,
  eq_iff,
}
use mathlib.Core.List.{reverse, reverse-cons, append_assoc, map}
use governance_iot_platform.Nvs.{Nvs}
use governance_iot_platform.AppState.Codes.{error, mqtt_disconnected}
use governance_iot_platform.AppState.{is_error_active}
use governance_iot_platform.Device.{World, emit, set_error, resolve_error, transition}
use governance_iot_platform.Device.Laws.{
  settle_self, settle-ready, transition-active, transition-current, resolve_error-app,
  resolve_error-effects,
}
use governance_iot_platform.Device.State.{Effect, subscribe, stop_timer}
use governance_iot_platform.Mqtt.{is_subscribed, subscribe_topic, resubscribe_all, on_connected}

-- No topic stands twice.
abbrev pub IsDistinct : List (String × ℕ) → Type 0
IsDistinct [] = Unit {0}
IsDistinct ((t, q) ∷ rest) = (is_subscribed t rest ≡ false) × IsDistinct rest

is_subscribed-append :
    (t : String) (xs : List (String × ℕ)) (u : String) (q : ℕ)
    → is_subscribed t (xs ++ (u, q) ∷ []) ≡ (is_subscribed t xs || str_eq u t)
is_subscribed-append t [] u q = ground arith
is_subscribed-append t ((v, p) ∷ xs) u q = ground (arith, is_subscribed-append t xs u q)

IsDistinct-append :
    (xs : List (String × ℕ)) (t : String) (q : ℕ)
    → is_subscribed t xs ≡ false
    → IsDistinct xs
    → IsDistinct (xs ++ (t, q) ∷ [])
IsDistinct-append [] t q new d = (refl, tt)
IsDistinct-append ((u, p) ∷ xs) t q new d =
    ground (arith, is_subscribed-append u xs t q, IsDistinct-append xs t q, eq_iff t u, eq_iff u t)

module _ (nvs : Nvs) where
  -- `subscribe` keeps the topics distinct, and afterwards the topic is among them if the client
  -- exists, also when the broker refuses it.
  pub subscribe-IsDistinct :
      (sent : Bool) (topic : String) (qos : ℕ) (w : World nvs)
      → w.mqtt.client ≡ true
      → IsDistinct w.mqtt.subscriptions
      → let l = (subscribe_topic nvs sent topic qos w).mqtt.subscriptions in
        IsDistinct l × (is_subscribed topic l ≡ true)
  unfolding subscribe_topic set_error
  subscribe-IsDistinct sent topic qos w c d = ground (
    arith,
    IsDistinct-append w.mqtt.subscriptions topic qos,
    is_subscribed-append topic w.mqtt.subscriptions topic qos,
    eq_iff topic topic,
  )

  abbrev pub as_effect : String × ℕ → Effect
  as_effect s = subscribe s.0 s.1

  resubscribe_all_lem :
      (l : List (String × ℕ)) (w : World nvs)
      → (resubscribe_all nvs l w).effects ≡ reverse (map as_effect l) ++ w.effects
  unfolding resubscribe_all
  resubscribe_all_lem [] w = refl
  resubscribe_all_lem ((t, q) ∷ l) w =
      resubscribe_all_lem l (emit nvs (subscribe t q) w)
      ∙ sym (
          ap (λ r. r ++ w.effects) (reverse-cons (subscribe t q) (map as_effect l))
          ∙ append_assoc (reverse (map as_effect l)) (subscribe t q ∷ []) w.effects)

  resubscribe_all-app :
      (l : List (String × ℕ)) (w : World nvs) → (resubscribe_all nvs l w).app ≡ w.app
  unfolding resubscribe_all
  resubscribe_all-app [] w = refl
  resubscribe_all-app ((t, q) ∷ l) w = resubscribe_all-app l (emit nvs (subscribe t q) w)

  reconnected :
      (l : List (String × ℕ)) (w : World nvs)
      → w.app.ready ≡ true
      → let w' =
          transition nvs error (resolve_error nvs mqtt_disconnected (resubscribe_all nvs l w)) in
        (w'.effects ≡ reverse (map as_effect l) ++ w.effects)
        × (w'.app.current ≡ error)
        × (is_error_active mqtt_disconnected w'.app ≡ false)
  unfolding transition
  reconnected l w ready =
      let w2 = resubscribe_all nvs l w in
      let settled = resolve_error-app nvs mqtt_disconnected w2 in
      (
        resolve_error-effects nvs mqtt_disconnected w2 ∙ resubscribe_all_lem l w,
        simp (settled, resubscribe_all-app l w)
            (transition-current error _ (settle-ready mqtt_disconnected w.app ∙ ready)),
        simp settled
            (transition-active mqtt_disconnected error _ ∙ settle_self mqtt_disconnected w2.app),
      )

  -- Once the mutex exists, a connection after the first of the boot stops the timer, asks for every
  -- subscription again, in order, and goes to ERROR, and MQTT_DISCONNECTED is no longer active.
  pub reconnection_resubscribes :
      (w : World nvs)
      → w.mqtt.boot_audited ≡ true
      → w.app.ready ≡ true
      → ((on_connected nvs w).effects
          ≡ reverse (map as_effect w.mqtt.subscriptions) ++ stop_timer ∷ w.effects)
        × ((on_connected nvs w).app.current ≡ error)
        × (is_error_active mqtt_disconnected (on_connected nvs w).app ≡ false)
  unfolding on_connected
  reconnection_resubscribes w audited ready = rw audited (reconnected w.mqtt.subscriptions _ ready)
