-- ===== src/Tests/Events.antt =====
-- Errors, the broker and the station.
use governance_iot_platform.Prelude.{
  ℕ, zero, suc, ◌*◌, ◌≤◌, true, false, some, List, [], ◌∷◌, ◌++◌, map, length, ◌≡◌, refl, ◌⊎◌,
  arith,
}
use mathlib.Core.List.{reverse}
use governance_iot_platform.AppState.Tracking.{last_word, is_error_active-run}
use governance_iot_platform.Nvs.{u32}
use governance_iot_platform.AppState.Codes.{
  error, operational, wifi_timeout, ota_fail, mqtt_disconnected, error_index,
}
use governance_iot_platform.AppState
use governance_iot_platform.AppState.Codes.{AppError}
use governance_iot_platform.AppState.{AppState, is_error_active, register, settle, max_error_queue}
use governance_iot_platform.AppState.Backlog.{registers, settles, pops, run, run-queue_bounded}
use governance_iot_platform.Device.{World, failure, at}
use governance_iot_platform.Device.Persist
use governance_iot_platform.Device.Race.{Shared, Reach, saves_cross}
use governance_iot_platform.Device.State.{stop_timer, Wifi, connecting}
use governance_iot_platform.Mqtt.{on_connected, subscribe_topic, is_subscribed}
use governance_iot_platform.Mqtt.Outage.{
  disconnects, timer_fires, outage, unreachable, outage_reports_once,
}
use governance_iot_platform.Mqtt.Subscriptions.{
  IsDistinct, as_effect, subscribe-IsDistinct, reconnection_resubscribes,
}
use governance_iot_platform.Wifi.{
  Round, wait_for_connection, no_ap_found, beacon_timeout, auth_fail,
}
use governance_iot_platform.Wifi.Waiting.{IsAnswered, wait_for_connection-IsAnswered}
use governance_iot_platform.Wifi.Retries
use governance_iot_platform.Wifi.Retries.{losses, IsExhausted, run-retries, losses_exhaust}
use governance_iot_platform.Tests.Fixtures.{
  memory, memory-IsHealthy, app_at, timeout, station, device, client,
}

abbrev calm : AppState
calm = app_at operational [] 0

-- an update that failed
abbrev failed : AppError
failed = failure ota_fail "no" (at "OtaManager" "download_OTA") []

abbrev late : AppState
late = app_at error (timeout ∷ []) 0

run-queue_bounded_example :
    length (run (registers timeout ∷ settles wifi_timeout ∷ pops ∷ []) calm).error_queue ≤ 63
run-queue_bounded_example =
    run-queue_bounded (registers timeout ∷ settles wifi_timeout ∷ pops ∷ []) calm (omega arith)

is_error_active-run_example :
    is_error_active wifi_timeout
      (run (registers timeout ∷ registers failed ∷ settles wifi_timeout ∷ pops ∷ []) late)
    ≡ last_word wifi_timeout
        (registers timeout ∷ registers failed ∷ settles wifi_timeout ∷ pops ∷ [])
        (is_error_active wifi_timeout late)
is_error_active-run_example =
    is_error_active-run (registers timeout ∷ registers failed ∷ settles wifi_timeout ∷ pops ∷ [])
      late wifi_timeout

abbrev timeouts : ℕ → List AppError
timeouts zero = []
timeouts (suc n) = timeout ∷ timeouts n

abbrev full : AppState
full = app_at error (timeouts 32) 32

abbrev idle_device : World memory
idle_device = device operational [] client

abbrev saved_device : World memory
saved_device = record idle_device {
  flash = memory.set idle_device.flash "error_store" "active_mask" (u32 0);
}

abbrev reports : List (Persist.Report memory)
reports = Persist.sets wifi_timeout "late" (at "GOV_CORE" "handle_wifi_connecting") [] ∷ []

abbrev failed_update : AppError
failed_update = failure ota_fail "download" (at "CommandProcessor" "ota_task_routine") []

abbrev shared : Shared memory
shared = record { app = calm; flash = idle_device.flash; pending = [] }

saves_cross_example :
    (t : Shared memory) × Reach memory shared t
    × (t.pending ≡ [])
    × (is_error_active ota_fail t.app ≡ true)
    × (m : ℕ) × (memory.get t.flash "error_store" "active_mask" ≡ some (u32 m))
    × (is_error_active ota_fail (AppState.restore_mask m t.app) ≡ false)
unfolding is_error_active AppState.register AppState.error_bit error_index
saves_cross_example =
    saves_cross memory memory-IsHealthy timeout failed_update shared refl refl refl

outage_reports_once_example :
    ((outage memory (disconnects ∷ timer_fires ∷ disconnects ∷ []) idle_device).app
      ≡ idle_device.app)
    ⊎ ((outage memory (disconnects ∷ timer_fires ∷ disconnects ∷ []) idle_device).app
        ≡ AppState.register (unreachable memory) idle_device.app)
outage_reports_once_example =
    outage_reports_once memory (disconnects ∷ timer_fires ∷ disconnects ∷ []) idle_device refl refl

subscribe-IsDistinct_example :
    let l = (subscribe_topic memory true "news" 1 idle_device).mqtt.subscriptions in
    IsDistinct l × (is_subscribed "news" l ≡ true)
subscribe-IsDistinct_example = subscribe-IsDistinct memory true "news" 1 idle_device refl (refl, tt)

reconnection_resubscribes_example :
    ((on_connected memory idle_device).effects
      ≡ reverse (map (as_effect memory) idle_device.mqtt.subscriptions)
        ++ stop_timer ∷ idle_device.effects)
    × ((on_connected memory idle_device).app.current ≡ error)
    × (is_error_active mqtt_disconnected (on_connected memory idle_device).app ≡ false)
reconnection_resubscribes_example = reconnection_resubscribes memory idle_device refl refl

abbrev rounds : ℕ → Round
rounds i = record { seen = record station { event_group = true }; clock = 500000 * suc i }

wait_for_connection-IsAnswered_example :
    IsAnswered (wait_for_connection 0 200 rounds (record station { event_group = true }))
wait_for_connection-IsAnswered_example =
    wait_for_connection-IsAnswered 0 200 rounds (record station { event_group = true }) refl
      (λ i a b. omega arith) (omega arith)

abbrev trying : Wifi
trying = record station { status = connecting }

losses_exhaust_example :
    IsExhausted 2 auth_fail (Retries.run (losses (no_ap_found ∷ beacon_timeout ∷ [])) trying)
losses_exhaust_example =
    losses_exhaust (no_ap_found ∷ beacon_timeout ∷ []) auth_fail trying refl refl

run-retries_example :
    (Retries.run (losses (no_ap_found ∷ no_ap_found ∷ no_ap_found ∷ [])) trying).retry_count
    ≤ (Retries.run (losses (no_ap_found ∷ no_ap_found ∷ no_ap_found ∷ [])) trying).final_retries
run-retries_example =
    run-retries (losses (no_ap_found ∷ no_ap_found ∷ no_ap_found ∷ [])) trying (omega arith)
