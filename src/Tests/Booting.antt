-- ===== src/Tests/Booting.antt =====
-- The main loop on the device of the fixtures.
use governance_iot_platform.Prelude.{◌⊎◌, ℕ, true, false, none, some, [], ◌∷◌, ◌≡◌, refl}
use governance_iot_platform.AppState.Codes.{nvs_init, operational, mqtt_waiting_connect}
use governance_iot_platform.Nvs.{str, i32}
use governance_iot_platform.AppState
use governance_iot_platform.Device.{World}
use governance_iot_platform.Wifi.{Round, wait_loop}
use governance_iot_platform.Core.Boot.{flash_ok}
use governance_iot_platform.Core.Boot.Connect.{Network}
use governance_iot_platform.Core.Errors.{is_wifi_connected}
use governance_iot_platform.Core.Loop.{Turn, turn}
use governance_iot_platform.Core.Loop.Progress.{
  Reaches, turns, IsPublished, boot_reaches_broker, turn_publishes_queue,
}
use governance_iot_platform.Core.Power.{Battery, check_wake}
use governance_iot_platform.Core.Power.Wake.{has_recovered, Resumes, SleepsOn, wake_by_battery}
use governance_iot_platform.Core.Power.Streak.{Watches, readings, streak_hibernates}
use governance_iot_platform.Tests.Fixtures.{
  memory, memory-IsHealthy, Entries, blank, device, client, no_client, connected_station, timeout,
  surroundings,
}

abbrev pub round_after : ℕ → Round
round_after i = record { seen = connected_station; clock = 500000 }

abbrev pub network : Network
network = record {
  copy = λ n s. s;
  menu = record { wifi_ssid = "default"; wifi_password = ""; wifi_max_retries = 5 };
  max_retries = 5;
  started_at = 0;
  fuel = 200;
  rounds = round_after;
  mac = "00:11";
}

abbrev this_turn : Turn
this_turn = record {
  first_init = flash_ok;
  second_init = flash_ok;
  label = some "ota_0";
  network = network;
  time = record {
    persisted = none;
    external = some 1700000000;
    persists = true;
    refresh_every = 10;
    ntp = none;
  };
  sensors = some (some "bmp");
  audit = record {
    image = none;
    marked = true;
    sent = true;
    crashed = false;
    max_crash = 3;
    possible = true;
    reboots = true;
    last_invalid = none;
  };
  sleeps = false;
  wifi_later = connected_station;
  env = surroundings;
  mqtt = record { timer_created = true; client_created = true };
}

abbrev pub erase_all : Entries → Entries
erase_all f = blank

abbrev starting : World memory
starting = device nvs_init [] no_client

boot_reaches_broker_example :
    Reaches
      (λ w'. (w'.app.current ≡ mqtt_waiting_connect) × (w'.mqtt.client ≡ true))
      (turns memory erase_all 4 this_turn starting)
unfolding wait_loop
boot_reaches_broker_example =
    boot_reaches_broker memory erase_all memory-IsHealthy this_turn connected_station "cert" "key"
      starting refl refl refl
      (record {
        device_id = "dev";
        ssid = "net";
        version = "1.0";
        id_fits = record { short = refl; given = refl };
        ssid_fits = record { short = refl; given = refl };
        version_fits = record { short = refl; given = refl };
        id_stored = refl;
        ssid_stored = refl;
        version_stored = refl;
      })
      (record { not_inited = refl; not_initialized = refl })
      (record {
        at_state = refl;
        ready = refl;
        no_client = refl;
        not_started = refl;
        keys = record {
          cert_stored = refl;
          key_stored = refl;
          cert_given = refl;
          key_given = refl;
        };
      })

abbrev busy : World memory
busy = record (device operational (timeout ∷ []) client) { wifi = connected_station }

turn_publishes_queue_example :
    Reaches
      (IsPublished memory erase_all memory-IsHealthy this_turn busy)
      (turn memory erase_all this_turn busy)
unfolding AppState.has_queued_errors is_wifi_connected
turn_publishes_queue_example =
    turn_publishes_queue memory erase_all memory-IsHealthy this_turn busy (refl, tt) refl refl refl
      refl refl refl refl

abbrev battery : Battery
battery = record {
  critical_mv = 3300;
  hysteresis_mv = 200;
  critical_streak = 3;
  wake_interval_s = 600;
  sleeps = true;
}

abbrev hibernating : World memory
hibernating = record starting {
  flash = memory.set starting.flash "main_store" "hib_reason" (str "LOW_BATTERY");
}

wake_by_battery_example :
    ((has_recovered memory memory-IsHealthy battery 3400 ≡ true)
      × Resumes memory memory-IsHealthy (check_wake memory battery true (some 3400) hibernating))
    ⊎ ((has_recovered memory memory-IsHealthy battery 3400 ≡ false)
        × SleepsOn memory memory-IsHealthy (check_wake memory battery true (some 3400) hibernating))
wake_by_battery_example = wake_by_battery memory memory-IsHealthy battery 3400 hibernating refl

abbrev low_device : World memory
low_device = record busy { flash = memory.set busy.flash "main_store" "low_bat_streak" (i32 1) }

streak_hibernates_example :
    Watches memory memory-IsHealthy surroundings true 2
      (readings memory memory-IsHealthy surroundings battery (λ n. "{}") (3200 ∷ []) low_device)
    × SleepsOn memory memory-IsHealthy (
        readings memory memory-IsHealthy surroundings battery
          (λ n. "{}")
          (3200 ∷ 3250 ∷ [])
          low_device)
streak_hibernates_example =
    streak_hibernates memory memory-IsHealthy surroundings battery (λ n. "{}") (3200 ∷ []) 3250
      low_device refl (refl, tt) refl
