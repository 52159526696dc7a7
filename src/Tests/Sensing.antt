-- ===== src/Tests/Sensing.antt =====
-- The readings of the operational firmware, and the cycle of a sleeping one.
use governance_iot_platform.Prelude.{ℕ, ◌*◌, ltb, true, none, some, List, [], ◌∷◌, ◌≡◌, refl, arith}
use governance_iot_platform.Prelude.Text.{codes}
use governance_iot_platform.AppState.Codes.{operational}
use governance_iot_platform.Device.{World}
use governance_iot_platform.Sensors.Hooks.{Float, Sensed, my_read_telemetry}
use governance_iot_platform.Sensors.Steps.{IsInside, all_readings}
use governance_iot_platform.Sensors.Telemetry.{my_read_telemetry-IsInside}
use governance_iot_platform.Sensors.Complete.{my_read_telemetry_complete}
use governance_iot_platform.Core.Power.{Battery}
use governance_iot_platform.Core.Tasks.{Reading, Settings, telemetry_message, status_message}
use governance_iot_platform.Core.Tasks.Rounds.{
  Step, Has, telemetry_step, status_step, publisher_step, run,
}
use governance_iot_platform.Core.Tasks.Cycle.{sleep_after_both}
use governance_iot_platform.Tests.Fixtures.{memory, device, client, surroundings}

-- floats that are whole numbers
abbrev whole : Float
whole = record {
  Number = ℕ;
  scaled = λ n. n * 2;
  below_minimum = λ n. ltb n 2600;
  is_positive = λ n. ltb 0 n;
  truncated = λ n. n;
}

abbrev sensed : Sensed whole
sensed = record {
  has_gps = true;
  has_fix = true;
  latitude = 23;
  longitude = 46;
  altitude = 760;
  has_battery = true;
  pin_mv = some 1900;
  has_bmp280 = true;
  temperature = some 21;
  humidity = none;
  rssi = some 60;
  chip_temperature = some 40;
}

my_read_telemetry-IsInside_example : IsInside whole 4 (my_read_telemetry whole 4 sensed)
my_read_telemetry-IsInside_example = my_read_telemetry-IsInside whole 4 sensed

my_read_telemetry_complete_example :
    my_read_telemetry whole 8 sensed ≡ some (all_readings whole 8 sensed)
my_read_telemetry_complete_example = my_read_telemetry_complete whole 8 sensed (omega arith)

abbrev battery : Battery
battery = record {
  critical_mv = 3300;
  hysteresis_mv = 200;
  critical_streak = 3;
  wake_interval_s = 3600;
  sleeps = true;
}

abbrev sleepy : Settings ℕ
sleepy = record {
  sleeps = true;
  wake_interval_s = 60;
  hibernates = true;
  battery = battery;
  print_mv = λ n. "mV";
  key_size = 16;
  encodes = λ m. true;
}

abbrev rssi : Reading ℕ
rssi = record { key = codes "rssi"; value = 60 }

abbrev awake : World memory
awake = device operational [] client

abbrev cycle : List (Step ℕ)
cycle = telemetry_step rssi [] ∷ status_step ∷ publisher_step ∷ publisher_step ∷ []

sleep_after_both_example :
    Has (codes "telemetry/") (
      telemetry_message memory sleepy surroundings (rssi ∷ []) awake
      ∷ status_message memory sleepy surroundings awake
      ∷ [])
    × Has (codes "status/") (
        telemetry_message memory sleepy surroundings (rssi ∷ []) awake
        ∷ status_message memory sleepy surroundings awake
        ∷ [])
unfolding run
sleep_after_both_example = sleep_after_both memory sleepy surroundings cycle awake [] refl refl refl
