-- ===== src/Sensors.antt =====
-- The operational firmware (perceptive-layer/mqtt_protobuff/FIRM_OPERATIONAL_MQTT_PROTOBUFF/main):
-- src/SensorDiscovery.cpp, src/AdcManager.cpp, src/BatteryManager.cpp and the hooks of main.cpp.
-- What the drivers answer is an argument; floats are an interface.
use governance_iot_platform.Prelude.{
  ℕ, zero, suc, ◌+◌, ◌-◌, ◌*◌, ◌/◌, String, Bool, true, false, ◌&&◌, ◌||◌, Option, none, some, List,
  [], ◌∷◌, ◌++◌, if◌then◌else◌, ltb, leb, ◌==◌, length, str_eq,
}
use Prim.Native.String.{◌++◌ as text_append}
pub mod Steps
pub mod Telemetry
pub mod Hooks
pub mod Complete

pub record SensorMap : Type 0 where
  pub bmp280 : Bool
  pub ds3231 : Bool
  pub gps : Bool
  pub battery_adc : Bool

abbrev pub no_sensors : SensorMap
no_sensors = record { bmp280 = false; ds3231 = false; gps = false; battery_adc = false }

unfoldable pub has_dollar : List ℕ → Bool
has_dollar [] = false
has_dollar (c ∷ cs) = c == b'$' || has_dollar cs

-- the loop of SensorDiscovery::probeGpsUart, with the rounds that are left
unfoldable pub probe_loop : ℕ → List (List ℕ) → Bool
unfolding has_dollar
probe_loop zero reads = false
probe_loop (suc n) [] = false
probe_loop (suc n) (bytes ∷ reads) = has_dollar bytes || probe_loop n reads

-- SensorDiscovery::probeGpsUart: whether the driver is installed, and what its reads give
unfoldable pub probe_gps_uart : Bool → List (List ℕ) → Bool
unfolding probe_loop
probe_gps_uart installed reads = installed && probe_loop 20 reads

unfoldable pub note_device : ℕ → SensorMap → SensorMap
note_device addr m =
    let m1 = if addr == 0x76 || addr == 0x77 then record m { bmp280 = true } else m in
    if addr == 0x68 then record m1 { ds3231 = true } else m1

-- the scan of the bus from `addr`, over the addresses that are left
unfoldable pub scan_bus : (ℕ → Bool) → ℕ → ℕ → SensorMap → SensorMap
unfolding note_device
scan_bus answers zero addr m = m
scan_bus answers (suc n) addr m =
    scan_bus answers n (suc addr) (if answers addr then note_device addr m else m)

-- AdcManager::readMilliVolts: the samples of its 16 rounds, none where a read fails, and the curve
-- of the calibration if there is one. A result of -1 is `none`.
unfoldable pub sum_valid : List (Option ℕ) → ℕ × ℕ
sum_valid [] = (0, 0)
sum_valid (none ∷ samples) = sum_valid samples
sum_valid (some v ∷ samples) = let (sum, valid) = sum_valid samples in (sum + v, suc valid)

unfoldable pub to_voltage : Option (ℕ → ℕ) → ℕ → ℕ
to_voltage none raw = raw * 3100 / 4095
to_voltage (some curve) raw = curve raw

unfoldable pub average_voltage : Option (ℕ → ℕ) → ℕ × ℕ → Option ℕ
unfolding to_voltage
average_voltage curve (sum, valid) =
    if valid == 0 then none else some (to_voltage curve (sum / valid))

unfoldable pub read_milli_volts : Option (ℕ → ℕ) → List (Option ℕ) → Option ℕ
unfolding sum_valid average_voltage
read_milli_volts curve samples = average_voltage curve (sum_valid samples)

-- `abs(mv1 - mv2)` and `(mv1 + mv2) / 2` with -1 for `none`; a negative mean counts as 0, which
-- none of the tests distinguishes
unfoldable pub difference : Option ℕ → Option ℕ → ℕ
difference none none = 0
difference none (some b) = b + 1
difference (some a) none = a + 1
difference (some a) (some b) = if ltb a b then b - a else a - b

unfoldable pub mean : Option ℕ → Option ℕ → ℕ
mean none none = 0
mean none (some b) = (b - 1) / 2
mean (some a) none = (a - 1) / 2
mean (some a) (some b) = (a + b) / 2

unfoldable pub is_battery : Option ℕ → Option ℕ → Bool
unfolding difference mean
is_battery mv1 mv2 =
    ltb (difference mv1 mv2) 100 && ltb 500 (mean mv1 mv2) && ltb (mean mv1 mv2) 5000

-- What the hardware answers while the sensors are looked for.
pub record Hardware : Type 0 where
  pub answers : ℕ → Bool
  pub uart_installed : Bool
  pub uart_reads : List (List ℕ)
  pub mv1 : Option ℕ
  pub mv2 : Option ℕ

-- SensorDiscovery::run
unfoldable pub run : Hardware → SensorMap
unfolding scan_bus probe_gps_uart is_battery
run h =
    let m = scan_bus h.answers 112 0x08 no_sensors in
    record m {
      gps = probe_gps_uart h.uart_installed h.uart_reads;
      battery_adc = is_battery h.mv1 h.mv2;
    }

-- the lambda appendSensor of my_sensor_discovery
unfoldable pub append_sensor : String → Bool → String → String
append_sensor csv present name =
    if present then text_append (if str_eq csv "" then csv else text_append csv ",") name else csv

unfoldable pub active_sensors : SensorMap → String
unfolding append_sensor
active_sensors m =
    append_sensor
      (append_sensor (append_sensor (append_sensor "" m.bmp280 "bmp280") m.ds3231 "ds3231") m.gps
        "gps")
      m.battery_adc "battery_adc"

-- my_sensor_discovery: the sensors with their list, whether the task of the GPS runs, and whether
-- its power stays on; or an abort, since BmpManager::init takes the sensor at 0x76 for granted.
pub data Discovery : Type 0 where
  discovered : SensorMap → String → Bool → Bool → Discovery
  aborted : Discovery

unfoldable pub my_sensor_discovery : Hardware → Bool → Discovery
unfolding run active_sensors
my_sensor_discovery h bmp_inits =
    let m = run h in
    if m.bmp280 && (if bmp_inits then false else true)
    then aborted
    else discovered m (active_sensors m) m.gps m.gps
