-- ===== src/Sensors/Hooks.antt =====
-- The hooks that the operational firmware gives to the core: the battery, the readings and the times
-- (perceptive-layer/mqtt_protobuff/FIRM_OPERATIONAL_MQTT_PROTOBUFF/main: main.cpp and
-- src/BatteryManager.cpp).
use governance_iot_platform.Prelude.{
  ℕ, ◌+◌, String, Bool, false, ◌&&◌, Option, none, some, List, [], ◌∷◌, ◌++◌, if◌then◌else◌, ltb,
  leb, length,
}

-- The arithmetic of `float` that the battery needs: `scaled` is a pin voltage times 2.02f.
pub record Float : Type 1 where
  pub Number : Type 0
  pub scaled : ℕ → Number
  pub below_minimum : Number → Bool
  pub is_positive : Number → Bool
  pub truncated : Number → ℕ

infixl 5 ◌>>=◌
abbrev pub ◌>>=◌ {ℓ κ} : {A : Type ℓ} {B : Type κ} → Option A → (A → Option B) → Option B
none >>= f = none
some a >>= f = f a

-- ds3231_get_time: the year of struct tm, with what mktime makes of it
pub record Clock : Type 0 where
  pub present : Bool
  pub initialised : Bool
  pub time_read : Bool
  pub tm_year : ℕ
  pub epoch : ℕ

-- my_get_persisted_time
unfoldable pub my_get_persisted_time : Clock → ℕ
my_get_persisted_time c =
    if c.present && c.initialised && c.time_read && leb 124 c.tm_year then c.epoch else 0

-- my_persist_time: the time that the clock is set to
unfoldable pub my_persist_time : Clock → ℕ → Option ℕ
my_persist_time c epoch = if c.present && c.initialised then some epoch else none

-- my_get_external_time, from the epoch of the fix, and the level that the power pin is left at
unfoldable pub my_get_external_time : Option ℕ → ℕ × Bool
my_get_external_time none = (0, false)
my_get_external_time (some epoch) = (epoch, false)

module _ (f : Float) where
  open f use {Number, scaled, below_minimum, is_positive, truncated}

  -- BatteryManager::readBattery, where `none` is the result -1
  unfoldable pub read_battery : Option ℕ → Option Number
  read_battery none = none
  read_battery (some pin_mv) = if below_minimum (scaled pin_mv) then none else some (scaled pin_mv)

  -- `bat > 0.0f`, which -1 does not pass
  unfoldable pub positive_battery : Option Number → Option Number
  positive_battery none = none
  positive_battery (some mv) = if is_positive mv then some mv else none

  unfoldable pub millivolts : Option Number → ℕ
  millivolts none = 0
  millivolts (some mv) = truncated mv

  -- my_get_battery_mv
  unfoldable pub my_get_battery_mv : Option ℕ → ℕ
  unfolding millivolts positive_battery read_battery
  my_get_battery_mv pin_mv = millivolts (positive_battery (read_battery pin_mv))

  pub record Reading : Type 0 where
    pub key : String
    pub value : Number

  -- What the sensors answer to one collection; none where a read fails.
  pub record Sensed : Type 0 where
    pub has_gps : Bool
    pub has_fix : Bool
    pub latitude : Number
    pub longitude : Number
    pub altitude : Number
    pub has_battery : Bool
    pub pin_mv : Option ℕ
    pub has_bmp280 : Bool
    pub temperature : Option Number
    pub humidity : Option Number
    pub rssi : Option Number
    pub chip_temperature : Option Number

  -- `out[n] = …; n++` in an array of `max` readings; none for a write past its end
  unfoldable pub write : ℕ → String → Number → List Reading → Option (List Reading)
  write max key value out =
      if ltb (length out) max then some (out ++ record { key = key; value = value } ∷ []) else none

  -- the write of a reading that may be missing
  unfoldable pub write_some : ℕ → String → Option Number → List Reading → Option (List Reading)
  unfolding write
  write_some max key none out = some out
  write_some max key (some value) out = write max key value out

  unfoldable pub read_gps : ℕ → Sensed → List Reading → Option (List Reading)
  unfolding write
  read_gps max s out =
      if s.has_gps && s.has_fix && leb (length out + 3) max
      then write max "latitude" s.latitude out
        >>= write max "longitude" s.longitude
        >>= write max "altitude" s.altitude
      else some out

  unfoldable pub read_voltage : ℕ → Sensed → List Reading → Option (List Reading)
  unfolding write_some positive_battery read_battery
  read_voltage max s out =
      if s.has_battery && ltb (length out) max
      then write_some max "battery_mv" (positive_battery (read_battery s.pin_mv)) out
      else some out

  unfoldable pub read_climate : ℕ → Sensed → List Reading → Option (List Reading)
  unfolding write_some
  read_climate max s out =
      if s.has_bmp280 && leb (length out + 2) max
      then write_some max "temperature" s.temperature out >>= write_some max "humidity" s.humidity
      else some out

  -- a reading that is written only while `n < max`
  unfoldable pub read_guarded : ℕ → String → Option Number → List Reading → Option (List Reading)
  unfolding write_some
  read_guarded max key value out =
      if ltb (length out) max then write_some max key value out else some out

  -- my_read_telemetry, on a chip with a temperature sensor
  unfoldable pub my_read_telemetry : ℕ → Sensed → Option (List Reading)
  unfolding read_gps read_voltage read_climate read_guarded
  my_read_telemetry max s =
      read_gps max s []
      >>= read_voltage max s
      >>= read_climate max s
      >>= read_guarded max "rssi" s.rssi
      >>= read_guarded max "temp_c" s.chip_temperature
