-- ===== src/Sensors/Complete.antt =====
-- What my_read_telemetry collects into the array of the core
-- (perceptive-layer/mqtt_protobuff/FIRM_OPERATIONAL_MQTT_PROTOBUFF/main/main.cpp).
use governance_iot_platform.Prelude.{
  ℕ, ◌≤◌, some, [], ◌++◌, length, length-append, ◌≡◌, ap, ◌∙◌, arith,
}
use governance_iot_platform.Sensors.Hooks.{
  Float, Sensed, read_gps, read_voltage, read_climate, read_guarded, my_read_telemetry, ◌>>=◌,
  positive_battery, read_battery,
}
use governance_iot_platform.Sensors.Steps.{
  optional, length-optional, gps_readings, voltage_readings, climate_readings, all_readings,
  Step-all,
}
use governance_iot_platform.Sensors.Telemetry.{
  read_gps-Step, read_voltage-Step, read_climate-Step, read_guarded-Step,
}

module _ (f : Float) (max : ℕ) where
  length-gps : (s : Sensed f) → length (gps_readings f max s) ≤ 3
  unfolding gps_readings
  length-gps s = ground arith

  length-voltage : (s : Sensed f) → length (voltage_readings f max s) ≤ 1
  unfolding voltage_readings
  length-voltage s =
      ground
        (arith, length-optional f max "battery_mv" (positive_battery f (read_battery f s.pin_mv)))

  length-climate : (s : Sensed f) → length (climate_readings f max s) ≤ 2
  unfolding climate_readings
  length-climate s = ground (
    arith,
    length-optional f max "temperature" s.temperature,
    length-optional f max "humidity" s.humidity,
    length-append (optional f max "temperature" s.temperature)
        (optional f max "humidity" s.humidity),
  )

  -- In an array of eight or more readings, the hook collects everything that the sensors gave and
  -- nothing else, in the order of the GPS, the battery, the climate, the signal and the chip: the
  -- position only with a fix, the battery only above its valid minimum.
  pub my_read_telemetry_complete :
      (s : Sensed f) → 8 ≤ max → my_read_telemetry f max s ≡ some (all_readings f max s)
  unfolding my_read_telemetry all_readings
  my_read_telemetry_complete s h =
      let g = gps_readings f max s in
      let v = voltage_readings f max s in
      let c = climate_readings f max s in
      let r = optional f max "rssi" s.rssi in
      let t = optional f max "temp_c" s.chip_temperature in
      let lg = length-gps s in
      let lv = length-voltage s in
      let lc = length-climate s in
      let lr = length-optional f max "rssi" s.rssi in
      let l2 = length-append g v in
      let l3 = length-append (g ++ v) c in
      let l4 = length-append ((g ++ v) ++ c) r in
      ap
        (λ o.
          o
          >>= read_voltage f max s
          >>= read_climate f max s
          >>= read_guarded f max "rssi" s.rssi
          >>= read_guarded f max "temp_c" s.chip_temperature)
        (Step-all f max 3 [] g (read_gps f max s []) (omega arith)
          (read_gps-Step f max s [] (omega arith)))
      ∙ ap
          (λ o.
            o
            >>= read_climate f max s
            >>= read_guarded f max "rssi" s.rssi
            >>= read_guarded f max "temp_c" s.chip_temperature)
          (Step-all f max 1 g v (read_voltage f max s g) (omega arith)
            (read_voltage-Step f max s g (omega arith)))
      ∙ ap
          (λ o.
            o
            >>= read_guarded f max "rssi" s.rssi
            >>= read_guarded f max "temp_c" s.chip_temperature)
          (Step-all f max 2 (g ++ v) c (read_climate f max s (g ++ v)) (omega arith)
            (read_climate-Step f max s (g ++ v) (omega arith)))
      ∙ ap (λ o. o >>= read_guarded f max "temp_c" s.chip_temperature)
          (Step-all f max 1 ((g ++ v) ++ c) r (read_guarded f max "rssi" s.rssi ((g ++ v) ++ c))
            (omega arith) (read_guarded-Step f max "rssi" s.rssi ((g ++ v) ++ c) (omega arith)))
      ∙ Step-all f max 1 (((g ++ v) ++ c) ++ r) t
          (read_guarded f max "temp_c" s.chip_temperature (((g ++ v) ++ c) ++ r)) (omega arith)
          (read_guarded-Step f max "temp_c" s.chip_temperature (((g ++ v) ++ c) ++ r) (omega arith))
