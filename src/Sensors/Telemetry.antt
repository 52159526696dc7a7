-- ===== src/Sensors/Telemetry.antt =====
-- The collection of readings (my_read_telemetry in
-- perceptive-layer/mqtt_protobuff/FIRM_OPERATIONAL_MQTT_PROTOBUFF/main/main.cpp): its bounds, and what
-- it collects.
use governance_iot_platform.Prelude.{
  ℕ, ◌+◌, ◌≤◌, String, ◌&&◌, Option, some, List, [], ◌∷◌, ◌++◌, ltb, leb, length, length-append,
  ◌≡◌, refl, ap, ◌∙◌, inl, inr, Bool-cases, arith,
}
use mathlib.Core.List.{append_assoc}
use governance_iot_platform.Sensors.Hooks.{
  Float, Reading, Sensed, write, write_some, read_gps, read_voltage, read_climate, read_guarded,
  my_read_telemetry, ◌>>=◌, positive_battery, read_battery,
}
use governance_iot_platform.Sensors.Steps.{
  IsInside, reading, optional, gps_readings, voltage_readings, climate_readings, Step,
  Step-IsInside, Step_nothing, Step_whole, write_room, write_some_room, length-optional,
  >>=-IsInside,
}

module _ (f : Float) (max : ℕ) where
  write_gps :
      (s : Sensed f) (out : List (Reading f))
      → length out + 3 ≤ max
      → (write f max "latitude" s.latitude out
          >>= write f max "longitude" s.longitude
          >>= write f max "altitude" s.altitude)
        ≡ some (
            out
            ++ (reading f max "latitude" s.latitude
                ∷ reading f max "longitude" s.longitude
                ∷ reading f max "altitude" s.altitude
                ∷ []))
  write_gps s out h =
      let a = out ++ reading f max "latitude" s.latitude ∷ [] in
      let b = a ++ reading f max "longitude" s.longitude ∷ [] in
      let al = length-append out (reading f max "latitude" s.latitude ∷ []) in
      let bl = length-append a (reading f max "longitude" s.longitude ∷ []) in
      ap (λ o. o >>= write f max "longitude" s.longitude >>= write f max "altitude" s.altitude)
        (write_room f max "latitude" s.latitude out (omega arith))
      ∙ ap (λ o. o >>= write f max "altitude" s.altitude)
          (write_room f max "longitude" s.longitude a (omega arith))
      ∙ write_room f max "altitude" s.altitude b (omega arith)
      ∙ simp (append_assoc) refl

  pub read_gps-Step :
      (s : Sensed f) (out : List (Reading f))
      → length out ≤ max
      → Step f max 3 out (gps_readings f max s) (read_gps f max s out)
  unfolding read_gps gps_readings
  read_gps-Step s out h = elim (Bool-cases (s.has_gps && s.has_fix)) [
    | inl has ↦ elim (Bool-cases (leb (length out + 3) max)) [
      | inl room ↦
          rw (has, room)
            (Step_whole f max 3 out _ _ (ground arith) (omega arith)
              (write_gps s out (ground arith)))
      | inr full ↦ rw (has, full) (inr (refl, ground arith))
    ]
    | inr no_gps ↦ rw no_gps (Step_nothing f max 3 out [] h refl)
  ]

  pub read_voltage-Step :
      (s : Sensed f) (out : List (Reading f))
      → length out ≤ max
      → Step f max 1 out (voltage_readings f max s) (read_voltage f max s out)
  unfolding read_voltage voltage_readings
  read_voltage-Step s out h =
      let v = positive_battery f (read_battery f s.pin_mv) in
      elim (Bool-cases s.has_battery) [
        | inl has ↦ elim (Bool-cases (ltb (length out) max)) [
          | inl room ↦
              simp (has, room)
                (Step_whole f max 1 out (optional f max "battery_mv" v)
                  (write_some f max "battery_mv" v out) (ground arith)
                  (length-optional f max "battery_mv" v)
                  (write_some_room f max "battery_mv" v out (ground arith)))
          | inr full ↦ simp (has, full) (inr (refl, ground arith))
        ]
        | inr no_battery ↦ simp no_battery (Step_nothing f max 1 out [] h refl)
      ]

  write_climate :
      (s : Sensed f) (out : List (Reading f))
      → length out + 2 ≤ max
      → (write_some f max "temperature" s.temperature out
          >>= write_some f max "humidity" s.humidity)
        ≡ some (
            out
            ++ (optional f max "temperature" s.temperature ++ optional f max "humidity" s.humidity))
  write_climate s out h =
      let given = optional f max "temperature" s.temperature in
      ap (λ o. o >>= write_some f max "humidity" s.humidity)
        (write_some_room f max "temperature" s.temperature out (omega arith))
      ∙ write_some_room f max "humidity" s.humidity (out ++ given) (
          omega (arith, length-append out given, length-optional f max "temperature" s.temperature))
      ∙ simp append_assoc refl

  pub read_climate-Step :
      (s : Sensed f) (out : List (Reading f))
      → length out ≤ max
      → Step f max 2 out (climate_readings f max s) (read_climate f max s out)
  unfolding read_climate climate_readings
  read_climate-Step s out h =
      let given =
        optional f max "temperature" s.temperature ++ optional f max "humidity" s.humidity in
      elim (Bool-cases s.has_bmp280) [
        | inl has ↦ elim (Bool-cases (leb (length out + 2) max)) [
          | inl room ↦
              simp (has, room)
                (Step_whole f max 2 out given
                  (write_some f max "temperature" s.temperature out
                    >>= write_some f max "humidity" s.humidity)
                  (ground arith)
                  (omega (
                    arith,
                    length-append (optional f max "temperature" s.temperature)
                        (optional f max "humidity" s.humidity),
                    length-optional f max "temperature" s.temperature,
                    length-optional f max "humidity" s.humidity,
                  ))
                  (write_climate s out (ground arith)))
          | inr full ↦ simp (has, full) (inr (refl, ground arith))
        ]
        | inr no_climate ↦ simp no_climate (Step_nothing f max 2 out [] h refl)
      ]

  pub read_guarded-Step :
      (key : String) (v : Option f.Number) (out : List (Reading f))
      → length out ≤ max
      → Step f max 1 out (optional f max key v) (read_guarded f max key v out)
  unfolding read_guarded
  read_guarded-Step key v out h = elim (Bool-cases (ltb (length out) max)) [
    | inl room ↦ rw room (
        Step_whole f max 1 out (optional f max key v) (write_some f max key v out) (ground arith)
          (length-optional f max key v) (write_some_room f max key v out (ground arith)))
    | inr full ↦ rw full (inr (refl, ground arith))
  ]

  -- For any size of the array and any answers of the sensors, no reading f max is written past the end of
  -- the array, and the number of readings is at most its size.
  pub my_read_telemetry-IsInside : (s : Sensed f) → IsInside f max (my_read_telemetry f max s)
  unfolding my_read_telemetry
  my_read_telemetry-IsInside s =
      let step =
        λ (n : ℕ) (out given : List (Reading f)) (o : Option (List (Reading f)))
            (h : length out ≤ max) (t : Step f max n out given o).
          Step-IsInside f max n out given o h t in
      >>=-IsInside f max _ _
        (>>=-IsInside f max _ _
          (>>=-IsInside f max _ _
            (>>=-IsInside f max _ _
              (step 3 [] (gps_readings f max s) _ (omega arith) (read_gps-Step s [] (omega arith)))
              (λ out h. step 1 out (voltage_readings f max s) _ h (read_voltage-Step s out h)))
            (λ out h. step 2 out (climate_readings f max s) _ h (read_climate-Step s out h)))
          (λ out h.
            step 1 out (optional f max "rssi" s.rssi) _ h (read_guarded-Step "rssi" s.rssi out h)))
        (λ out h.
          step 1 out (optional f max "temp_c" s.chip_temperature) _ h
            (read_guarded-Step "temp_c" s.chip_temperature out h))
