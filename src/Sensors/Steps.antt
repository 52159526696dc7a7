-- ===== src/Sensors/Steps.antt =====
-- The steps of the collection of readings: what a step is given, and how it continues the array
-- (my_read_telemetry in perceptive-layer/mqtt_protobuff/FIRM_OPERATIONAL_MQTT_PROTOBUFF/main/main.cpp).
use governance_iot_platform.Prelude.{
  ℕ, ◌+◌, ◌≤◌, ◌<◌, String, ◌&&◌, Option, none, some, List, [], ◌∷◌, ◌++◌, if◌then◌else◌, length,
  length-append, ◌≡◌, refl, sym, ap, ◌⊎◌, inl, inr, arith, lt→ltb,
}
use mathlib.Core.List.{append-nil}
use governance_iot_platform.Sensors.Hooks.{
  Float, Reading, Sensed, write, write_some, ◌>>=◌, positive_battery, read_battery,
}

module _ (f : Float) (max : ℕ) where
  -- Every write of a step stood inside the array.
  abbrev pub IsInside : Option (List (Reading f)) → Type 0
  IsInside none = ⊥
  IsInside (some out) = length out ≤ max

  pub >>=-IsInside :
      (o : Option (List (Reading f))) (next : List (Reading f) → Option (List (Reading f)))
      → IsInside o
      → ((out : List (Reading f)) → length out ≤ max → IsInside (next out))
      → IsInside (o >>= next)
  >>=-IsInside none next h k = h
  >>=-IsInside (some out) next h k = k out h

  abbrev pub reading : String → f.Number → Reading f
  reading key value = record { key = key; value = value }

  pub write_room :
      (key : String) (v : f.Number) (out : List (Reading f))
      → length out < max
      → write f max key v out ≡ some (out ++ reading key v ∷ [])
  unfolding write
  write_room key v out h = rw (lt→ltb (length out) max h) refl

  -- the reading, if the sensor gave one
  unfoldable pub optional : String → Option f.Number → List (Reading f)
  optional key none = []
  optional key (some v) = reading key v ∷ []

  pub length-optional : (key : String) (o : Option f.Number) → length (optional key o) ≤ 1
  unfolding optional
  length-optional key none = omega arith
  length-optional key (some v) = omega arith

  pub write_some_room :
      (key : String) (o : Option f.Number) (out : List (Reading f))
      → length out < max
      → write_some f max key o out ≡ some (out ++ optional key o)
  unfolding write_some optional
  write_some_room key none out h = ap (λ l. some l) (sym (append-nil out))
  write_some_room key (some v) out h = write_room key v out h

  -- the three readings of the GPS, which has them together
  unfoldable pub gps_readings : Sensed f → List (Reading f)
  gps_readings s =
      if s.has_gps && s.has_fix
      then reading "latitude" s.latitude
        ∷ reading "longitude" s.longitude
        ∷ reading "altitude" s.altitude
        ∷ []
      else []

  unfoldable pub voltage_readings : Sensed f → List (Reading f)
  unfolding optional
  voltage_readings s =
      if s.has_battery
      then optional "battery_mv" (positive_battery f (read_battery f s.pin_mv))
      else []

  unfoldable pub climate_readings : Sensed f → List (Reading f)
  unfolding optional
  climate_readings s =
      if s.has_bmp280
      then optional "temperature" s.temperature ++ optional "humidity" s.humidity
      else []

  -- everything that the sensors gave
  unfoldable pub all_readings : Sensed f → List (Reading f)
  unfolding gps_readings voltage_readings climate_readings optional
  all_readings s =
      (((gps_readings s ++ voltage_readings s) ++ climate_readings s) ++ optional "rssi" s.rssi)
      ++ optional "temp_c" s.chip_temperature

  -- How a step continues the readings `out`: with all that it was given, inside the array, or with
  -- none where there is no room for the `n` that it may write.
  abbrev pub Step : ℕ → List (Reading f) → List (Reading f) → Option (List (Reading f)) → Type 0
  Step n out given o =
      ((o ≡ some (out ++ given)) × (length (out ++ given) ≤ max))
      ⊎ ((o ≡ some out) × (max < length out + n))

  pub Step-IsInside :
      (n : ℕ) (out given : List (Reading f)) (o : Option (List (Reading f)))
      → length out ≤ max
      → Step n out given o
      → IsInside o
  Step-IsInside n out given o h (inl (e, l)) = rw e l
  Step-IsInside n out given o h (inr (e, l)) = rw e h

  pub Step-all :
      (n : ℕ) (out given : List (Reading f)) (o : Option (List (Reading f)))
      → length out + n ≤ max
      → Step n out given o
      → o ≡ some (out ++ given)
  Step-all n out given o h (inl (e, l)) = e
  Step-all n out given o h (inr (e, l)) = absurd (omega arith)

  -- A step that finds nothing to write.
  pub Step_nothing :
      (n : ℕ) (out given : List (Reading f))
      → length out ≤ max
      → given ≡ []
      → Step n out given (some out)
  Step_nothing n out given h e =
      rw e (inl (ap (λ l. some l) (sym (append-nil out)), omega (arith, length-append out [])))

  pub Step_whole :
      (n : ℕ) (out given : List (Reading f)) (o : Option (List (Reading f)))
      → length out + n ≤ max
      → length given ≤ n
      → o ≡ some (out ++ given)
      → Step n out given o
  Step_whole n out given o h l e = inl (e, omega (arith, length-append out given))
