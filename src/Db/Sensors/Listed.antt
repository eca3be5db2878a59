-- ===== src/Db/Sensors/Listed.antt =====
-- RegisterSensor and then GetSensorsByFieldID (sensors.go).
use mathlib.Core.List.{Memᴰ}
use nostradamus_api.Prelude.{String, ◌≡◌, refl, ap, subst, inl, inr, none, List, [], ◌∷◌, arith}
use nostradamus_api.Prelude.Int.{ℤ}
use nostradamus_api.Go.Fallible.{Result, ok, err, Result-cases}
use nostradamus_api.Go.Strconv.{decimal_ℤ}
use nostradamus_api.Go.Strconv.Laws.{IsInt64, atoi-decimal_ℤ}
use nostradamus_api.Types.{Sensor, Field}
use nostradamus_api.World.{World, State, perform}
use nostradamus_api.World.Calls.{Uuid}
use nostradamus_api.Db.Sensors.{
  register_sensor, readable_sensors, sensors_of, read_sensor_type, get_sensors_by_field_id,
}
use nostradamus_api.Db.Rows.{Rows}
use nostradamus_api.Db.Sensors.Store.{SensorRow, SensorStore}
use nostradamus_api.Db.Sensors.Refines.{Stored, refused, stored, unsure, register_sensor-Stored}

-- The sensor that a row is read as.
abbrev pub read_as : Uuid → String → ℤ → Sensor
read_as id name type = record {
  sensor_id = id;
  sensor_name = name;
  sensor_type = type;
  field_id = none;
  field_name = "";
}

-- The type of a sensor is read back from the text that it is stored as.
read_sensor_type-decimal_ℤ : (type : ℤ) → IsInt64 type → read_sensor_type (decimal_ℤ type) ≡ ok type
read_sensor_type-decimal_ℤ type small = rw (atoi-decimal_ℤ type small, read_sensor_type) refl

mem-readable_sensors :
    (id : Uuid) (name text field_name : String) (type : ℤ)
    (rows : List (Uuid × String × String × String))
    → read_sensor_type text ≡ ok type
    → Memᴰ (id, name, text, field_name) rows
    → Memᴰ (read_as id name type) (sensors_of (readable_sensors rows))
unfolding readable_sensors
mem-readable_sensors id name text field_name type [] h m = elim m [ ]
mem-readable_sensors id name text field_name type ((j, n, t, f) ∷ rows) h (Memᴰ.head e) =
    let q : read_sensor_type t ≡ ok type = subst (λ g. read_sensor_type g.2 ≡ ok type) e h in
    rw (q, readable_sensors) (Memᴰ.head (ap (λ g. read_as g.0 g.1 type) e))
mem-readable_sensors id name text field_name type ((j, n, t, f) ∷ rows) h (Memᴰ.tail m) =
    elim (Result-cases (read_sensor_type t)) [
      | inl (a, q) ↦
          rw (q, readable_sensors)
            (Memᴰ.tail (mem-readable_sensors id name text field_name type rows h m))
      | inr (e, q) ↦
          rw (q, readable_sensors) (mem-readable_sensors id name text field_name type rows h m)
    ]

module _ (W : World) (db : SensorStore W) (field : Uuid) (name : String) (type : ℤ) where
  -- GetSensorsByFieldID succeeded, and the sensor is in what it returned.
  pub data Lists (sensor : Sensor) : Result (List Sensor × Field) → Type 0 where
    listed :
        (sensors : List Sensor) (f : Field) → Memᴰ sensor sensors → Lists sensor (ok (sensors, f))

  Has-Lists :
      (id : Uuid) (s : State W)
      → IsInt64 type
      → db.Has s.ext (field, id, name, decimal_ℤ type)
      → Lists (read_as id name type) (get_sensors_by_field_id W field s).0
  unfolding get_sensors_by_field_id perform
  Has-Lists id s small h =
      let (field_name, m) = db.lists field id name (decimal_ℤ type) s.ext h in
      rw (db.closes field s.ext) (
        listed _ _ (
          mem-readable_sensors id name (decimal_ℤ type) field_name type _
            (read_sensor_type-decimal_ℤ type small) m))

  sensor_or : Sensor → Result Sensor → Sensor
  sensor_or d (ok g) = g
  sensor_or d (err e) = d

  Stored-Lists :
      (R : Rows SensorRow) (s : State W) (r : Result Sensor) (sensor : Sensor)
      → IsInt64 type
      → Stored W db field name type R (db.Has s.ext) r
      → r ≡ ok sensor
      → Lists sensor (get_sensors_by_field_id W field s).0
  unfolding sensor_or
  Stored-Lists R s _ sensor small (refused id named same) h = absurd (ground (arith, h))
  Stored-Lists R s _ sensor small (unsure e id free new left) h = absurd (ground (arith, h))
  Stored-Lists R s _ sensor small (stored id free new plus) h =
      subst (λ g. Lists g (get_sensors_by_field_id W field s).0) (ap (sensor_or sensor) h)
        (Has-Lists id s small ((plus _).1 (inr refl)))

  -- The sensor that RegisterSensor returned, with its type, is among those that GetSensorsByFieldID
  -- returns for the field, for every type that is a 64-bit integer.
  pub get_sensors_by_field_id-register_sensor :
      (s : State W) (sensor : Sensor)
      → IsInt64 type
      → (register_sensor W field name type s).0 ≡ ok sensor
      → Lists sensor (get_sensors_by_field_id W field (register_sensor W field name type s).1).0
  get_sensors_by_field_id-register_sensor s sensor small =
      Stored-Lists _ _ _ sensor small (register_sensor-Stored W db field name type s)
