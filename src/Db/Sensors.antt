-- ===== src/Db/Sensors.antt =====
-- internal/db/sensors.go
pub mod Laws
pub mod Store
pub mod Refines
pub mod Distinct
pub mod Listed
use nostradamus_api.Prelude.{
  ℕ, String, Bool, true, false, Option, none, some, List, [], ◌∷◌, str_eq, if◌then◌else◌,
}
use nostradamus_api.Prelude.Int.{ℤ}
use nostradamus_api.Errors.{Error, sensor_already_exists, err_sensor_not_found, is_gocql_not_found}
use nostradamus_api.Go.Fallible.{
  Result, ok, err, Fallible, pure, fail, lift, run, check, result_of_error, ◌>>=◌, ◌>>◌,
}
use nostradamus_api.Go.Float64.{Float64}
use nostradamus_api.Go.Io.{Io}
use nostradamus_api.Go.Json.{appended}
use nostradamus_api.Go.Strconv.{atoi, decimal_ℤ}
use nostradamus_api.Go.Time.{Time}
use nostradamus_api.Types.{Entry, Field, Sensor, SensorType, to_sensor_type}
use nostradamus_api.World.{World, State, perform}
use nostradamus_api.World.Calls.{
  Uuid, Iter, iterate, scan_one, exec, new_uuid, last_five, sensors_of_field, sensor_ids_of_field,
  sensor_name_of, insert_sensor_by_field, insert_sensor, update_credentials, credentials_of,
}

-- The value that `ParseFloat` leaves beside an ignored error.
abbrev parsed : Result Float64 → Float64
parsed (ok x) = x
parsed (err _) = record { bits = 0 }

-- `strconv.Atoi`, or else `ToSensorType`.
abbrev pub read_sensor_type : String → Result SensorType
read_sensor_type s = elim (atoi s) [ ok n ↦ ok n | err _ ↦ to_sensor_type s ]

-- The loop of `GetSensorsByFieldID`: rows with a type that cannot be read are passed over.
unfoldable pub readable_sensors : List (Uuid × String × String × String) → List (Sensor × String)
unfolding atoi to_sensor_type
readable_sensors [] = []
readable_sensors ((id, name, type_text, field_name) ∷ rows) = elim (read_sensor_type type_text) [
  | err _ ↦ readable_sensors rows
  | ok type ↦
      (
        record {
          sensor_id = id;
          sensor_name = name;
          sensor_type = type;
          field_id = none;
          field_name = "";
        },
        field_name,
      )
      ∷ readable_sensors rows
]

abbrev pub sensors_of : List (Sensor × String) → List Sensor
sensors_of [] = []
sensors_of ((sensor, _) ∷ rows) = sensor ∷ sensors_of rows

-- The name of the field: that of the first readable row, "" where there is none.
abbrev pub first_field_name : List (Sensor × String) → String
first_field_name [] = ""
first_field_name ((_, name) ∷ _) = name

pub record SensorCredentials : Type 0 where
  pub mqtt_user : String
  pub mqtt_pass : String

module _ (W : World) where
  -- `fmt.Sprintf("%.4f", val)` and back
  abbrev rounded : Time × Float64 → Entry
  rounded (ts, val) = record {
    timestamp = ts;
    value = parsed (World.parse_float W (World.four_decimals W val));
  }

  abbrev rounded_all : List (Time × Float64) → List Entry
  rounded_all [] = []
  rounded_all (row ∷ rows) = rounded row ∷ rounded_all rows

  -- `GetLast5Values`
  unfoldable pub get_last5_values : String → String → Fallible (State W) (Option (List Entry))
  unfolding perform
  get_last5_values sensor date = do
    id ← lift (World.gocql_parse_uuid W sensor)
    iter ← run (perform W (iterate (last_five id date)))
    lift (result_of_error iter.close)
    pure (appended (rounded_all iter.rows))

  -- `GetSensorsByFieldID`. Its field is never nil.
  unfoldable pub get_sensors_by_field_id : Uuid → Fallible (State W) (List Sensor × Field)
  unfolding perform readable_sensors
  get_sensors_by_field_id id = do
    iter ← run (perform W (iterate (sensors_of_field id)))
    lift (result_of_error iter.close)
    let rows : List (Sensor × String) = readable_sensors iter.rows
    pure (
      sensors_of rows,
      record { field_id = id; field_name = first_field_name rows; user_id = none },
    )

  abbrev pub is_named : String → Result String → Bool
  is_named name (ok existing) = str_eq existing name
  is_named name (err _) = false

  -- The loop of `RegisterSensor` over the field's sensors.
  unfoldable pub any_sensor_named : Uuid → String → List Uuid → Io (State W) Bool
  unfolding perform
  any_sensor_named field name [] s = (false, s)
  any_sensor_named field name (id ∷ ids) s =
      let (r, s') = perform W (scan_one (sensor_name_of field id)) s in
      let rest = any_sensor_named field name ids s' in if is_named name r then (true, s') else rest

  -- The two inserts of a new sensor. The second can fail when the first is done.
  unfoldable pub insert_new_sensor : Uuid → String → ℤ → Fallible (State W) Sensor
  unfolding perform decimal_ℤ
  insert_new_sensor field name type = do
    id ← run (perform W new_uuid)
    check (perform W (exec (insert_sensor_by_field field id name (decimal_ℤ type))))
    check (perform W (exec (insert_sensor id name (decimal_ℤ type))))
    pure (record {
      sensor_id = id;
      sensor_name = name;
      sensor_type = type;
      field_id = none;
      field_name = "";
    })

  -- `RegisterSensor`
  unfoldable pub register_sensor : Uuid → String → ℤ → Fallible (State W) Sensor
  unfolding perform
  register_sensor field name type = do
    iter ← run (perform W (iterate (sensor_ids_of_field field)))
    taken ← run (any_sensor_named field name iter.rows)
    if taken
        then fail (sensor_already_exists name)
        else do lift (result_of_error iter.close); insert_new_sensor field name type

  -- `StoreSensorCredentials`
  unfoldable pub store_sensor_credentials :
      Uuid → Uuid → String → String → Fallible (State W) (Unit {0})
  unfolding perform
  store_sensor_credentials field sensor user pass =
      check (perform W (exec (update_credentials user pass field sensor)))

  abbrev found_credentials : Result (String × String) → Result SensorCredentials
  found_credentials (ok (user, pass)) = ok (record { mqtt_user = user; mqtt_pass = pass })
  found_credentials (err e) = if is_gocql_not_found e then err err_sensor_not_found else err e

  -- `GetSensorCredentials`
  unfoldable pub get_sensor_credentials : Uuid → Fallible (State W) SensorCredentials
  unfolding perform is_gocql_not_found
  get_sensor_credentials sensor s =
      let (r, s') = perform W (scan_one (credentials_of sensor)) s in (found_credentials r, s')
