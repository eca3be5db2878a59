-- ===== src/Types.antt =====
-- pkg/types/types.go: the records that the parts of the program exchange, and their JSON.
use nostradamus_api.Prelude.{String, Option, str_eq}
use nostradamus_api.Prelude.{if◌then◌else◌}
use nostradamus_api.Prelude.Int.{ℤ, pos}
use nostradamus_api.Errors.{err_invalid_sensor_type}
use nostradamus_api.Go.Fallible.{Result, ok, err}
use nostradamus_api.Go.Float64.{Float64}
use nostradamus_api.Go.Time.{Time}
use nostradamus_api.World.Calls.{Uuid}

pub record Entry : Type 0 where
  pub timestamp : Time
  pub value : Float64

pub record Field : Type 0 where
  pub field_id : Uuid
  pub field_name : String
  pub user_id : Option Uuid

-- `SensorType` is an `int`: any value can be stored in it.
abbrev pub SensorType : Type 0
SensorType = ℤ

abbrev pub sensor_type_temperature : SensorType
sensor_type_temperature = pos 0

abbrev pub sensor_type_humidity : SensorType
sensor_type_humidity = pos 1

abbrev pub sensor_type_ph_level : SensorType
sensor_type_ph_level = pos 2

pub record Sensor : Type 0 where
  pub sensor_id : Uuid
  pub sensor_name : String
  pub sensor_type : SensorType
  pub field_id : Option Uuid
  pub field_name : String

-- `ToSensorType`
unfoldable pub to_sensor_type : String → Result SensorType
to_sensor_type s =
    if str_eq s "temperature"
    then ok sensor_type_temperature
    else if str_eq s "humidity"
    then ok sensor_type_humidity
    else if str_eq s "ph_level"
    then ok sensor_type_ph_level
    else err err_invalid_sensor_type

-- `StateType` is a `string`.
abbrev pub StateType : Type 0
StateType = String

abbrev pub state_type_running : StateType
state_type_running = "Running"

abbrev pub state_type_stopped : StateType
state_type_stopped = "Stopped"

abbrev pub state_type_scheduling : StateType
state_type_scheduling = "Scheduling"

abbrev pub state_type_failed : StateType
state_type_failed = "Failed"

pub record Job : Type 0 where
  pub id : String
  pub state : StateType
  pub started_at : ℤ

pub record Pipeline : Type 0 where
  pub name : String
  pub query : String
  pub parallelism : Option ℤ

pub record Aggregate : Type 0 where
  pub avg : Float64
  pub min : Float64
  pub max : Float64
  pub count : ℤ
  pub timestamp : Time
