-- ===== src/Wire.antt =====
-- The JSON of the records of pkg/types that leave the program, by their tags, and of the cached
-- aggregate that comes back.
use nostradamus_api.Prelude.{String, Option, none, some, str_eq, if◌then◌else◌}
use nostradamus_api.Go.Decode.{◌>>=◌, at}
use nostradamus_api.Go.Fallible.{Result, ok, err}
use nostradamus_api.Go.Float64.{Float64}
use nostradamus_api.Go.Json.{
  Json, null, int, real, str, obj, Fields, end, field, object, int_value, type_error,
}
use nostradamus_api.Types.{Entry, Field, Sensor, Aggregate}
use nostradamus_api.Go.Time.{Time}
use nostradamus_api.World.{World}
use nostradamus_api.World.Calls.{Uuid}

module _ (W : World) where
  abbrev uuid_json : Uuid → Json
  uuid_json id = str (World.uuid_text W id)

  -- A `*uuid.UUID` with `omitempty`.
  abbrev optional_uuid : String → Option Uuid → Fields → Fields
  optional_uuid k none rest = rest
  optional_uuid k (some id) rest = field k (uuid_json id) rest

  abbrev optional_text : String → String → Fields → Fields
  optional_text k s rest = if str_eq s "" then rest else field k (str s) rest

  unfoldable pub entry_json : Entry → Json
  entry_json e =
      obj
        (field "timestamp" (str (World.time_text W e.timestamp)) (field "value" (real e.value) end))

  unfoldable pub field_json : Field → Json
  field_json f = obj (
      field "field_id" (uuid_json f.field_id)
        (field "field_name" (str f.field_name) (optional_uuid "user_id" f.user_id end)))

  unfoldable pub sensor_json : Sensor → Json
  sensor_json s = obj (
      field "sensor_id" (uuid_json s.sensor_id) (
        field "sensor_name" (str s.sensor_name) (
          field "sensor_type" (int s.sensor_type)
            (optional_uuid "field_id" s.field_id (optional_text "field_name" s.field_name end)))))

  unfoldable pub aggregate_json : Aggregate → Json
  aggregate_json a = obj (
      field "avg" (real a.avg) (
        field "min" (real a.min) (
          field "max" (real a.max) (
            field "count" (int a.count)
              (field "timestamp" (str (World.time_text W a.timestamp)) end)))))

  abbrev float_value : Json → Result Float64
  float_value null = ok (record { bits = 0 })
  float_value (real x) = ok x
  float_value (int n) = ok (World.of_int W n)
  float_value _ = err (type_error "float64")

  abbrev time_value : Json → Result Time
  time_value null = ok 0
  time_value (str s) = World.parse_time W s
  time_value _ = err (type_error "time.Time")

  -- `json.Unmarshal` into a `types.Aggregate`
  unfoldable pub decode_aggregate : Json → Result Aggregate
  decode_aggregate v = do
    fs ← object v
    avg ← at float_value "avg" fs
    min ← at float_value "min" fs
    max ← at float_value "max" fs
    count ← at int_value "count" fs
    timestamp ← at time_value "timestamp" fs
    ok (record { avg = avg; min = min; max = max; count = count; timestamp = timestamp })
