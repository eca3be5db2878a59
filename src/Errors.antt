-- ===== src/Errors.antt =====
-- Go's `error` values that the program tells apart: its own error types and sentinels
-- (internal/db/fields.go, internal/db/sensors.go, pkg/types/types.go), the sentinels of the drivers
-- that it compares with, `fmt.Errorf` with `%w`, and every other error by its message.
use nostradamus_api.Prelude.{String, ◌<>◌, Bool, true, false, Option, none, some, contains}

pub data Error : Type 0 where
  text : String → Error
  wrap : String → Error → Error
  field_already_exists : String → Error
  sensor_already_exists : String → Error
  err_sensor_not_found : Error
  err_invalid_sensor_type : Error
  gocql_not_found : Error
  memcache_miss : Error
  redis_nil : Error
  deadline_exceeded : Error

-- `(*FieldAlreadyExistsError).Error`
abbrev pub field_exists_message : String → String
field_exists_message name = "field '" <> name <> "' already exists"

-- `(*SensorAlreadyExistsError).Error`
abbrev pub sensor_exists_message : String → String
sensor_exists_message name = "sensor '" <> name <> "' already exists"

-- `err.Error()`. `wrap prefix e` is `fmt.Errorf(prefix + "%w", e)`.
unfoldable pub message : Error → String
message (text s) = s
message (wrap prefix e) = prefix <> message e
message (field_already_exists name) = field_exists_message name
message (sensor_already_exists name) = sensor_exists_message name
message err_sensor_not_found = "sensor not found"
message err_invalid_sensor_type = "invalid sensor type"
message gocql_not_found = "not found"
message memcache_miss = "memcache: cache miss"
message redis_nil = "redis: nil"
message deadline_exceeded = "context deadline exceeded"

-- `errors.As(err, &dupErr)` with `dupErr *db.FieldAlreadyExistsError`: the field's name.
unfoldable pub as_field_already_exists : Error → Option String
as_field_already_exists (field_already_exists name) = some name
as_field_already_exists (wrap _ e) = as_field_already_exists e
as_field_already_exists _ = none

-- `errors.As(err, &dupErr)` with `dupErr *db.SensorAlreadyExistsError`.
unfoldable pub as_sensor_already_exists : Error → Option String
as_sensor_already_exists (sensor_already_exists name) = some name
as_sensor_already_exists (wrap _ e) = as_sensor_already_exists e
as_sensor_already_exists _ = none

-- `errors.Is(err, db.ErrSensorNotFound)`
unfoldable pub is_sensor_not_found : Error → Bool
is_sensor_not_found err_sensor_not_found = true
is_sensor_not_found (wrap _ e) = is_sensor_not_found e
is_sensor_not_found _ = false

-- `err == gocql.ErrNotFound`
unfoldable pub is_gocql_not_found : Error → Bool
is_gocql_not_found gocql_not_found = true
is_gocql_not_found _ = false

-- `strings.Contains(err.Error(), "already exists")`
unfoldable pub says_already_exists : Error → Bool
unfolding message
says_already_exists e = contains (message e) "already exists"
