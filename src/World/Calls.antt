-- ===== src/World/Calls.antt =====
-- The calls that the program makes, a constructor for each, and what each is answered with.
use nostradamus_api.Prelude.{ℕ, String, Option, List}
use nostradamus_api.Prelude.Int.{ℤ}
use nostradamus_api.Errors.{Error}
use nostradamus_api.Go.Fallible.{Result}
use nostradamus_api.Go.Float64.{Float64}
use nostradamus_api.Go.Json.{Json}
use nostradamus_api.Go.Time.{Time}

-- The 16 bytes of an identifier, as one number.
abbrev pub Uuid : Type 0
Uuid = ℕ

-- The CQL statements of internal/db, with the values that are bound to their marks.
pub data Statement : Type 0 where
  -- SELECT now() FROM system.local
  select_now : Statement
  -- SELECT field_id, field_name FROM fields WHERE user_id = ?
  fields_of_user : Uuid → Statement
  -- SELECT user_id, field_name FROM fields WHERE field_id = ? ALLOW FILTERING
  field_by_id : Uuid → Statement
  -- SELECT field_id FROM fields WHERE user_id = ?
  field_ids_of_user : Uuid → Statement
  -- SELECT field_name FROM fields WHERE user_id = ? AND field_id = ?
  field_name_of : Uuid → Uuid → Statement
  -- INSERT INTO fields (user_id, field_id, field_name) VALUES (?, ?, ?)
  insert_field : Uuid → Uuid → String → Statement
  -- SELECT timestamp, value FROM temperatures WHERE sensor_id=? AND bucket_date=?
  -- ORDER BY timestamp DESC LIMIT 5
  last_five : Uuid → String → Statement
  -- SELECT sensor_id, sensor_name, sensor_type, field_name FROM sensors_by_field WHERE field_id = ?
  sensors_of_field : Uuid → Statement
  -- SELECT sensor_id FROM sensors_by_field WHERE field_id = ?
  sensor_ids_of_field : Uuid → Statement
  -- SELECT sensor_name FROM sensors_by_field WHERE field_id = ? AND sensor_id = ?
  sensor_name_of : Uuid → Uuid → Statement
  -- INSERT INTO sensors_by_field (field_id, sensor_id, sensor_name, sensor_type) VALUES (?, ?, ?, ?)
  insert_sensor_by_field : Uuid → Uuid → String → String → Statement
  -- INSERT INTO sensors (sensor_id, sensor_name, sensor_type) VALUES (?, ?, ?)
  insert_sensor : Uuid → String → String → Statement
  -- UPDATE sensors_by_field SET mqtt_username = ?, mqtt_password = ?
  -- WHERE field_id = ? AND sensor_id = ?
  update_credentials : String → String → Uuid → Uuid → Statement
  -- SELECT mqtt_username, mqtt_password FROM sensors_by_field WHERE sensor_id = ? ALLOW FILTERING
  credentials_of : Uuid → Statement
  -- SELECT value FROM sensors_data.<table> WHERE sensor_id = ? AND bucket_date = ?
  -- AND timestamp >= ? AND timestamp <= ? ORDER BY timestamp DESC
  values_between : String → Uuid → String → Time → Time → Statement

-- The columns that a statement selects.
abbrev pub Row : Statement → Type 0
Row (fields_of_user _) = Uuid × String
Row (field_by_id _) = Uuid × String
Row (field_ids_of_user _) = Uuid
Row (field_name_of _ _) = String
Row (last_five _ _) = Time × Float64
Row (sensors_of_field _) = Uuid × String × String × String
Row (sensor_ids_of_field _) = Uuid
Row (sensor_name_of _ _) = String
Row (credentials_of _) = String × String
Row (values_between _ _ _ _ _) = Float64
Row _ = Unit {0}

-- The rows that `iter.Scan` gives until it stops, and what `iter.Close` returns.
pub record Iter (A : Type 0) : Type 0 where
  pub rows : List A
  pub close : Option Error

pub record HttpRequest : Type 0 where
  pub method : String
  pub url : String
  pub headers : List (String × String)
  pub basic_auth : Option (String × String)
  pub body : Option Json

pub record HttpResponse : Type 0 where
  pub status_code : ℕ
  pub status : String
  pub body : String

-- A member of a sorted set and its score. The driver types the member as `any`: `none` is a value
-- that is no string.
pub record Scored : Type 0 where
  pub score : Float64
  pub member : Option String

pub data Call : Type 0 where
  -- gocql: an iteration to its end, one row by `Scan`, and `Exec`
  iterate scan_one exec : Statement → Call
  -- `http.Client.Do`, also of `Get`
  send : HttpRequest → Call
  -- go-redis
  z_add : String → Float64 → Float64 → Call
  expire : String → ℕ → Call
  z_rev_range : String → ℤ → ℤ → Call
  redis_set : String → String → ℕ → Call
  redis_get : String → Call
  redis_ping : Call
  -- gomemcache; the first is waited for no longer than 100 milliseconds
  memcache_set : String → String → ℤ → Call
  memcache_get : String → Call
  memcache_ping : Call
  -- sarama: a client for some brokers, and what it is asked
  connect_kafka : List String → Call
  close_kafka : Call
  topics refresh_metadata : Call
  -- the counters and histograms of internal/metrics
  count_hit count_miss observe_read observe_write : String → Call
  -- the clock, the environment and random identifiers
  now : Call
  new_uuid : Call
  sleep : ℕ → Call
  getenv : String → Call
  -- the start and the end of the program: a session of gocql with its nodes and its keyspace, the
  -- exporter of OpenTelemetry with its endpoint and the name of the service, the two goroutines, the
  -- server, and what is closed
  create_session : List String → String → Call
  set_tracer : String → String → Call
  go_watch : List String → Call
  go_supervise : ℕ → Call
  listen_and_serve : String → Call
  close_session close_cache : String → Call
  shutdown_tracer cancel_watcher cancel_supervisor : Call

abbrev pub Reply : Call → Type 0
Reply (iterate s) = Iter (Row s)
Reply (scan_one s) = Result (Row s)
Reply (exec _) = Option Error
Reply (send _) = Result HttpResponse
Reply (z_add _ _ _) = Option Error
Reply (expire _ _) = Option Error
Reply (z_rev_range _ _ _) = Result (List Scored)
Reply (redis_set _ _ _) = Option Error
Reply (redis_get _) = Result String
Reply redis_ping = Option Error
Reply (memcache_set _ _ _) = Option Error
Reply (memcache_get _) = Result String
Reply memcache_ping = Option Error
Reply (connect_kafka _) = Option Error
Reply topics = Result (List String)
Reply refresh_metadata = Option Error
Reply now = Time
Reply new_uuid = Uuid
Reply (getenv _) = String
Reply (create_session _ _) = Option Error
Reply (listen_and_serve _) = Option Error
Reply _ = Unit {0}

-- A call and its answer.
pub data Event : Type 0 where
  event : (c : Call) → Reply c → Event
