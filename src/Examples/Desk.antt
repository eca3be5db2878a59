-- ===== src/Examples/Desk.antt =====
-- The world that the examples run in.
use nostradamus_api.Prelude.{
  ℕ, ◌+◌, ◌-◌, ◌*◌, String, Option, none, some, List, [], ◌∷◌, str_eq, lookup, if◌then◌else◌,
}
use nostradamus_api.Prelude.Int.{pos, pos_part}
use nostradamus_api.Errors.{text, gocql_not_found, redis_nil, memcache_miss}
use nostradamus_api.Go.Fallible.{Result, ok, err}
use nostradamus_api.Go.Float64.{Float64}
use nostradamus_api.Go.Json.{Json, int, real, str, obj, field, end}
use nostradamus_api.Go.Time.{Time, day}
use nostradamus_api.World.{World, State}
use nostradamus_api.World.Calls
use nostradamus_api.World.Calls.{
  Uuid, Call, Reply, Iter, Row, Statement, HttpResponse, iterate, scan_one, exec, send, redis_set,
  redis_get, memcache_set, memcache_get, z_add, expire, z_rev_range, redis_ping, memcache_ping,
  connect_kafka, close_kafka, topics, refresh_metadata, count_hit, count_miss, observe_read,
  observe_write, now, new_uuid, sleep, getenv, create_session, set_tracer, go_watch, go_supervise,
  listen_and_serve, close_session, close_cache, shutdown_tracer, cancel_watcher, cancel_supervisor,
}
use nostradamus_api.Arroyo.Client.{ArroyoClient}
use nostradamus_api.Emqx.{EmqxClient}
use nostradamus_api.Routes.App.{App}
use nostradamus_api.Cache.Drivers.{valkey}
use nostradamus_api.Db.Readings.Laws.{values_in}

abbrev pub float : ℕ → Float64
float n = record { bits = n }

-- The time that the clock shows: one hour into the day 738000.
abbrev pub noon : Time
noon = 738000 * day + 3600000000000

-- The readings of every bucket.
abbrev pub readings_of : String → Uuid → String → List (Time × Float64)
readings_of table sid bucket = (noon - 1, float 5) ∷ (noon, float 9) ∷ []

abbrev pub fields_of : List (Uuid × String)
fields_of = (7, "North") ∷ []

abbrev no_rows : {A : Type 0} → Iter A
no_rows = record { rows = []; close = none }

abbrev rows_of : (s : Statement) → Iter (Row s)
rows_of (Calls.values_between table sid bucket from to) = record {
  rows = values_in from to (readings_of table sid bucket);
  close = none;
}
rows_of (Calls.field_ids_of_user _) = record { rows = 7 ∷ []; close = none }
rows_of _ = no_rows

abbrev row_of : (s : Statement) → Result (Row s)
row_of (Calls.field_name_of _ _) = ok "North"
row_of _ = err gocql_not_found

-- What the cache holds, by key.
abbrev pub Kept : Type 0
Kept = List (String × String)

abbrev held : Kept → String → Option String
held kept key = lookup key kept

abbrev redis_reply : Option String → Result String
redis_reply none = err redis_nil
redis_reply (some v) = ok v

abbrev memcache_reply : Option String → Result String
memcache_reply none = err memcache_miss
memcache_reply (some v) = ok v

abbrev pub accepted : HttpResponse
accepted = record { status_code = 200; status = "200 OK"; body = "" }

abbrev pub desk_answer : (c : Call) → Kept → Reply c × Kept
desk_answer (iterate s) x = (rows_of s, x)
desk_answer (scan_one s) x = (row_of s, x)
desk_answer (exec s) x = (none, x)
desk_answer (send r) x = (ok accepted, x)
desk_answer (redis_set key v _) x = (none, (key, v) ∷ x)
desk_answer (redis_get key) x = (redis_reply (held x key), x)
desk_answer (memcache_set key v _) x = (none, (key, v) ∷ x)
desk_answer (memcache_get key) x = (memcache_reply (held x key), x)
desk_answer (z_add _ _ _) x = (none, x)
desk_answer (expire _ _) x = (none, x)
desk_answer (z_rev_range _ _ _) x = (ok [], x)
desk_answer redis_ping x = (none, x)
desk_answer memcache_ping x = (none, x)
desk_answer (connect_kafka _) x = (none, x)
desk_answer close_kafka x = (tt, x)
desk_answer topics x = (ok ("temperatures_a" ∷ "logs" ∷ []), x)
desk_answer refresh_metadata x = (none, x)
desk_answer (count_hit _) x = (tt, x)
desk_answer (count_miss _) x = (tt, x)
desk_answer (observe_read _) x = (tt, x)
desk_answer (observe_write _) x = (tt, x)
desk_answer now x = (noon, x)
desk_answer new_uuid x = (42, x)
desk_answer (sleep _) x = (tt, x)
desk_answer (getenv key) x = (if str_eq key "MEMCACHED_NODE" then "" else "desk", x)
desk_answer (create_session _ _) x = (none, x)
desk_answer (set_tracer _ _) x = (tt, x)
desk_answer (go_watch _) x = (tt, x)
desk_answer (go_supervise _) x = (tt, x)
desk_answer (listen_and_serve _) x = (some (text "address already in use"), x)
desk_answer (close_session _) x = (tt, x)
desk_answer (close_cache _) x = (tt, x)
desk_answer shutdown_tracer x = (tt, x)
desk_answer cancel_watcher x = (tt, x)
desk_answer cancel_supervisor x = (tt, x)

-- The aggregate of the stored readings, and its JSON.
abbrev pub stored_aggregate : Json
stored_aggregate = obj (
    field "avg" (real (float 14)) (
      field "min" (real (float 5)) (
        field "max" (real (float 9))
          (field "count" (int (pos 2)) (field "timestamp" (str "noon") end)))))

-- `json_text` and `whole_json` know one document by name.
abbrev pub desk : World
desk = record {
  Ext = Kept;
  answer = desk_answer;
  parse_uuid = λ s. ok 7;
  gocql_parse_uuid = λ s. ok 7;
  uuid_text = λ n. "00000000-0000-0000-0000-000000000007";
  parse_duration =
      λ s. if str_eq s "1h" then ok (pos 3600000000000) else err (text "time: invalid duration");
  local_midnight = λ t. t;
  parse_float = λ s. ok (float 0);
  four_decimals = λ x. "0.0000";
  add = λ x y. float (x.bits + y.bits);
  divide = λ x y. x;
  of_int = λ n. float (pos_part n);
  to_int64 = λ x. pos x.bits;
  to_int32 = λ x. pos x.bits;
  time_text = λ t. "noon";
  parse_time = λ s. ok noon;
  json_text = λ v. "stored";
  first_json = λ s. ok (obj end);
  whole_json = λ s. ok (if str_eq s "stored" then stored_aggregate else obj end);
  url_error = λ s. none;
  path_unescape = λ s. s;
  location = λ path query. path;
}

abbrev pub start : State desk
start = record { ext = []; log = [] }

abbrev pub arroyo : ArroyoClient
arroyo = record { base_url = "arroyo:5115" }

abbrev pub emqx : EmqxClient
emqx = record { base_url = "emqx"; api_key = "key"; api_secret = "secret" }

abbrev pub app : App desk
app = record { cache = valkey desk; arroyo = arroyo; emqx = emqx; driver = "valkey" }
