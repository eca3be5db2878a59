-- ===== src/Examples/Requests.antt =====
-- Registrations and replies.
use nostradamus_api.Routes.Quiet.{mux-reads_only}
use nostradamus_api.World.Only.{still}
use nostradamus_api.Routes.Quiet.Caches.{valkey-IsQuiet}
use nostradamus_api.Prelude.{◌≡◌, ◌≢◌, refl, some, arith, eq_iff, [], ◌∷◌}
use nostradamus_api.Prelude.Int.{pos}
use nostradamus_api.Go.Float64.{is_finite}
use nostradamus_api.Go.Http.{Request, Writer, new_writer}
use nostradamus_api.Go.Strconv.{padded}
use nostradamus_api.Go.Time.{format_date, date_text}
use nostradamus_api.Cache.Valkey
use nostradamus_api.Go.Json.{obj, end}
use nostradamus_api.Types.{Aggregate}
use nostradamus_api.Utils.{reply_json}
use nostradamus_api.Wire.{decode_aggregate}
use nostradamus_api.World.{State}
use nostradamus_api.World.Trace.{writes, answered_writes}
use nostradamus_api.Db.Fields.{register_field}
use nostradamus_api.Db.Fields.Laws.{ListsFields, Unique, register_field-Unique}
use nostradamus_api.Db.Fields.Laws as FieldLaws
use nostradamus_api.Db.Sensors.{register_sensor}
use nostradamus_api.Db.Sensors.Laws as SensorLaws
use nostradamus_api.Routes.Latest.{fetch_key, store_key}
use nostradamus_api.Routes.Latest.Laws.{fetch_key-ne-store_key}
use nostradamus_api.Routes.Aggregate.{
  cache_key, cached_aggregate, aggregate_handler, reply_aggregate, serve,
}
use nostradamus_api.Routes.Aggregate.Laws.{
  Treated, aggregate_handler-Treated, serve_any_type, reply_aggregate_not_finite,
}
use nostradamus_api.Go.Io.{Io}
use nostradamus_api.Routes.Mux.{mux}
use nostradamus_api.Routes.Answered.{Ends, mux-answers}
use nostradamus_api.Routes.Answered.Statuses.{expected_of}
use nostradamus_api.Routes.Answered.Ready.{ends, reply_json-Says}
use nostradamus_api.Examples.Desk.{desk, start, app, noon, float}

abbrev missing : Request
missing = record {
  method = "GET";
  path = "/aggregate";
  query = ("sensor_id", "s") ∷ ("sensor_type", "x") ∷ ("window", "1h") ∷ [];
  body = "";
}

-- A handler in place of that of the Prometheus client.
abbrev no_metrics : Request → Writer → Io (State desk) Writer
no_metrics r w s = (reply_json 200 (obj end) w, s)

abbrev fields_of_user : Request
fields_of_user = record {
  method = "GET";
  path = "/fields";
  query = ("user_id", "7") ∷ [];
  body = "";
}

mux-answers_example :
    Ends (expected_of desk fields_of_user) (mux desk app no_metrics fields_of_user new_writer start)
mux-answers_example =
    mux-answers desk app no_metrics fields_of_user new_writer start refl
      (λ e w o. ends _ _ (reply_json-Says w o _ _ refl))

mux-reads_only_example : writes (mux desk app no_metrics fields_of_user new_writer start).1.log ≡ []
mux-reads_only_example =
    mux-reads_only desk app no_metrics (valkey-IsQuiet desk) fields_of_user start new_writer
      (λ e. absurd (ground (arith, (eq_iff "GET" "POST").1 e))) (λ e w. still desk start)

aggregate_handler-Treated_example :
    Treated desk app missing new_writer start (aggregate_handler desk app missing new_writer start)
aggregate_handler-Treated_example = aggregate_handler-Treated desk app missing new_writer start

register_field-Registered_example :
    FieldLaws.Registered desk 7 "South"
      (FieldLaws.is_taken desk 7 "South" start)
      (FieldLaws.read_error desk 7 "South" start)
      []
      (writes (register_field desk 7 "South" start).1.log)
      (register_field desk 7 "South" start).0
register_field-Registered_example = FieldLaws.register_field-Registered desk 7 "South" start

register_sensor-Registered_example :
    SensorLaws.Registered desk 7 "probe"
      (pos 1)
      (SensorLaws.is_taken desk 7 "probe" (pos 1) start)
      (SensorLaws.read_error desk 7 "probe" (pos 1) start)
      []
      (answered_writes (register_sensor desk 7 "probe" (pos 1) start).1.log)
      (register_sensor desk 7 "probe" (pos 1) start).0
register_sensor-Registered_example =
    SensorLaws.register_sensor-Registered desk 7 "probe" (pos 1) start

fetch_key-ne-store_key_example : fetch_key noon ≢ store_key noon
fetch_key-ne-store_key_example = fetch_key-ne-store_key noon noon

abbrev found : Aggregate
found = record { avg = float 14; min = float 5; max = float 9; count = pos 2; timestamp = noon }

abbrev cached : State desk
cached = record { ext = (cache_key "s" noon "1h", "stored") ∷ []; log = [] }

serve_any_type_example :
    ((serve desk app "s" (pos 0) "1h" (pos 5) new_writer cached).0
      ≡ reply_aggregate desk found new_writer)
    × (serve desk app "s" (pos 1) "1h" (pos 5) new_writer cached
        ≡ serve desk app "s" (pos 0) "1h" (pos 5) new_writer cached)
unfolding cached_aggregate Valkey.fetch_aggregate cache_key format_date date_text padded
    decode_aggregate
serve_any_type_example =
    serve_any_type desk app "s" "1h" (pos 0) (pos 1) (pos 5) found new_writer cached refl

abbrev not_finite : Aggregate
not_finite = record {
  avg = float 9218868437227405312;
  min = float 5;
  max = float 9;
  count = pos 2;
  timestamp = noon;
}

reply_aggregate_not_finite_example :
    ((reply_aggregate desk not_finite new_writer).sent
      ≡ some (200, ("Content-Type", "application/json") ∷ []))
    × ((reply_aggregate desk not_finite new_writer).body ≡ [])
unfolding is_finite
reply_aggregate_not_finite_example =
    reply_aggregate_not_finite desk app not_finite new_writer refl refl
