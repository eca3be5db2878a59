-- ===== src/Routes/Quiet/Handlers.antt =====
-- The handlers of GET, and the writes in the log (handlers.go, jobs.go, pipelines.go).
use nostradamus_api.Prelude.{some, ltb, length, ◌||◌, String, ◌<>◌, str_eq, List, [], ◌∷◌, refl}
use nostradamus_api.Prelude.Int.{ℤ, pos}
use nostradamus_api.Go.Http.{Request, Writer, query_get}
use nostradamus_api.Go.Time.{Time, before, format_date}
use nostradamus_api.Types.{Entry}
use nostradamus_api.Go.Json.{slice_elems}
use nostradamus_api.Wire.{aggregate_json}
use nostradamus_api.World.{World, State, perform, decode_stream}
use nostradamus_api.World.Only.{still, once, behind, reply_to}
use nostradamus_api.World.Calls.{now, exec, select_now}
use nostradamus_api.Arroyo.Client.{ArroyoClient, get}
use nostradamus_api.Arroyo.Jobs.{list_jobs, get_job}
use nostradamus_api.Arroyo.Pipelines.{
  list_pipelines, list_pipelines_internal, create_pipeline, decode_create,
}
use nostradamus_api.Cache.Interface.{Cache}
use nostradamus_api.Db.Fields.{get_fields_by_user_id, get_field_by_id}
use nostradamus_api.Db.Sensors.{get_last5_values, get_sensors_by_field_id, get_sensor_credentials}
use nostradamus_api.Db.Readings.{get_readings}
use nostradamus_api.Routes.App.{App}
use nostradamus_api.Routes.Health.{ready_handler}
use nostradamus_api.Routes.Latest.{
  fixed_sensor, latest_handler, refresh, store_entries, fetch_key, store_key,
}
use nostradamus_api.Routes.Aggregate.{
  aggregate_handler, serve, compute, cached_aggregate, cache_key, valid_type, five_minutes,
}
use nostradamus_api.Routes.Aggregate.Fold.{aggregate}
use nostradamus_api.Routes.Fields.{fields_handler, get_field_by_id_handler}
use nostradamus_api.Routes.Sensors.{sensors_handler, get_sensor_credentials_handler}
use nostradamus_api.Routes.Answered.Ready.{on_if, on_option, on_result}
use nostradamus_api.Routes.Quiet.Reads.{
  Quiet, get_fields_by_user_id-Quiet, get_field_by_id-Quiet, get_sensors_by_field_id-Quiet,
  get_sensor_credentials-Quiet, get_last5_values-Quiet, get_readings-Quiet,
  list_pipelines_internal-Quiet, get-Quiet, post-Quiet,
}
use nostradamus_api.Routes.Quiet.Caches.{IsQuiet}

module _ (W : World) (s : State W) where
  module _ (r : Request) (w : Writer) where
    pub fields_handler-Quiet : Quiet W s (fields_handler W r w s)
    unfolding fields_handler
    fields_handler-Quiet =
        on_if (Quiet W s) (str_eq r.method "GET")
          (on_if (Quiet W s) (str_eq (query_get r "user_id") "") (still W s) (
            on_result (Quiet W s) (World.parse_uuid W (query_get r "user_id")) (λ e. (still W s))
              (λ id.
                let out = get_fields_by_user_id W id s in
                let read = get_fields_by_user_id-Quiet W id s in
                on_result (Quiet W s) out.0 (λ e. reply_to W out read) (λ a. reply_to W out read))))
          (still W s)

    pub sensors_handler-Quiet : Quiet W s (sensors_handler W r w s)
    unfolding sensors_handler
    sensors_handler-Quiet =
        on_if (Quiet W s) (str_eq r.method "GET")
          (on_if (Quiet W s) (str_eq (query_get r "field_id") "") (still W s) (
            on_result (Quiet W s) (World.parse_uuid W (query_get r "field_id")) (λ e. (still W s))
              (λ id.
                let out = get_sensors_by_field_id W id s in
                let read = get_sensors_by_field_id-Quiet W id s in
                on_result (Quiet W s) out.0 (λ e. reply_to W out read) (λ a. reply_to W out read))))
          (still W s)

    pub get_sensor_credentials_handler-Quiet : Quiet W s (get_sensor_credentials_handler W r w s)
    unfolding get_sensor_credentials_handler
    get_sensor_credentials_handler-Quiet =
        on_if (Quiet W s) (str_eq r.method "GET")
          (on_if (Quiet W s) (str_eq (query_get r "sensor_id") "") (still W s) (
            on_result (Quiet W s) (World.parse_uuid W (query_get r "sensor_id")) (λ e. (still W s))
              (λ id.
                let out = get_sensor_credentials W id s in
                let read = get_sensor_credentials-Quiet W id s in
                on_result (Quiet W s) out.0 (λ e. reply_to W out read) (λ a. reply_to W out read))))
          (still W s)

    pub get_field_by_id_handler-Quiet : Quiet W s (get_field_by_id_handler W r w s)
    unfolding get_field_by_id_handler
    get_field_by_id_handler-Quiet =
        on_if (Quiet W s) (str_eq r.method "GET")
          (on_if (Quiet W s) (str_eq (query_get r "field_id") "") (still W s) (
            on_result (Quiet W s) (World.parse_uuid W (query_get r "field_id")) (λ e. (still W s))
              (λ id.
                let out = get_field_by_id W id s in
                let read = get_field_by_id-Quiet W id s in
                on_result (Quiet W s) out.0 (λ e. reply_to W out read)
                  (λ a. on_option (Quiet W s) a (reply_to W out read) (λ f. reply_to W out read)))))
          (still W s)

    module _ (ac : ArroyoClient) where
      pub list_jobs-Quiet : Quiet W s (list_jobs W ac r w s)
      unfolding list_jobs
      list_jobs-Quiet =
          let path : String = "/api/v1/jobs" in
          on_if (Quiet W s) (str_eq r.method "GET")
            (reply_to W (get W ac path s) (get-Quiet W ac path s)) (still W s)

      pub get_job-Quiet : (id : String) → Quiet W s (get_job W ac id r w s)
      unfolding get_job
      get_job-Quiet id =
          let path : String = "/api/v1/pipelines/" <> id <> "/jobs" in
          on_if (Quiet W s) (str_eq r.method "GET")
            (on_if (Quiet W s) (str_eq id "") (still W s)
              (reply_to W (get W ac path s) (get-Quiet W ac path s)))
            (still W s)

      pub create_pipeline-Quiet : Quiet W s (create_pipeline W ac r w s)
      unfolding create_pipeline
      create_pipeline-Quiet =
          on_if (Quiet W s) (str_eq r.method "POST")
            (on_result (Quiet W s) (decode_stream W (decode_create W ac) r.body) (λ e. still W s)
              (λ name. reply_to W _ (post-Quiet W ac "/api/v1/pipelines" (some _) s)))
            (still W s)

      pub list_pipelines-Quiet : Quiet W s (list_pipelines W ac r w s)
      unfolding list_pipelines
      list_pipelines-Quiet =
          on_if (Quiet W s) (str_eq r.method "GET")
            (reply_to W (list_pipelines_internal W ac s) (list_pipelines_internal-Quiet W ac s))
            (still W s)

module _ (W : World) (app : App W) (cache : IsQuiet W app.cache) (r : Request) (w : Writer) where
  pub ready_handler-Quiet : (s : State W) → Quiet W s (ready_handler W app r w s)
  unfolding ready_handler perform
  ready_handler-Quiet s =
      let (scylla, s₁) = perform W (exec select_now) s in
      let pong = Cache.ping app.cache s₁ in
      let read = once W (exec select_now) s refl in
      let pinged = behind W read (cache.ping s₁) in
      on_option (Quiet W s) scylla
        (on_result (Quiet W s) pong.0 (λ e. reply_to W pong pinged) (λ a. reply_to W pong pinged))
        (λ e. reply_to W (perform W (exec select_now) s) read)

  store_entries-Quiet :
      (today : Time) (es : List Entry) (s : State W) → Quiet W s (store_entries W app today es s)
  unfolding store_entries
  store_entries-Quiet today [] s = still W s
  store_entries-Quiet today (e ∷ es) s =
      let stored = Cache.store app.cache (store_key today) e s in
      behind W (cache.store (store_key today) e s) (store_entries-Quiet today es stored.1)

  refresh-Quiet : (today : Time) (s : State W) → Quiet W s (refresh W app today w s)
  unfolding refresh
  refresh-Quiet today s =
      let out = get_last5_values W fixed_sensor (format_date today) s in
      let read = get_last5_values-Quiet W fixed_sensor (format_date today) s in
      on_result (Quiet W s) out.0 (λ e. reply_to W out read)
        (λ found.
          reply_to W _ (behind W read (store_entries-Quiet today (slice_elems found) out.1)))

  pub latest_handler-Quiet : (s : State W) → Quiet W s (latest_handler W app r w s)
  unfolding latest_handler perform
  latest_handler-Quiet s =
      let (time, s₁) = perform W now s in
      let today : Time = World.local_midnight W time in
      let out = Cache.fetch_last app.cache (fetch_key today) (pos 5) s₁ in
      let read = behind W (once W now s refl) (cache.fetch_last (fetch_key today) (pos 5) s₁) in
      on_result (Quiet W s) out.0 (λ e. reply_to W out read)
        (λ found.
          on_if (Quiet W s) (ltb (length (slice_elems found)) 5)
            (behind W read (refresh-Quiet today out.1)) (reply_to W out read))

  compute-Quiet :
      (key id : String) (type dur : ℤ) (time : Time) (s : State W)
      → Quiet W s (compute W app key id type dur time w s)
  unfolding compute
  compute-Quiet key id type dur time s =
      let out = get_readings W id type (before time dur) time s in
      let read = get_readings-Quiet W id type (before time dur) time s in
      on_result (Quiet W s) out.0 (λ e. reply_to W out read)
        (λ readings. on_option (Quiet W s) (aggregate W time readings) (reply_to W out read) (λ agg.
          reply_to W _
            (behind W read (cache.store_aggregate key (aggregate_json W agg) five_minutes out.1))))

  serve-Quiet :
      (id : String) (type : ℤ) (window : String) (dur : ℤ) (s : State W)
      → Quiet W s (serve W app id type window dur w s)
  unfolding serve perform
  serve-Quiet id type window dur s =
      let (time, s₁) = perform W now s in
      let key = cache_key id time window in
      let out = Cache.fetch_aggregate app.cache key s₁ in
      let read = behind W (once W now s refl) (cache.fetch_aggregate key s₁) in
      on_option (Quiet W s) (cached_aggregate W out.0)
        (behind W read (compute-Quiet key id type dur time out.1)) (λ agg. reply_to W out read)

  pub aggregate_handler-Quiet : (s : State W) → Quiet W s (aggregate_handler W app r w s)
  unfolding aggregate_handler
  aggregate_handler-Quiet s =
      let id = query_get r "sensor_id" in
      let type_text = query_get r "sensor_type" in
      let window = query_get r "window" in
      on_if (Quiet W s) (str_eq id "" || str_eq type_text "" || str_eq window "") (still W s) (
        on_option (Quiet W s) (valid_type type_text) (still W s) (λ type.
          on_result (Quiet W s) (World.parse_duration W window) (λ e. still W s)
            (λ dur. serve-Quiet id type window dur s)))
