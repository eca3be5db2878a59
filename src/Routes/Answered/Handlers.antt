-- ===== src/Routes/Answered/Handlers.antt =====
-- What each handler of handlers.go, jobs.go and pipelines.go sends to a writer that is ready.
use nostradamus_api.Prelude.{ℕ, String, ◌≡◌, refl, Bool, true, Option, List}
use nostradamus_api.Prelude.Int.{ℤ, pos}
use nostradamus_api.Cache.Interface.{Cache}
use nostradamus_api.Go.Time.{Time, before}
use nostradamus_api.Db.Fields.{get_fields_by_user_id, get_field_by_id, register_field}
use nostradamus_api.Db.Sensors.{get_sensors_by_field_id, register_sensor, get_sensor_credentials}
use nostradamus_api.Db.Readings.{get_readings}
use nostradamus_api.Types.{Entry, Aggregate, Sensor}
use nostradamus_api.Arroyo.Wire.{PipelineResponse}
use nostradamus_api.Go.Fallible.{Result, ok, err}
use nostradamus_api.Go.Json.{Json}
use nostradamus_api.Go.Http.{Request, Writer, http_error, query_get}
use nostradamus_api.World.{World, State, perform, decode_stream}
use nostradamus_api.World.Calls.{now, HttpResponse, Uuid}
use nostradamus_api.Arroyo.Client.{ArroyoClient}
use nostradamus_api.Arroyo.Jobs.{list_jobs, list_jobs_reply, get_job, get_job_reply}
use nostradamus_api.Arroyo.Pipelines.{
  create_pipeline, create_pipeline_reply, list_pipelines, list_pipelines_reply,
}
use nostradamus_api.Routes.App.{App}
use nostradamus_api.Routes.Health.{health_handler, ready_handler}
use nostradamus_api.Routes.Latest.{fetch_key, latest_handler, refresh, reply_entries}
use nostradamus_api.Utils.{
  reply_bad_request, reply_internal_server_error, reply_json, reply_method_not_allowed,
  reply_not_found, reply_unavailable,
}
use nostradamus_api.Routes.Aggregate.{
  cached_aggregate, cache_key, valid_type, aggregate_handler, compute, reply_aggregate, serve,
}
use nostradamus_api.Routes.Fields.{
  decode_field_request, fields_handler, get_field_by_id_handler, register_field_error,
  register_field_handler,
}
use nostradamus_api.Routes.Sensors.{
  decode_sensor_request, credentials_error, get_sensor_credentials_handler, provision,
  register_sensor_error, register_sensor_handler, sensors_handler,
}
use nostradamus_api.Routes.Answered.Ready.{
  Ends, Says, IsReady, ends, on_if, on_option, on_result, reply_json-Says, http_error-Says,
  reply_json-again,
}
use nostradamus_api.Routes.Mux.{Route}
use nostradamus_api.Routes.Mux
use nostradamus_api.Routes.Answered.Statuses.{expected}

module _ (W : World) (ac : ArroyoClient) (w : Writer) (o : IsReady w) where
  says :
      {may : ℕ → Bool} (status : ℕ) (v : Json)
      → may status ≡ true
      → Says may (reply_json status v w)
  says = reply_json-Says w o

  list_jobs_reply-Says :
      (res : Result HttpResponse) → Says (expected Mux.jobs) (list_jobs_reply W ac res w)
  unfolding list_jobs_reply
  list_jobs_reply-Says (err e) = says _ _ refl
  list_jobs_reply-Says (ok resp) =
      on_if (Says (expected Mux.jobs)) _
        (on_result (Says (expected Mux.jobs)) _ (λ e. says _ _ refl) (λ a. says _ _ refl))
        (says _ _ refl)

  get_job_reply-Says :
      (id : String) (res : Result HttpResponse)
      → Says (expected (Mux.job id)) (get_job_reply W ac res w)
  unfolding get_job_reply
  get_job_reply-Says id (err e) = says _ _ refl
  get_job_reply-Says id (ok resp) =
      on_if (Says (expected (Mux.job id))) _
        (on_result (Says (expected (Mux.job id))) _ (λ e. says _ _ refl) (λ a. says _ _ refl))
        (says _ _ refl)

  list_pipelines_reply-Says :
      (res : Result (Option (List PipelineResponse)))
      → Says (expected Mux.pipelines) (list_pipelines_reply W ac res w)
  unfolding list_pipelines_reply
  list_pipelines_reply-Says (err e) = reply_json-again _ _ _ (says _ _ refl)
  list_pipelines_reply-Says (ok pipelines) = says _ _ refl

  create_pipeline_reply-Says :
      (res : Result HttpResponse) → Says (expected Mux.run_job) (create_pipeline_reply W ac res w)
  unfolding create_pipeline_reply
  create_pipeline_reply-Says (err e) = says _ _ refl
  create_pipeline_reply-Says (ok resp) =
      on_result (Says (expected Mux.run_job)) _ (λ e. says _ _ refl) (λ a. says _ _ refl)

  module _ (r : Request) (s : State W) where
    replies :
        {may : ℕ → Bool} (status : ℕ) (v : Json) (s' : State W)
        → may status ≡ true
        → Ends may (reply_json status v w, s')
    replies status v s' fits = ends _ _ (says status v fits)

    no_method : {may : ℕ → Bool} → may 405 ≡ true → Ends may (reply_method_not_allowed w, s)
    unfolding reply_method_not_allowed
    no_method fits = replies _ _ _ fits

    pub list_jobs-Ends : Ends (expected Mux.jobs) (list_jobs W ac r w s)
    unfolding list_jobs
    list_jobs-Ends =
        on_if (Ends (expected Mux.jobs)) _ (ends _ _ (list_jobs_reply-Says _)) (no_method refl)

    pub get_job-Ends : (id : String) → Ends (expected (Mux.job id)) (get_job W ac id r w s)
    unfolding get_job
    get_job-Ends id =
        on_if (Ends (expected (Mux.job id))) _
          (on_if (Ends (expected (Mux.job id))) _ (replies _ _ _ refl)
            (ends _ _ (get_job_reply-Says id _)))
          (no_method refl)

    pub list_pipelines-Ends : Ends (expected Mux.pipelines) (list_pipelines W ac r w s)
    unfolding list_pipelines
    list_pipelines-Ends =
        on_if (Ends (expected Mux.pipelines)) _ (ends _ _ (list_pipelines_reply-Says _))
          (no_method refl)

    pub create_pipeline-Ends : Ends (expected Mux.run_job) (create_pipeline W ac r w s)
    unfolding create_pipeline
    create_pipeline-Ends =
        on_if (Ends (expected Mux.run_job)) _
          (on_result (Ends (expected Mux.run_job)) _ (λ e. replies _ _ _ refl)
            (λ name. ends _ _ (create_pipeline_reply-Says _)))
          (no_method refl)

module _ (W : World) (app : App W) (r : Request) (w : Writer) (s : State W) (o : IsReady w) where
  sends :
      {may : ℕ → Bool} (status : ℕ) (v : Json) (s' : State W)
      → may status ≡ true
      → Ends may (reply_json status v w, s')
  sends status v s' fits = ends _ _ (reply_json-Says w o status v fits)

  plain :
      {may : ℕ → Bool} (m : String) (status : ℕ) (s' : State W)
      → may status ≡ true
      → Ends may (http_error m status w, s')
  plain m status s' fits = ends _ _ (http_error-Says w o m status fits)

  pub reply_method_not_allowed-Ends :
      {may : ℕ → Bool} → may 405 ≡ true → Ends may (reply_method_not_allowed w, s)
  unfolding reply_method_not_allowed
  reply_method_not_allowed-Ends fits = sends _ _ _ fits

  pub health_handler-Ends : Ends (expected Mux.healthz) (health_handler w, s)
  unfolding health_handler
  health_handler-Ends = sends _ _ _ refl

  pub not_found-Ends : Ends (expected Mux.unknown) (http_error "404 page not found" 404 w, s)
  not_found-Ends = plain _ _ _ refl

  pub ready_handler-Ends : Ends (expected Mux.readyz) (ready_handler W app r w s)
  unfolding ready_handler reply_unavailable
  ready_handler-Ends =
      on_option (Ends (expected Mux.readyz)) _
        (on_result (Ends (expected Mux.readyz)) _ (λ e. sends _ _ _ refl)
          (λ pong. sends _ _ _ refl))
        (λ e. sends _ _ _ refl)

  reply_entries-Ends :
      (res : Option (List Entry)) (s' : State W)
      → Ends (expected Mux.latest) (reply_entries W app res w, s')
  unfolding reply_entries
  reply_entries-Ends res s' = sends _ _ _ refl

  refresh-Ends :
      (today : Time) (s' : State W) → Ends (expected Mux.latest) (refresh W app today w s')
  unfolding refresh
  refresh-Ends today s' =
      on_result (Ends (expected Mux.latest)) _ (λ e. sends _ _ _ refl)
        (λ found. reply_entries-Ends _ _)

  pub latest_handler-Ends : Ends (expected Mux.latest) (latest_handler W app r w s)
  unfolding latest_handler
  latest_handler-Ends =
      let (time, s₁) = perform W now s in
      let (res, s₂) =
        Cache.fetch_last app.cache (fetch_key (World.local_midnight W time)) (pos 5) s₁ in
      on_result (Ends (expected Mux.latest)) res (λ e. sends _ _ s₂ refl)
        (λ found. on_if (Ends (expected Mux.latest)) _ (refresh-Ends _ _) (reply_entries-Ends _ _))

  reply_aggregate-Ends :
      (agg : Aggregate) (s' : State W) → Ends (expected Mux.aggregate) (reply_aggregate W agg w, s')
  unfolding reply_aggregate
  reply_aggregate-Ends agg s' = sends _ _ _ refl

  compute-Ends :
      (key id : String) (type dur : ℤ) (time : Time) (s' : State W)
      → Ends (expected Mux.aggregate) (compute W app key id type dur time w s')
  unfolding compute reply_internal_server_error reply_not_found
  compute-Ends key id type dur time s' =
      on_result (Ends (expected Mux.aggregate)) (get_readings W id type (before time dur) time s').0
        (λ e. sends _ _ _ refl)
        (λ readings.
          on_option (Ends (expected Mux.aggregate)) _ (sends _ _ _ refl)
            (λ agg. reply_aggregate-Ends _ _))

  serve-Ends :
      (id : String) (type : ℤ) (window : String) (dur : ℤ)
      → Ends (expected Mux.aggregate) (serve W app id type window dur w s)
  unfolding serve
  serve-Ends id type window dur =
      let (time, s₁) = perform W now s in
      let cached =
        cached_aggregate W (Cache.fetch_aggregate app.cache (cache_key id time window) s₁).0 in
      on_option (Ends (expected Mux.aggregate)) cached (compute-Ends _ _ _ _ _ _)
        (λ agg. reply_aggregate-Ends _ _)

  pub aggregate_handler-Ends : Ends (expected Mux.aggregate) (aggregate_handler W app r w s)
  unfolding aggregate_handler reply_bad_request
  aggregate_handler-Ends = on_if (Ends (expected Mux.aggregate)) _ (sends _ _ _ refl) (
      on_option (Ends (expected Mux.aggregate)) (valid_type (query_get r "sensor_type"))
        (sends _ _ _ refl)
        (λ type.
          on_result (Ends (expected Mux.aggregate)) _ (λ e. sends _ _ _ refl)
            (λ dur. serve-Ends _ _ _ _)))

  pub fields_handler-Ends : Ends (expected Mux.fields) (fields_handler W r w s)
  unfolding fields_handler
  fields_handler-Ends =
      on_if (Ends (expected Mux.fields)) _
        (on_if (Ends (expected Mux.fields)) _ (plain _ _ _ refl) (
          on_result (Ends (expected Mux.fields)) _ (λ e. plain _ _ _ refl)
            (λ user.
              on_result (Ends (expected Mux.fields)) (get_fields_by_user_id W user s).0
                (λ e. plain _ _ _ refl) (λ fields. sends _ _ _ refl))))
        (reply_method_not_allowed-Ends refl)

  pub get_field_by_id_handler-Ends : Ends (expected Mux.field) (get_field_by_id_handler W r w s)
  unfolding get_field_by_id_handler
  get_field_by_id_handler-Ends =
      on_if (Ends (expected Mux.field)) _
        (on_if (Ends (expected Mux.field)) _ (sends _ _ _ refl) (
          on_result (Ends (expected Mux.field)) _ (λ e. sends _ _ _ refl)
            (λ id.
              on_result (Ends (expected Mux.field)) (get_field_by_id W id s).0
                (λ e. sends _ _ _ refl)
                (λ found.
                  on_option (Ends (expected Mux.field)) _ (sends _ _ _ refl)
                    (λ f. sends _ _ _ refl)))))
        (reply_method_not_allowed-Ends refl)

  pub register_field_handler-Ends : Ends (expected Mux.fields) (register_field_handler W r w s)
  unfolding register_field_handler register_field_error
  register_field_handler-Ends =
      on_if (Ends (expected Mux.fields)) _
        (on_result (Ends (expected Mux.fields)) (decode_stream W decode_field_request r.body)
          (λ e. sends _ _ _ refl)
          (λ req.
            on_result (Ends (expected Mux.fields)) (World.parse_uuid W req.user_id)
              (λ e. sends _ _ _ refl)
              (λ user.
                on_result (Ends (expected Mux.fields)) (register_field W user req.field_name s).0
                  (λ e. ends _ _ (
                    on_option (Says (expected Mux.fields)) _ (reply_json-Says w o _ _ refl)
                      (λ n. reply_json-Says w o _ _ refl)))
                  (λ f. sends _ _ _ refl))))
        (reply_method_not_allowed-Ends refl)

  pub sensors_handler-Ends : Ends (expected Mux.sensors) (sensors_handler W r w s)
  unfolding sensors_handler
  sensors_handler-Ends =
      on_if (Ends (expected Mux.sensors)) _
        (on_if (Ends (expected Mux.sensors)) _ (plain _ _ _ refl) (
          on_result (Ends (expected Mux.sensors)) _ (λ e. plain _ _ _ refl)
            (λ id.
              on_result (Ends (expected Mux.sensors)) (get_sensors_by_field_id W id s).0
                (λ e. plain _ _ _ refl) (λ found. sends _ _ _ refl))))
        (reply_method_not_allowed-Ends refl)

  provision-Ends :
      (id : Uuid) (name : String) (sensor : Sensor) (s' : State W)
      → Ends (expected Mux.sensors) (provision W app id name sensor w s')
  unfolding provision
  provision-Ends id name sensor s' = sends _ _ _ refl

  pub register_sensor_handler-Ends :
      Ends (expected Mux.sensors) (register_sensor_handler W app r w s)
  unfolding register_sensor_handler register_sensor_error
  register_sensor_handler-Ends =
      on_if (Ends (expected Mux.sensors)) _
        (on_result (Ends (expected Mux.sensors)) (decode_stream W decode_sensor_request r.body)
          (λ e. sends _ _ _ refl)
          (λ req.
            on_result (Ends (expected Mux.sensors)) (World.parse_uuid W req.field_id)
              (λ e. sends _ _ _ refl)
              (λ id.
                on_result (Ends (expected Mux.sensors))
                  (register_sensor W id req.sensor_name req.sensor_type s).0
                  (λ e. ends _ _ (
                    on_option (Says (expected Mux.sensors)) _ (reply_json-Says w o _ _ refl)
                      (λ n. reply_json-Says w o _ _ refl)))
                  (λ sensor. provision-Ends _ _ _ _))))
        (reply_method_not_allowed-Ends refl)

  pub get_sensor_credentials_handler-Ends :
      Ends (expected Mux.credentials) (get_sensor_credentials_handler W r w s)
  unfolding get_sensor_credentials_handler credentials_error
  get_sensor_credentials_handler-Ends =
      on_if (Ends (expected Mux.credentials)) _
        (on_if (Ends (expected Mux.credentials)) _ (sends _ _ _ refl) (
          on_result (Ends (expected Mux.credentials)) _ (λ e. sends _ _ _ refl)
            (λ id.
              on_result (Ends (expected Mux.credentials)) (get_sensor_credentials W id s).0
                (λ e. ends _ _ (
                  on_if (Says (expected Mux.credentials)) _ (reply_json-Says w o _ _ refl)
                    (reply_json-Says w o _ _ refl)))
                (λ creds. sends _ _ _ refl))))
        (reply_method_not_allowed-Ends refl)
