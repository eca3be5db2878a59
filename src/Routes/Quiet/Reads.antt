-- ===== src/Routes/Quiet/Reads.antt =====
-- The reads of internal/db and the requests to Arroyo, none of which writes to the database.
use nostradamus_api.Prelude.{ℕ, zero, suc, ◌+◌, Option, String, ◌<>◌, refl, List, [], ◌++◌, ltb}
use nostradamus_api.Prelude.Int.{ℤ}
use nostradamus_api.Go.Fallible.{wrap_result, result_of_error}
use nostradamus_api.Go.Json.{Json}
use nostradamus_api.Go.Float64.{Float64}
use nostradamus_api.Go.Time.{Time, day, midnight, format_date}
use nostradamus_api.World.{World, State, perform}
use nostradamus_api.World.Calls.{
  Uuid, Iter, iterate, scan_one, send, fields_of_user, field_by_id, sensors_of_field,
  credentials_of, last_five, values_between,
}
use nostradamus_api.World.Only.{is_plain, Only, still, once, reply_to, and_then}
use nostradamus_api.Arroyo.Client.{ArroyoClient, get_request, json_request, marshal_body, get, post}
use nostradamus_api.Arroyo.Pipelines.{list_pipelines_internal}
use nostradamus_api.Db.Fields.{get_fields_by_user_id, get_field_by_id}
use nostradamus_api.Db.Sensors.{get_last5_values, get_sensors_by_field_id, get_sensor_credentials}
use nostradamus_api.Db.Readings.{read_bucket, read_buckets, get_readings, table_of, bucket_fuel}
use nostradamus_api.Routes.Answered.Ready.{on_if}

module _ (W : World) where
  -- The action sends no write to the database.
  abbrev pub Quiet : {A : Type 0} → State W → A × State W → Type 0
  Quiet = Only W is_plain

  pub get_fields_by_user_id-Quiet :
      (user : Uuid) (s : State W) → Quiet s (get_fields_by_user_id W user s)
  unfolding get_fields_by_user_id
  get_fields_by_user_id-Quiet user s =
      let call = iterate (fields_of_user user) in
      and_then W (result_of_error (Iter.close (perform W call s).0)) _ (once W call s refl)
        (λ _. still W _)

  pub get_field_by_id-Quiet : (id : Uuid) (s : State W) → Quiet s (get_field_by_id W id s)
  unfolding get_field_by_id
  get_field_by_id-Quiet id s = reply_to W _ (once W (scan_one (field_by_id id)) s refl)

  pub get_sensors_by_field_id-Quiet :
      (id : Uuid) (s : State W) → Quiet s (get_sensors_by_field_id W id s)
  unfolding get_sensors_by_field_id
  get_sensors_by_field_id-Quiet id s =
      let call = iterate (sensors_of_field id) in
      and_then W (result_of_error (Iter.close (perform W call s).0)) _ (once W call s refl)
        (λ _. still W _)

  pub get_sensor_credentials-Quiet :
      (id : Uuid) (s : State W) → Quiet s (get_sensor_credentials W id s)
  unfolding get_sensor_credentials
  get_sensor_credentials-Quiet id s = reply_to W _ (once W (scan_one (credentials_of id)) s refl)

  pub get_last5_values-Quiet :
      (sensor date : String) (s : State W) → Quiet s (get_last5_values W sensor date s)
  unfolding get_last5_values
  get_last5_values-Quiet sensor date s =
      and_then W (World.gocql_parse_uuid W sensor) _ (still W {a = tt} s) (λ id.
        let call = iterate (last_five id date) in
        and_then W (result_of_error (Iter.close (perform W call s).0)) _ (once W call s refl)
          (λ _. still W _))

  read_bucket-Quiet :
      (table : String) (sid : Uuid) (from to date : Time) (s : State W)
      → Quiet s (read_bucket W table sid from to date s)
  unfolding read_bucket
  read_bucket-Quiet table sid from to date s =
      let bucket = format_date date in
      let call = iterate (values_between table sid bucket from to) in
      let closed = result_of_error (Iter.close (perform W call s).0) in
      and_then W (wrap_result ("failed to query bucket " <> bucket <> ": ") closed) _
        (once W call s refl) (λ _. still W _)

  read_buckets-Quiet :
      (fuel : ℕ) (table : String) (sid : Uuid) (from to date end : Time) (readings : List Float64)
      (s : State W)
      → Quiet s (read_buckets W fuel table sid from to date end readings s)
  unfolding read_buckets
  read_buckets-Quiet zero table sid from to date end readings s = still W s
  read_buckets-Quiet (suc fuel) table sid from to date end readings s =
      let (r, s') = read_bucket W table sid from to date s in
      on_if (Quiet s) (ltb end date) (still W s) (
        and_then W r _ (read_bucket-Quiet table sid from to date s)
          (λ vs. read_buckets-Quiet fuel table sid from to (date + day) end (readings ++ vs) s'))

  pub get_readings-Quiet :
      (sensor : String) (type : ℤ) (from to : Time) (s : State W)
      → Quiet s (get_readings W sensor type from to s)
  unfolding get_readings midnight
  get_readings-Quiet sensor type from to s =
      let id = wrap_result "invalid sensor_id: " (World.gocql_parse_uuid W sensor) in
      let start = midnight from in
      let end = midnight to in
      and_then W id _ (still W {a = tt} s) (λ sid.
        and_then W (table_of type) _ (still W {a = tt} s)
          (λ table. read_buckets-Quiet (bucket_fuel start end) table sid from to start end [] s))

  pub get-Quiet : (ac : ArroyoClient) (path : String) (s : State W) → Quiet s (get W ac path s)
  unfolding get
  get-Quiet ac path s = once W (send (get_request ac path)) s refl

  pub list_pipelines_internal-Quiet :
      (ac : ArroyoClient) (s : State W) → Quiet s (list_pipelines_internal W ac s)
  unfolding list_pipelines_internal
  list_pipelines_internal-Quiet ac s =
      let path : String = "/api/v1/pipelines" in
      and_then W (get W ac path s).0 _ (get-Quiet ac path s) (λ _. still W _)

  pub post-Quiet :
      (ac : ArroyoClient) (path : String) (body : Option Json) (s : State W)
      → Quiet s (post W ac path body s)
  unfolding post
  post-Quiet ac path body s =
      let address = World.url_error W ("http://" <> ac.base_url <> path) in
      and_then W (marshal_body body) _ (still W {a = tt} s) (λ doc.
        and_then W (result_of_error address) _ (still W {a = tt} s)
          (λ _. once W (send (json_request "POST" ac path doc)) s refl))
