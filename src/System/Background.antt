-- ===== src/System/Background.antt =====
-- The calls of the watcher and of the supervisor (watcher.go, supervisor.go, internal/arroyo).
use nostradamus_api.Prelude.{
  ◌*◌, Bool, true, false, String, ◌<>◌, Option, some, none, List, refl, ◌==◌, ◌||◌,
}
use nostradamus_api.Prelude.Int.{ℤ, pos}
use nostradamus_api.Errors.{Error, text}
use nostradamus_api.Go.Strconv.{decimal}
use nostradamus_api.Go.Time.{millisecond}
use nostradamus_api.Types.{Pipeline}
use nostradamus_api.Kafka.Watcher.{is_ignored, knows, watch_topic}
use nostradamus_api.Worker.{Listed, inspect, decode_jobs, has_failed, check_pipeline, jobs_path}
use nostradamus_api.Go.Fallible.{Result, ok, err, wrap_result, result_of_error}
use nostradamus_api.Go.Json.{Json, marshal, slice_elems}
use nostradamus_api.World.{World, State, perform}
use nostradamus_api.World.Calls.{HttpResponse, send, sleep}
use nostradamus_api.World.Only.{still, once, behind, reply_to, and_then, and_require}
use nostradamus_api.Arroyo.Client.{ArroyoClient, json_request, marshal_body, get, post, delete}
use nostradamus_api.Arroyo.Wire.{
  ProfileCache, ConnectionTableRequest, connection_table_json, create_payload, restart_payload,
}
use nostradamus_api.Arroyo.Tables.{create_connection_table, unexpected}
use nostradamus_api.Go.Decode.{require}
use nostradamus_api.Arroyo.Pipelines.{create_pipeline_internal}
use nostradamus_api.Arroyo.Restart.{
  fetch_pipeline, delete_pipeline, recreate_pipeline, restart_pipeline, pipeline_path,
  parallelism_of,
}
use nostradamus_api.Kafka.Flow.{
  create_table_step, create_pipeline_step, create_arroyo_flow, kafka_request, flow_query,
}
use nostradamus_api.Routes.Answered.Ready.{on_if, on_result}
use nostradamus_api.Routes.Quiet.Reads.{Quiet, get-Quiet, post-Quiet}

module _ (W : World) (ac : ArroyoClient) where
  on_require : (b : Bool) (e : Error) (s : State W) → Quiet W s (require b e s)
  on_require true e s = still W s
  on_require false e s = still W s

  delete-Quiet :
      (path : String) (body : Option Json) (s : State W) → Quiet W s (delete W ac path body s)
  unfolding delete
  delete-Quiet path body s =
      let address = World.url_error W ("http://" <> ac.base_url <> path) in
      and_then W (marshal_body body) _ (still W {a = tt} s) (λ doc.
        and_then W (result_of_error address) _ (still W {a = tt} s)
          (λ _. once W (send (json_request "DELETE" ac path doc)) s refl))

  create_connection_table-Quiet :
      (req : ConnectionTableRequest) (s : State W) → Quiet W s (create_connection_table W ac req s)
  unfolding create_connection_table
  create_connection_table-Quiet req s =
      let path : String = "/api/v1/connection_tables" in
      let address = World.url_error W ("http://" <> ac.base_url <> path) in
      let doc = wrap_result "marshal: " (marshal (connection_table_json req)) in
      and_then W doc _ (still W {a = tt} s) (λ doc.
        and_then W (wrap_result "build request: " (result_of_error address)) _ (still W {a = tt} s)
          (λ _.
            let call = send (json_request "POST" ac path (some doc)) in
            let (r, s') = perform W call s in
            and_then W (wrap_result "send request: " r) _ (once W call s refl) (λ resp.
              and_require W (resp.status_code == 200 || resp.status_code == 201) (unexpected resp) _
                (still W {a = tt} s') (still W s'))))

  create_pipeline_internal-Quiet :
      (name query : String) (n : ℤ) (s : State W)
      → Quiet W s (create_pipeline_internal W ac name query n s)
  unfolding create_pipeline_internal
  create_pipeline_internal-Quiet name query n s =
      let path : String = "/api/v1/pipelines" in
      let body = some (create_payload name query n) in
      let (r, s') = post W ac path body s in
      and_then W (wrap_result "failed to reach Arroyo API: " r) _ (post-Quiet W ac path body s)
        (λ resp.
          and_require W (resp.status_code == 200 || resp.status_code == 201)
            (text ("Arroyo returned " <> decimal resp.status_code <> ": " <> resp.body)) _
            (still W {a = tt} s') (still W s'))

  fetch_pipeline-Quiet : (id : String) (s : State W) → Quiet W s (fetch_pipeline W ac id s)
  unfolding fetch_pipeline
  fetch_pipeline-Quiet id s =
      let (r, s') = get W ac (pipeline_path id) s in
      and_then W (wrap_result ("failed to fetch pipeline " <> id <> ": ") r) _
        (get-Quiet W ac (pipeline_path id) s)
        (λ resp. and_require W (resp.status_code == 200) _ _ (still W {a = tt} s') (still W s'))

  delete_pipeline-Quiet : (id : String) (s : State W) → Quiet W s (delete_pipeline W ac id s)
  unfolding delete_pipeline
  delete_pipeline-Quiet id s =
      let (r, s') = delete W ac (pipeline_path id) none s in
      and_then W (wrap_result ("failed to delete pipeline " <> id <> ": ") r) _
        (delete-Quiet (pipeline_path id) none s)
        (λ resp. on_require (resp.status_code == 200 || resp.status_code == 204) _ s')

  recreate_pipeline-Quiet :
      (id : String) (p : Pipeline) (s : State W) → Quiet W s (recreate_pipeline W ac id p s)
  unfolding recreate_pipeline
  recreate_pipeline-Quiet id p s =
      let body = some (restart_payload p.name p.query (parallelism_of p)) in
      let (r, s') = post W ac "/api/v1/pipelines" body s in
      and_then W (wrap_result ("failed to recreate pipeline " <> id <> ": ") r) _
        (post-Quiet W ac "/api/v1/pipelines" body s)
        (λ resp. on_require (resp.status_code == 200 || resp.status_code == 201) _ s')

  restart_pipeline-Quiet : (id : String) (s : State W) → Quiet W s (restart_pipeline W ac id s)
  unfolding restart_pipeline
  restart_pipeline-Quiet id s =
      let (r, s₁) = fetch_pipeline W ac id s in
      and_then W r _ (fetch_pipeline-Quiet id s) (λ p.
        let (r', s₂) = delete_pipeline W ac id s₁ in
        and_then W r' _ (delete_pipeline-Quiet id s₁) (λ _.
          let pause = sleep (500 * millisecond) in
          let s₃ = (perform W pause s₂).1 in
          behind W (once W pause s₂ refl) (recreate_pipeline-Quiet id p s₃)))

  inspect-Quiet :
      (p : Listed) (r : Result HttpResponse) (s : State W) → Quiet W s (inspect W ac p r s)
  unfolding inspect
  inspect-Quiet p (err _) s = still W s
  inspect-Quiet p (ok resp) s =
      on_result (Quiet W s) (decode_jobs W ac resp.body) (λ e. still W s)
        (λ jobs.
          on_if (Quiet W s) (has_failed (slice_elems jobs))
            (reply_to W _ (restart_pipeline-Quiet p.id s)) (still W s))

  pub check_pipeline-Quiet : (p : Listed) (s : State W) → Quiet W s (check_pipeline W ac p s)
  unfolding check_pipeline
  check_pipeline-Quiet p s =
      let (r, s') = get W ac (jobs_path p.id) s in
      behind W (get-Quiet W ac (jobs_path p.id) s) (inspect-Quiet p r s')

  module _ (profiles : ProfileCache) where
    pub create_arroyo_flow-Quiet :
        (topic : String) (s : State W) → Quiet W s (create_arroyo_flow W ac profiles topic s)
    unfolding create_arroyo_flow create_table_step create_pipeline_step
    create_arroyo_flow-Quiet topic s =
        let (r, s') = create_table_step W ac profiles topic s in
        and_then W r _
          (reply_to W {b = r} _ (create_connection_table-Quiet (kafka_request profiles topic) s))
          (λ _. reply_to W _ (create_pipeline_internal-Quiet topic (flow_query topic) (pos 1) s'))

    pub watch_topic-Quiet :
        (known : List String) (topic : String) (s : State W)
        → Quiet W s (watch_topic W ac profiles known topic s)
    unfolding watch_topic
    watch_topic-Quiet known topic s = on_if (Quiet W s) (is_ignored topic) (still W s) (
        on_if (Quiet W s) (knows known topic) (still W s)
          (reply_to W _ (create_arroyo_flow-Quiet topic s)))
