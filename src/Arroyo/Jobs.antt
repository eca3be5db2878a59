-- ===== src/Arroyo/Jobs.antt =====
-- internal/arroyo/jobs.go: the handlers that pass Arroyo's job lists on.
use nostradamus_api.Prelude.{String, ◌<>◌, List, [], ◌∷◌, str_eq, ◌==◌, if◌then◌else◌}
use nostradamus_api.Errors.{message}
use nostradamus_api.Go.Decode.{data_field}
use nostradamus_api.Go.Fallible.{Result, ok, err}
use nostradamus_api.Go.Http.{Request, Writer}
use nostradamus_api.Go.Io.{Io}
use nostradamus_api.Go.Json.{
  Json, obj, end, slice_value, slice_elems, slice_json, appended, arr, items,
}
use nostradamus_api.Go.Strconv.{decimal}
use nostradamus_api.Utils.{reply_json, reply_method_not_allowed, error_body, data_body}
use nostradamus_api.World.{World, State, decode_stream}
use nostradamus_api.World.Calls.{HttpResponse}
use nostradamus_api.Arroyo.Client.{ArroyoClient, get}
use nostradamus_api.Arroyo.Wire.{
  decode_job, job_json, PipelineJob, decode_pipeline_job, pipeline_job_json,
}

-- The `switch` on the number of jobs in `GetJob`.
abbrev pub job_body : List PipelineJob → Json
job_body [] = obj end
job_body (j ∷ []) = data_body (pipeline_job_json j)
job_body (j ∷ k ∷ js) = data_body (arr (items pipeline_job_json (j ∷ k ∷ js)))

abbrev pub returned : HttpResponse → Json
returned resp = error_body ("Arroyo API returned " <> decimal resp.status_code)

module _ (W : World) (ac : ArroyoClient) where
  -- What `ListJobs` replies to an answer of Arroyo. The loop copies the jobs one by one.
  unfoldable pub list_jobs_reply : Result HttpResponse → Writer → Writer
  list_jobs_reply (err e) w =
      reply_json 502 (error_body ("failed to reach Arroyo API: " <> message e)) w
  list_jobs_reply (ok resp) w =
      if resp.status_code == 200
      then elim (decode_stream W (data_field (slice_value decode_job)) resp.body) [
        | err e ↦ reply_json 500 (error_body ("failed to decode Arroyo response: " <> message e)) w
        | ok jobs ↦ reply_json 200 (data_body (slice_json job_json (appended (slice_elems jobs)))) w
      ]
      else reply_json resp.status_code (returned resp) w

  -- `ListJobs`
  unfoldable pub list_jobs : Request → Writer → Io (State W) Writer
  list_jobs r w s =
      if str_eq r.method "GET"
      then (let (res, s') = get W ac "/api/v1/jobs" s in (list_jobs_reply res w, s'))
      else (reply_method_not_allowed w, s)

  unfoldable pub get_job_reply : Result HttpResponse → Writer → Writer
  get_job_reply (err e) w = reply_json 500 (error_body (message e)) w
  get_job_reply (ok resp) w =
      if resp.status_code == 200
      then elim (decode_stream W (data_field (slice_value decode_pipeline_job)) resp.body) [
        | err e ↦ reply_json 500 (error_body ("failed to decode Arroyo response: " <> message e)) w
        | ok jobs ↦ reply_json 200 (job_body (slice_elems jobs)) w
      ]
      else reply_json resp.status_code (returned resp) w

  -- `GetJob`, with `r.PathValue("id")`
  unfoldable pub get_job : String → Request → Writer → Io (State W) Writer
  get_job id r w s =
      if str_eq r.method "GET"
      then (if str_eq id ""
          then (reply_json 400 (error_body "missing or invalid pipeline id") w, s)
          else (let (res, s') = get W ac ("/api/v1/pipelines/" <> id <> "/jobs") s in
              (get_job_reply res w, s')))
      else (reply_method_not_allowed w, s)
