-- ===== src/Arroyo/Pipelines.antt =====
-- internal/arroyo/pipelines.go: the two handlers, and what the watcher calls.
pub mod Laws
use nostradamus_api.Prelude.{
  String, ◌<>◌, Bool, Option, none, some, List, [], ◌∷◌, ◌||◌, ◌==◌, str_eq, not, if◌then◌else◌,
}
use nostradamus_api.Prelude.Int.{ℤ, pos}
use nostradamus_api.Errors.{Error, text, message}
use nostradamus_api.Go.Decode
use nostradamus_api.Go.Decode.{require, data_field, at}
use nostradamus_api.Go.Fallible.{Result, ok, err, Fallible, lift, wrapping, ◌>>=◌, ◌>>◌}
use nostradamus_api.Go.Http.{Request, Writer}
use nostradamus_api.Go.Io.{Io}
use nostradamus_api.Go.Json.{Json, object, string_value, slice_value, slice_json}
use nostradamus_api.Go.Strconv.{decimal}
use nostradamus_api.Types.{Pipeline}
use nostradamus_api.Utils.{reply_json, reply_method_not_allowed, error_body, data_body}
use nostradamus_api.World.{World, State, decode_stream, unmarshal}
use nostradamus_api.World.Calls.{HttpResponse}
use nostradamus_api.Arroyo.Client.{ArroyoClient, get, post}
use nostradamus_api.Arroyo.Wire.{
  PipelineResponse, decode_pipeline_response, pipeline_response_json, decode_pipeline,
  pipeline_json, create_payload,
}

module _ (W : World) (ac : ArroyoClient) where
  -- The status of the answer is not looked at.
  unfoldable pub list_pipelines_internal : Fallible (State W) (Option (List PipelineResponse))
  unfolding decode_pipeline_response
  list_pipelines_internal = do
    resp ← get W ac "/api/v1/pipelines"
    lift (decode_stream W (data_field (slice_value decode_pipeline_response)) resp.body)

  -- The end of `ListPipelines`: the error branch has no `return`, so both replies are written there.
  unfoldable pub list_pipelines_reply : Result (Option (List PipelineResponse)) → Writer → Writer
  list_pipelines_reply (ok pipelines) w =
      reply_json 200 (data_body (slice_json pipeline_response_json pipelines)) w
  list_pipelines_reply (err e) w =
      reply_json 200 (data_body (slice_json pipeline_response_json none))
        (reply_json 500 (error_body (message e)) w)

  -- `ListPipelines`
  unfoldable pub list_pipelines : Request → Writer → Io (State W) Writer
  list_pipelines r w s =
      if str_eq r.method "GET"
      then (let (res, s') = list_pipelines_internal s in (list_pipelines_reply res w, s'))
      else (reply_method_not_allowed w, s)

  abbrev docker_query : String
  docker_query = "\nINSERT INTO temperatures_docker\nSELECT\n    *\nFROM\n    kafka2\n"

  -- The `name` of the body; its `field` is decoded and not used.
  unfoldable pub decode_create : Json → Result String
  decode_create v = Decode.◌>>=◌ (object v) λ fs.
      Decode.◌>>=◌ (at string_value "name" fs)
        λ name. Decode.◌>>=◌ (at string_value "field" fs) λ field. ok name

  -- The end of `CreatePipeline`: again the status of the answer is not looked at.
  unfoldable pub create_pipeline_reply : Result HttpResponse → Writer → Writer
  create_pipeline_reply (err e) w =
      reply_json 502 (error_body ("failed to reach Arroyo API: " <> message e)) w
  create_pipeline_reply (ok resp) w =
      elim (decode_stream W (data_field (slice_value decode_pipeline)) resp.body) [
        | err e ↦ reply_json 500 (error_body ("failed to decode Arroyo response: " <> message e)) w
        | ok pipelines ↦ reply_json 200 (data_body (slice_json pipeline_json pipelines)) w
      ]

  -- `CreatePipeline`
  unfoldable pub create_pipeline : Request → Writer → Io (State W) Writer
  create_pipeline r w s =
      if str_eq r.method "POST"
      then elim (decode_stream W decode_create r.body) [
        | err e ↦ (reply_json 400 (error_body (message e)) w, s)
        | ok name ↦
            let req : Pipeline = record {
              name = name;
              query = docker_query;
              parallelism = some (pos 3);
            } in
            let (res, s') = post W ac "/api/v1/pipelines" (some (pipeline_json req)) s in
            (create_pipeline_reply res w, s')
      ]
      else (reply_method_not_allowed w, s)

  -- `CreatePipelineInternal`
  unfoldable pub create_pipeline_internal :
      String → String → ℤ → Fallible (State W) PipelineResponse
  unfolding create_payload decode_pipeline_response
  create_pipeline_internal name query parallelism = do
    resp ←
        wrapping "failed to reach Arroyo API: "
          (post W ac "/api/v1/pipelines" (some (create_payload name query parallelism)))
    require (resp.status_code == 200 || resp.status_code == 201)
        (text ("Arroyo returned " <> decimal resp.status_code <> ": " <> resp.body))
    wrapping "failed to decode Arroyo response: "
        (lift (unmarshal W decode_pipeline_response resp.body))
