-- ===== src/Arroyo/Restart.antt =====
-- `RestartPipeline` (internal/arroyo/arroyo.go): fetch the definition, delete, create anew.
pub mod Laws
use nostradamus_api.Prelude.{ℕ, String, ◌<>◌, Bool, ◌||◌, Option, none, some, ◌==◌, ◌*◌}
use nostradamus_api.Prelude.Int.{ℤ, pos}
use nostradamus_api.Errors.{Error, text}
use nostradamus_api.Go.Decode.{require}
use nostradamus_api.Go.Fallible.{Fallible, pure, lift, run, wrapping, ◌>>=◌, ◌>>◌}
use nostradamus_api.Go.Strconv.{decimal}
use nostradamus_api.Go.Time.{millisecond}
use nostradamus_api.Types.{Pipeline}
use nostradamus_api.World.{World, State, perform, decode_stream}
use nostradamus_api.World.Calls.{HttpResponse, sleep}
use nostradamus_api.Arroyo.Client.{ArroyoClient, get, post, delete}
use nostradamus_api.Arroyo.Wire.{decode_pipeline, restart_payload}

abbrev unexpected_status : HttpResponse → String → Error
unexpected_status resp doing = text (
    "unexpected status "
    <> decimal resp.status_code
    <> " while "
    <> doing
    <> " pipeline: "
    <> resp.body)

abbrev pub pipeline_path : String → String
pipeline_path id = "/api/v1/pipelines/" <> id

-- The parallelism of the definition, or 1 where it has none.
abbrev pub parallelism_of : Pipeline → ℤ
parallelism_of existing = elim existing.parallelism [ none ↦ pos 1 | some n ↦ n ]

module _ (W : World) (ac : ArroyoClient) where
  -- The first part: the definition of the pipeline.
  unfoldable pub fetch_pipeline : String → Fallible (State W) Pipeline
  unfolding get decode_pipeline decimal
  fetch_pipeline id = do
    resp ← wrapping ("failed to fetch pipeline " <> id <> ": ") (get W ac (pipeline_path id))
    require (resp.status_code == 200) (unexpected_status resp "fetching")
    wrapping "failed to decode pipeline: " (lift (decode_stream W decode_pipeline resp.body))

  unfoldable pub delete_pipeline : String → Fallible (State W) (Unit {0})
  unfolding delete decimal
  delete_pipeline id = do
    resp ←
        wrapping ("failed to delete pipeline " <> id <> ": ") (delete W ac (pipeline_path id) none)
    require (resp.status_code == 200 || resp.status_code == 204) (unexpected_status resp "deleting")

  unfoldable pub recreate_pipeline : String → Pipeline → Fallible (State W) (Unit {0})
  unfolding post decimal restart_payload
  recreate_pipeline id existing = do
    let payload = restart_payload existing.name existing.query (parallelism_of existing)
    resp ←
        wrapping ("failed to recreate pipeline " <> id <> ": ")
          (post W ac "/api/v1/pipelines" (some payload))
    require (resp.status_code == 200 || resp.status_code == 201)
        (unexpected_status resp "recreating")

  unfoldable pub restart_pipeline : String → Fallible (State W) (Unit {0})
  unfolding perform
  restart_pipeline id = do
    existing ← fetch_pipeline id
    delete_pipeline id
    run (perform W (sleep (500 * millisecond)))
    recreate_pipeline id existing
