-- ===== src/Worker.antt =====
-- internal/worker/supervisor.go: the pass over Arroyo's pipelines that restarts the failed ones, and
-- the loop that makes a pass at each tick. Logging is left out.
pub mod Laws
use nostradamus_api.Prelude.{
  ℕ, String, ◌<>◌, Bool, true, false, ◌||◌, Option, List, [], ◌∷◌, str_eq,
}
use nostradamus_api.Prelude.{if◌then◌else◌}
use nostradamus_api.Go.Decode
use nostradamus_api.Go.Decode.{at, data_field}
use nostradamus_api.Go.Fallible.{Result, ok, err, Fallible, lift, run, wrapping, ◌>>=◌}
use nostradamus_api.Go.Io.{Io}
use nostradamus_api.Go.Json.{Json, object, string_value, slice_value, slice_elems}
use nostradamus_api.Types.{StateType, state_type_stopped, state_type_failed}
use nostradamus_api.World.{World, State, perform, decode_stream}
use nostradamus_api.World.Calls.{HttpResponse, go_supervise, cancel_supervisor}
use nostradamus_api.Arroyo.Client.{ArroyoClient, get}
use nostradamus_api.Arroyo.Restart.{restart_pipeline}

-- An entry of the list of pipelines.
pub record Listed : Type 0 where
  pub id : String
  pub name : String

unfoldable pub decode_listed : Json → Result Listed
decode_listed v = Decode.◌>>=◌ (object v) λ fs.
    Decode.◌>>=◌ (at string_value "id" fs)
      λ id. Decode.◌>>=◌ (at string_value "name" fs) λ name. ok (record { id = id; name = name })

-- An entry of the list of a pipeline's jobs.
pub record WatchedJob : Type 0 where
  pub id : String
  pub state : StateType
  pub failed : String

unfoldable pub decode_watched : Json → Result WatchedJob
decode_watched v = Decode.◌>>=◌ (object v) λ fs. Decode.◌>>=◌ (at string_value "id" fs) λ id.
    Decode.◌>>=◌ (at string_value "state" fs) λ state.
      Decode.◌>>=◌ (at string_value "failureMessage" fs)
        λ failed. ok (record { id = id; state = state; failed = failed })

abbrev pub is_down : WatchedJob → Bool
is_down j = str_eq j.state state_type_stopped || str_eq j.state state_type_failed

-- The loop over the jobs, which stops at the first that is down.
unfoldable pub has_failed : List WatchedJob → Bool
has_failed [] = false
has_failed (j ∷ js) = elim (is_down j) [ true ↦ true | false ↦ has_failed js ]

abbrev pub jobs_path : String → String
jobs_path id = "/api/v1/pipelines/" <> id <> "/jobs"

-- What `select` in `Start` receives next: a tick, or the end of the context that `Stop` cancels.
pub data Wake : Type 0 where
  tick done : Wake

-- `Supervisor`: its client, its interval, and whether `Start` has set `cancelCtx`.
pub record Supervisor : Type 0 where
  pub ac : ArroyoClient
  pub interval : ℕ
  pub cancels : Bool

-- `NewSupervisor`
unfoldable pub new_supervisor : ArroyoClient → ℕ → Supervisor
new_supervisor ac interval = record { ac = ac; interval = interval; cancels = false }

module _ (W : World) where
  -- `Start` gives way to the goroutine at once; what that does is `monitor`.
  unfoldable pub start : Supervisor → Io (State W) Supervisor
  unfolding perform
  start sv s = (record sv { cancels = true }, (perform W (go_supervise sv.interval) s).1)

  -- `Stop`: nothing before `Start`.
  unfoldable pub stop : Supervisor → Io (State W) (Unit {0})
  unfolding perform
  stop sv s = if sv.cancels then (tt, (perform W cancel_supervisor s).1) else (tt, s)

module _ (W : World) (ac : ArroyoClient) where
  abbrev pub decode_jobs : String → Result (Option (List WatchedJob))
  decode_jobs = decode_stream W (data_field (slice_value decode_watched))

  abbrev pub decode_listing : String → Result (Option (List Listed))
  decode_listing = decode_stream W (data_field (slice_value decode_listed))

  -- The body of the loop after the jobs were asked for. The result of a restart is only logged.
  unfoldable pub inspect : Listed → Result HttpResponse → Io (State W) (Unit {0})
  inspect p (err _) s = (tt, s)
  inspect p (ok resp) s = elim (decode_jobs resp.body) [
    | err _ ↦ (tt, s)
    | ok jobs ↦
        if has_failed (slice_elems jobs) then (tt, (restart_pipeline W ac p.id s).1) else (tt, s)
  ]

  unfoldable pub check_pipeline : Listed → Io (State W) (Unit {0})
  check_pipeline p s = let (r, s') = get W ac (jobs_path p.id) s in inspect p r s'

  unfoldable pub check_pipelines : List Listed → Io (State W) (Unit {0})
  check_pipelines [] s = (tt, s)
  check_pipelines (p ∷ ps) s = check_pipelines ps (check_pipeline p s).1

  -- `checkAndRestartPipelines`
  unfoldable pub check_and_restart_pipelines : Fallible (State W) (Unit {0})
  check_and_restart_pipelines = do
    resp ← wrapping "failed to fetch pipelines: " (get W ac "/api/v1/pipelines")
    payload ← wrapping "failed to decode pipelines: " (lift (decode_listing resp.body))
    run (check_pipelines (slice_elems payload))

  -- The goroutine of `Start`; the error of a pass is only logged.
  unfoldable pub monitor : List Wake → Io (State W) (Unit {0})
  monitor [] s = (tt, s)
  monitor (done ∷ _) s = (tt, s)
  monitor (tick ∷ rest) s = monitor rest (check_and_restart_pipelines s).1
