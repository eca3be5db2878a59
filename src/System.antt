-- ===== src/System.antt =====
-- The server at work (cmd/api/main.go): the goroutine of `Watcher.Run`, the one of
-- `Supervisor.Start` and the requests take turns on one state. A turn is one request, one topic or
-- one end of a round of the watcher, one pipeline or one end of a pass of the supervisor.
pub mod Background
pub mod Posts
pub mod Safe
pub mod Served
pub mod Turns
pub mod Invariant
pub mod Loops
pub mod Writes
pub mod Costs
use nostradamus_api.Prelude.{String, ◌*◌, Bool, Option, none, some, List, [], ◌∷◌, starts_with}
use nostradamus_api.Go.Fallible.{Result, ok, err, Fallible, lift, wrapping, ◌>>=◌}
use nostradamus_api.Go.Http.{Request, Writer, new_writer}
use nostradamus_api.Go.Io.{Io}
use nostradamus_api.Go.Json.{slice_elems}
use nostradamus_api.World.{World, State, perform}
use nostradamus_api.World.Calls.{topics, sleep, refresh_metadata}
use nostradamus_api.Arroyo.Client.{ArroyoClient, get}
use nostradamus_api.Arroyo.Wire.{ProfileCache}
use nostradamus_api.Kafka.Watcher.{watch_topic, initial_topics, second}
use nostradamus_api.Worker.{Listed, decode_listing, check_pipeline}
use nostradamus_api.Routes.App.{App}
use nostradamus_api.Routes.Mux.{mux}

-- Where the watcher stands: its known topics, and what is left of the round that it is in.
pub record Watching : Type 0 where
  pub known : List String
  pub left : Option (List String)

pub record System (W : World) : Type 0 where
  pub watching : Watching
  -- the pipelines that are left of the pass that the supervisor is in
  pub checking : Option (List Listed)
  pub state : State W

module _ (W : World) (ac : ArroyoClient) (profiles : ProfileCache) where
  -- The start of a round: what Kafka lists, or the pause behind an error.
  abbrev pub begin_round : List String → Result (List String) → Io (State W) Watching
  begin_round known (ok listed) s = (record { known = known; left = some listed }, s)
  begin_round known (err _) s =
      (record { known = known; left = none }, (perform W (sleep (10 * second W ac profiles)) s).1)

  -- One turn of the watcher.
  unfoldable pub watcher_turn : Watching → Io (State W) Watching
  watcher_turn w s = elim w.left [
    | none ↦ let (r, s') = perform W topics s in begin_round w.known r s'
    | some [] ↦
        let (_, s') = perform W (sleep (30 * second W ac profiles)) s in
        (record { known = w.known; left = none }, (perform W refresh_metadata s').1)
    | some (topic ∷ rest) ↦
        let (known, s') = watch_topic W ac profiles w.known topic s in
        (record { known = known; left = some rest }, s')
  ]

module _ (W : World) (ac : ArroyoClient) where
  -- The start of a pass: the listed pipelines, or nothing behind an error.
  abbrev pub listing : Fallible (State W) (List Listed)
  listing = do
    resp ← wrapping "failed to fetch pipelines: " (get W ac "/api/v1/pipelines")
    payload ← wrapping "failed to decode pipelines: " (lift (decode_listing W ac resp.body))
    lift (ok (slice_elems payload))

  abbrev pub left_of : Result (List Listed) → Option (List Listed)
  left_of (ok found) = some found
  left_of (err _) = none

  -- One turn of the supervisor.
  unfoldable pub supervisor_turn : Option (List Listed) → Io (State W) (Option (List Listed))
  supervisor_turn none s = let (r, s') = listing s in (left_of r, s')
  supervisor_turn (some []) s = (none, s)
  supervisor_turn (some (p ∷ ps)) s = (some ps, (check_pipeline W ac p s).1)

module _ (W : World) (app : App W) (profiles : ProfileCache)
    (prometheus : Request → Writer → Io (State W) Writer) where
  -- A whole request, which no other overlaps.
  abbrev pub after_request : Request → System W → System W
  after_request r s = record {
    watching = s.watching;
    checking = s.checking;
    state = (mux W app prometheus r new_writer s.state).1;
  }

  abbrev pub after_watcher : System W → System W
  after_watcher s =
      let (watching, state) = watcher_turn W app.arroyo profiles s.watching s.state in
      record { watching = watching; checking = s.checking; state = state }

  abbrev pub after_supervisor : System W → System W
  after_supervisor s =
      let (checking, state) = supervisor_turn W app.arroyo s.checking s.state in
      record { watching = s.watching; checking = checking; state = state }

  -- Any of them may go next.
  pub data Step (s : System W) : System W → Type 0 where
    on_request : (r : Request) → Step s (after_request r s)
    on_watcher : Step s (after_watcher s)
    on_supervisor : Step s (after_supervisor s)

  pub data Reach (start : System W) : System W → Type 0 where
    here : Reach start start
    later : {s t : System W} → Reach start s → Step s t → Reach start t

  -- The system when the two goroutines were started.
  abbrev pub started : State W → System W
  started s =
      let (known, s') = initial_topics W app.arroyo profiles s in
      record { watching = record { known = known; left = none }; checking = none; state = s' }
