-- ===== src/System/Loops.antt =====
-- The loops of `Watcher.Run` and of `Supervisor.Start` as sequences of turns.
use nostradamus_api.Prelude.{String, ◌*◌, Bool, true, false, Option, none, some, List, [], ◌∷◌}
use nostradamus_api.Go.Fallible.{Result, ok, err, Fallible, lift, run, wrapping, ◌>>=◌}
use nostradamus_api.Go.Http.{Request, Writer}
use nostradamus_api.Go.Io.{Io}
use nostradamus_api.Go.Json.{slice_elems}
use nostradamus_api.World.{World, State, perform}
use nostradamus_api.World.Calls.{HttpResponse, topics, sleep, refresh_metadata}
use nostradamus_api.Arroyo.Client.{get}
use nostradamus_api.Arroyo.Wire.{ProfileCache}
use nostradamus_api.Kafka.Watcher.{watch_topics, round, rounds, second, watch as watch_loop}
use nostradamus_api.Worker.{
  Listed, Wake, tick, done, check_pipelines, check_and_restart_pipelines, monitor, decode_listing,
}
use nostradamus_api.Routes.App.{App}
use nostradamus_api.System.{
  Watching, System, begin_round, watcher_turn, left_of, supervisor_turn, on_watcher, on_supervisor,
  Reach, here, later, started,
}

module _ (W : World) (app : App W) (profiles : ProfileCache)
    (prometheus : Request → Writer → Io (State W) Writer) (first : System W) where
  -- The watcher alone moves.
  abbrev pub at : Option (List Listed) → List String → Option (List String) → State W → System W
  at checking known left s = record {
    watching = record { known = known; left = left };
    checking = checking;
    state = s;
  }

  abbrev Gets : System W → Type 0
  Gets = Reach W app profiles prometheus first

  module _ (checking : Option (List Listed)) where
    abbrev begun_with : Watching × State W → System W
    begun_with (w, s) = record { watching = w; checking = checking; state = s }

    watch_topics-Reach :
        (listed known : List String) (s : State W)
        → Gets (at checking known (some listed) s)
        → let (known', s') = watch_topics W app.arroyo profiles known listed s in
          Gets (at checking known' (some []) s')
    unfolding watch_topics watcher_turn
    watch_topics-Reach [] known s h = h
    watch_topics-Reach (topic ∷ rest) known s h = watch_topics-Reach rest _ _ (later h on_watcher)

    -- A round behind the answer of Kafka.
    abbrev round_end : List String → Result (List String) → Io (State W) (List String)
    round_end known r s = elim r [
      | err _ ↦ (known, (perform W (sleep (10 * second W app.arroyo profiles)) s).1)
      | ok listed ↦
          let (known', s₁) = watch_topics W app.arroyo profiles known listed s in
          let (_, s₂) = perform W (sleep (30 * second W app.arroyo profiles)) s₁ in
          (known', (perform W refresh_metadata s₂).1)
    ]

    round_end-Reach :
        (known : List String) (r : Result (List String)) (s : State W)
        → Gets (begun_with (begin_round W app.arroyo profiles known r s))
        → let (known', s') = round_end known r s in Gets (at checking known' none s')
    unfolding watcher_turn
    round_end-Reach known (err e) s h = h
    round_end-Reach known (ok listed) s h = later (watch_topics-Reach listed known s h) on_watcher

    round-Reach :
        (known : List String) (s : State W)
        → Gets (at checking known none s)
        → let (known', s') = round W app.arroyo profiles known s in
          Gets (at checking known' none s')
    unfolding round watcher_turn
    round-Reach known s h =
        let (r, s₁) = perform W topics s in round_end-Reach known r s₁ (later h on_watcher)

    pub rounds-Reach :
        (schedule : List Bool) (known : List String) (s : State W)
        → Gets (at checking known none s)
        → let (known', s') = rounds W app.arroyo profiles schedule known s in
          Gets (at checking known' none s')
    unfolding rounds
    rounds-Reach [] known s h = h
    rounds-Reach (true ∷ more) known s h = h
    rounds-Reach (false ∷ more) known s h = rounds-Reach more _ _ (round-Reach known s h)

  module _ (watching : Watching) where
    abbrev on_pass : Option (List Listed) → State W → System W
    on_pass checking s = record { watching = watching; checking = checking; state = s }

    check_pipelines-Reach :
        (ps : List Listed) (s : State W)
        → Gets (on_pass (some ps) s)
        → Gets (on_pass (some []) (check_pipelines W app.arroyo ps s).1)
    unfolding check_pipelines supervisor_turn
    check_pipelines-Reach [] s h = h
    check_pipelines-Reach (p ∷ ps) s h = check_pipelines-Reach ps _ (later h on_supervisor)

    -- A pass behind the decoded list, and behind the answer of Arroyo.
    abbrev decoded_end : Result (Option (List Listed)) → Fallible (State W) (Unit {0})
    decoded_end found = wrapping "failed to decode pipelines: " (lift found) >>= λ payload.
        run (check_pipelines W app.arroyo (slice_elems payload))

    abbrev decoded_left : Result (Option (List Listed)) → Fallible (State W) (List Listed)
    decoded_left found = wrapping "failed to decode pipelines: " (lift found) >>= λ payload.
        lift (ok (slice_elems payload))

    decoded-Reach :
        (found : Result (Option (List Listed))) (s : State W)
        → Gets (on_pass (left_of W app.arroyo (decoded_left found s).0) (decoded_left found s).1)
        → Gets (on_pass none (decoded_end found s).1)
    unfolding supervisor_turn
    decoded-Reach (err e) s h = h
    decoded-Reach (ok found) s h =
        later (check_pipelines-Reach (slice_elems found) s h) on_supervisor

    abbrev fetched_end : Result HttpResponse → Fallible (State W) (Unit {0})
    fetched_end r = wrapping "failed to fetch pipelines: " (lift r) >>= λ resp.
        decoded_end (decode_listing W app.arroyo resp.body)

    abbrev fetched_left : Result HttpResponse → Fallible (State W) (List Listed)
    fetched_left r = wrapping "failed to fetch pipelines: " (lift r) >>= λ resp.
        decoded_left (decode_listing W app.arroyo resp.body)

    fetched-Reach :
        (r : Result HttpResponse) (s : State W)
        → Gets (on_pass (left_of W app.arroyo (fetched_left r s).0) (fetched_left r s).1)
        → Gets (on_pass none (fetched_end r s).1)
    fetched-Reach (err e) s h = h
    fetched-Reach (ok resp) s h = decoded-Reach (decode_listing W app.arroyo resp.body) s h

    pass-Reach :
        (s : State W)
        → Gets (on_pass none s)
        → Gets (on_pass none (check_and_restart_pipelines W app.arroyo s).1)
    unfolding check_and_restart_pipelines supervisor_turn
    pass-Reach s h =
        let (r, s₁) = get W app.arroyo "/api/v1/pipelines" s in
        fetched-Reach r s₁ (later h on_supervisor)

    pub monitor-Reach :
        (wakes : List Wake) (s : State W)
        → Gets (on_pass none s)
        → Gets (on_pass none (monitor W app.arroyo wakes s).1)
    unfolding monitor
    monitor-Reach [] s h = h
    monitor-Reach (done ∷ _) s h = h
    monitor-Reach (tick ∷ rest) s h = monitor-Reach rest _ (pass-Reach s h)

module _ (W : World) (app : App W) (profiles : ProfileCache)
    (prometheus : Request → Writer → Io (State W) Writer) where
  -- The loops of the source are sequences of turns: the state in which a run of the watcher's loop
  -- ends, and the state in which a run of the supervisor's loop ends, are each reached from the start
  -- of the two goroutines, for every schedule, all wakes and whatever the services answer.
  loops-Reach :
      (schedule : List Bool) (wakes : List Wake) (s : State W)
      → let first = started W app profiles prometheus s in
        let (known, s') = watch_loop W app.arroyo profiles schedule s in
        Reach W app profiles prometheus first
          (record { watching = record { known = known; left = none }; checking = none; state = s' })
        × Reach W app profiles prometheus first (record {
          watching = first.watching;
          checking = none;
          state = (monitor W app.arroyo wakes first.state).1;
        })
  unfolding watch_loop
  loops-Reach schedule wakes s =
      let first = started W app profiles prometheus s in
      (
        rounds-Reach W app profiles prometheus first none schedule first.watching.known first.state
            here,
        monitor-Reach W app profiles prometheus first first.watching wakes first.state here,
      )
