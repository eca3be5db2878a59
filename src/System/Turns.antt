-- ===== src/System/Turns.antt =====
-- The turns of the watcher and of the supervisor: the calls that they make, and the topics that the
-- watcher knows behind them.
use nostradamus_api.Prelude.{String, ◌<>◌, ◌*◌, ◌≡◌, refl, Option, none, some, List, [], ◌∷◌}
use nostradamus_api.Go.Fallible.{Result, ok, err, wrap_result}
use nostradamus_api.World.{World, State, perform}
use nostradamus_api.World.Calls.{topics, sleep, refresh_metadata}
use nostradamus_api.World.Only.{still, once, behind, reply_to, and_then, makes, Makes-Grows}
use nostradamus_api.Arroyo.Client.{ArroyoClient, get}
use nostradamus_api.Arroyo.Wire.{ProfileCache}
use nostradamus_api.Kafka.Watcher.{second}
use nostradamus_api.Kafka.Laws.{NoRepeat, watch_topic-NoRepeat}
use nostradamus_api.Kafka.Requested.{Covered, Covered-Grows, watch_topic-Covered}
use nostradamus_api.Worker.{Listed, decode_listing}
use nostradamus_api.Routes.Quiet.Reads.{Quiet, get-Quiet}
use nostradamus_api.System.{begin_round, watcher_turn, listing, supervisor_turn}
use nostradamus_api.System.Background.{watch_topic-Quiet, check_pipeline-Quiet}

module _ (W : World) (ac : ArroyoClient) where
  module _ (profiles : ProfileCache) where
    begin_round-Quiet :
        (known : List String) (r : Result (List String)) (s : State W)
        → Quiet W s (begin_round W ac profiles known r s)
    begin_round-Quiet known (ok listed) s = still W s
    begin_round-Quiet known (err e) s =
        reply_to W _ (once W (sleep (10 * second W ac profiles)) s refl)

    pub watcher_turn-Quiet :
        (known : List String) (left : Option (List String)) (s : State W)
        → Quiet W s (watcher_turn W ac profiles (record { known = known; left = left }) s)
    unfolding watcher_turn
    watcher_turn-Quiet known none s =
        let (r, s') = perform W topics s in
        behind W (once W topics s refl) (begin_round-Quiet known r s')
    watcher_turn-Quiet known (some []) s =
        let pause = sleep (30 * second W ac profiles) in
        let s' = (perform W pause s).1 in
        reply_to W _ (behind W (once W pause s refl) (once W refresh_metadata s' refl))
    watcher_turn-Quiet known (some (topic ∷ rest)) s =
        reply_to W _ (watch_topic-Quiet W ac profiles known topic s)

  listing-Quiet : (s : State W) → Quiet W s (listing W ac s)
  listing-Quiet s =
      let path : String = "/api/v1/pipelines" in
      let (r, s') = get W ac path s in
      and_then W (wrap_result "failed to fetch pipelines: " r) _ (get-Quiet W ac path s) (λ resp.
        let payload = decode_listing W ac resp.body in
        and_then W (wrap_result "failed to decode pipelines: " payload) _ (still W {a = tt} s')
          (λ _. still W s'))

  pub supervisor_turn-Quiet :
      (left : Option (List Listed)) (s : State W) → Quiet W s (supervisor_turn W ac left s)
  unfolding supervisor_turn
  supervisor_turn-Quiet none s = reply_to W _ (listing-Quiet s)
  supervisor_turn-Quiet (some []) s = still W s
  supervisor_turn-Quiet (some (p ∷ ps)) s = reply_to W _ (check_pipeline-Quiet W ac p s)

module _ (W : World) (ac : ArroyoClient) (profiles : ProfileCache) where
  begin_round-known :
      (known : List String) (r : Result (List String)) (s : State W)
      → (begin_round W ac profiles known r s).0.known ≡ known
  begin_round-known known (ok listed) s = refl
  begin_round-known known (err e) s = refl

  pub watcher_turn-NoRepeat :
      (known : List String) (left : Option (List String)) (s : State W)
      → NoRepeat W ac profiles known
      → NoRepeat W ac profiles
          (watcher_turn W ac profiles (record { known = known; left = left }) s).0.known
  unfolding watcher_turn
  watcher_turn-NoRepeat known none s h =
      let (r, s') = perform W topics s in rw (begin_round-known known r s') h
  watcher_turn-NoRepeat known (some []) s h = h
  watcher_turn-NoRepeat known (some (topic ∷ rest)) s h =
      watch_topic-NoRepeat W ac profiles known topic s h

  module _
      (table_url : W.url_error ("http://" <> ac.base_url <> "/api/v1/connection_tables") ≡ none)
      (pipeline_url : W.url_error ("http://" <> ac.base_url <> "/api/v1/pipelines") ≡ none)
      (first : List String) where
    pub watcher_turn-Covered :
        (known : List String) (left : Option (List String)) (s : State W)
        → Covered W ac profiles first (known, s)
        → let (w, s') = watcher_turn W ac profiles (record { known = known; left = left }) s in
          Covered W ac profiles first (w.known, s')
    unfolding watcher_turn
    watcher_turn-Covered known none s h =
        let (r, s') = perform W topics s in
        let turn = watcher_turn W ac profiles (record { known = known; left = none }) s in
        let grows = Makes-Grows W (makes W (watcher_turn-Quiet W ac profiles known none s)) in
        rw (begin_round-known known r s') (Covered-Grows W ac profiles first known s turn.1 grows h)
    watcher_turn-Covered known (some []) s h =
        let turn = watcher_turn W ac profiles (record { known = known; left = some [] }) s in
        let grows = Makes-Grows W (makes W (watcher_turn-Quiet W ac profiles known (some []) s)) in
        Covered-Grows W ac profiles first known s turn.1 grows h
    watcher_turn-Covered known (some (topic ∷ rest)) s h =
        watch_topic-Covered W ac profiles table_url pipeline_url first known topic s h
