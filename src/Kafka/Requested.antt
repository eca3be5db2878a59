-- ===== src/Kafka/Requested.antt =====
-- The topics that the watcher takes for known, and the requests in the log (watcher.go).
use mathlib.Core.List.{Memᴰ}
use nostradamus_api.Prelude.{
  ◌*◌, String, ◌≡◌, refl, sym, subst, ◌⊎◌, inl, inr, Bool, true, false, none, List, [], ◌∷◌, arith,
  ◌<>◌, if-cases,
}
use nostradamus_api.Go.Fallible.{Result, Result-cases}
use nostradamus_api.World.{World, State, perform}
use nostradamus_api.World.Calls.{
  HttpResponse, Call, Event, event, send, topics, sleep, refresh_metadata,
}
use nostradamus_api.World.Trace.{Grows, Grows-trans, Grows-cons, Grows-one}
use nostradamus_api.Arroyo.Client.{ArroyoClient, post}
use nostradamus_api.Arroyo.Wire.{ProfileCache}
use nostradamus_api.Arroyo.Tables.{create_connection_table}
use nostradamus_api.Arroyo.Pipelines.{create_pipeline_internal}
use nostradamus_api.Kafka.Flow.{create_table_step, create_pipeline_step, create_arroyo_flow}
use nostradamus_api.Kafka.Watcher.{
  knows, is_ignored, watch_topic, watch_topics, round, rounds, initial_topics, watch, second,
}
use nostradamus_api.Kafka.Laws.{
  Settles, Flowed, table_request, pipeline_request, create_arroyo_flow-ok, encodable-table,
}

module _ (W : World) (ac : ArroyoClient) (profiles : ProfileCache) where
  -- The connection table and the pipeline of the topic were asked for, and each request was answered
  -- with status 200 or 201 or with an error that says that it already exists.
  pub record Requested (topic : String) (log : List Event) : Type 0 where
    pub table : Result HttpResponse
    pub pipeline : Result HttpResponse
    pub table_settled : Settles W ac profiles "send request: " "unexpected " table
    pub pipeline_settled :
        Settles W ac profiles "failed to reach Arroyo API: " "Arroyo returned " pipeline
    pub table_logged : Memᴰ (event (send (table_request W ac profiles topic)) table) log
    pub pipeline_logged : Memᴰ (event (send (pipeline_request W ac profiles topic)) pipeline) log

  Flowed-Requested :
      (topic : String) (before after : List Event)
      → Flowed W ac profiles topic before after
      → Requested topic after
  Flowed-Requested topic before after f =
      let e = event (send (table_request W ac profiles topic)) f.table in
      let e' = event (send (pipeline_request W ac profiles topic)) f.pipeline in
      record {
        table = f.table;
        pipeline = f.pipeline;
        table_settled = f.table_settled;
        pipeline_settled = f.pipeline_settled;
        table_logged = subst (Memᴰ e) (sym f.logged) (Memᴰ.tail (Memᴰ.head refl));
        pipeline_logged = subst (Memᴰ e') (sym f.logged) (Memᴰ.head refl);
      }

  Grows-Requested :
      (topic : String) (before after : List Event)
      → Grows before after
      → Requested topic before
      → Requested topic after
  Grows-Requested topic before after grows r = record {
    table = r.table;
    pipeline = r.pipeline;
    table_settled = r.table_settled;
    pipeline_settled = r.pipeline_settled;
    table_logged = grows _ r.table_logged;
    pipeline_logged = grows _ r.pipeline_logged;
  }

  create_table_step-log :
      (topic : String) (s : State W)
      → let log = (create_table_step W ac profiles topic s).1.log in
        let call = send (table_request W ac profiles topic) in
        (log ≡ s.log) ⊎ (log ≡ event call (W.answer call s.ext).0 ∷ s.log)
  unfolding create_table_step create_connection_table
  create_table_step-log topic s = ground (arith, encodable-table W ac profiles topic)

  create_pipeline_step-log :
      (topic : String) (s : State W)
      → let log = (create_pipeline_step W ac profiles topic s).1.log in
        let call = send (pipeline_request W ac profiles topic) in
        (log ≡ s.log) ⊎ (log ≡ event call (W.answer call s.ext).0 ∷ s.log)
  unfolding create_pipeline_step create_pipeline_internal post
  create_pipeline_step-log topic s = ground arith

  pub create_arroyo_flow-Grows :
      (topic : String) (s : State W) → Grows s.log (create_arroyo_flow W ac profiles topic s).1.log
  unfolding create_arroyo_flow
  create_arroyo_flow-Grows topic s =
      let (r, s₁) = create_table_step W ac profiles topic s in
      let first = Grows-one _ s.log s₁.log (create_table_step-log topic s) in
      elim (Result-cases r) [
        | inr (e, q) ↦ rw (q, create_arroyo_flow) first
        | inl (_, q) ↦
            rw (q, create_arroyo_flow)
              (Grows-trans first (Grows-one _ s₁.log _ (create_pipeline_step-log topic s₁)))
      ]

  -- Each known topic was known at the start, or is a managed topic whose flow was requested.
  abbrev pub Covered : List String → List String × State W → Type 0
  Covered start out =
      (topic : String)
      → Memᴰ topic out.0
      → Memᴰ topic start ⊎ ((is_ignored topic ≡ false) × Requested topic out.1.log)

  pub Covered-Grows :
      (start known : List String) (s s' : State W)
      → Grows s.log s'.log
      → Covered start (known, s)
      → Covered start (known, s')
  Covered-Grows start known s s' grows h topic m = elim (h topic m) [
    | inl old ↦ inl old
    | inr (managed, r) ↦ inr (managed, Grows-Requested topic s.log s'.log grows r)
  ]

  Covered-cons :
      (start known : List String) (new : String) (s : State W)
      → is_ignored new ≡ false
      → Requested new s.log
      → Covered start (known, s)
      → Covered start (new ∷ known, s)
  Covered-cons start known new s managed r h topic (Memᴰ.head e) =
      inr (subst (λ t. (is_ignored t ≡ false) × Requested t s.log) (sym e) (managed, r))
  Covered-cons start known new s managed r h topic (Memᴰ.tail m) = h topic m

  module _
      (table_url : W.url_error ("http://" <> ac.base_url <> "/api/v1/connection_tables") ≡ none)
      (pipeline_url : W.url_error ("http://" <> ac.base_url <> "/api/v1/pipelines") ≡ none)
      (start : List String) where
    pub watch_topic-Covered :
        (known : List String) (topic : String) (s : State W)
        → Covered start (known, s)
        → Covered start (watch_topic W ac profiles known topic s)
    unfolding watch_topic
    watch_topic-Covered known topic s h =
        let (r, s') = create_arroyo_flow W ac profiles topic s in
        let later = Covered-Grows start known s s' (create_arroyo_flow-Grows topic s) h in
        if-cases (Covered start) (is_ignored topic) (λ _. h)
          (λ managed.
            if-cases (Covered start) (knows known topic) (λ _. h)
              (λ _. elim (Result-cases r) [
                | inr (e, q) ↦ rw q later
                | inl (_, q) ↦
                    let flowed =
                      create_arroyo_flow-ok W ac profiles topic s table_url pipeline_url q in
                    rw q (
                      Covered-cons start known topic s' managed
                        (Flowed-Requested topic s.log s'.log flowed) later)
              ]))

    watch_topics-Covered :
        (listed known : List String) (s : State W)
        → Covered start (known, s)
        → Covered start (watch_topics W ac profiles known listed s)
    unfolding watch_topics
    watch_topics-Covered [] known s h = h
    watch_topics-Covered (topic ∷ rest) known s h =
        watch_topics-Covered rest _ _ (watch_topic-Covered known topic s h)

    perform-Covered :
        (c : Call) (known : List String) (s : State W)
        → Covered start (known, s)
        → Covered start (known, (perform W c s).1)
    unfolding perform
    perform-Covered c known s = Covered-Grows start known s (perform W c s).1 (Grows-cons _ s.log)

    round-Covered :
        (known : List String) (s : State W)
        → Covered start (known, s)
        → Covered start (round W ac profiles known s)
    unfolding round
    round-Covered known s h =
        let (r, s₁) = perform W topics s in
        let h₁ = perform-Covered topics known s h in
        elim (Result-cases r) [
          | inr (e, q) ↦
              rw (q, round) (perform-Covered (sleep (10 * second W ac profiles)) known s₁ h₁)
          | inl (listed, q) ↦
              let (known', s₂) = watch_topics W ac profiles known listed s₁ in
              rw (q, round)
                (perform-Covered refresh_metadata known' _ (
                  perform-Covered (sleep (30 * second W ac profiles)) known' s₂
                    (watch_topics-Covered listed known s₁ h₁)))
        ]

    -- However many rounds the watcher makes and whatever the services answer, where both addresses
    -- are well formed: a topic that is known in the end was known at the start, or it is managed and
    -- the log has the requests for its table and its pipeline, both of which were settled.
    pub rounds-Covered :
        (schedule : List Bool) (known : List String) (s : State W)
        → Covered start (known, s)
        → Covered start (rounds W ac profiles schedule known s)
    unfolding rounds
    rounds-Covered [] known s h = h
    rounds-Covered (true ∷ more) known s h = h
    rounds-Covered (false ∷ more) known s h = rounds-Covered more _ _ (round-Covered known s h)

  -- The same of a whole run of the watcher, from the names of the pipelines that Arroyo lists when
  -- it starts: whatever the schedule and the answers of the services, where both addresses are well
  -- formed, a topic that is known in the end is the name of a pipeline that was listed, or it is
  -- managed and the log has the requests for its table and its pipeline, both of which were settled.
  pub watch-Covered :
      (schedule : List Bool) (s : State W)
      → W.url_error ("http://" <> ac.base_url <> "/api/v1/connection_tables") ≡ none
      → W.url_error ("http://" <> ac.base_url <> "/api/v1/pipelines") ≡ none
      → Covered (initial_topics W ac profiles s).0 (watch W ac profiles schedule s)
  unfolding watch
  watch-Covered schedule s table_url pipeline_url =
      let (known, s') = initial_topics W ac profiles s in
      rounds-Covered table_url pipeline_url known schedule known s' (λ topic m. inl m)
