-- ===== src/Kafka/Laws.antt =====
-- Which topics get a flow, and what a flow asks Arroyo for.

use nostradamus_api.Prelude.{
  String, ◌≡◌, refl, ap, ◌∙◌, ◌⊎◌, inl, inr, Bool, true, false, none, some, List, [], ◌∷◌, arith,
  ◌<>◌, All,
}
use nostradamus_api.Prelude.Int.{pos}
use nostradamus_api.Errors.{text, wrap, says_already_exists}
use nostradamus_api.Go.Fallible.{Result, ok, err, Result-cases}
use nostradamus_api.Go.Json.{encodable}
use nostradamus_api.Go.Strconv.{decimal}
use nostradamus_api.World.{World, State}
use nostradamus_api.World.Calls.{HttpRequest, HttpResponse, Event, event, send, topics}
use nostradamus_api.Arroyo.Client.{ArroyoClient, json_request, post}
use nostradamus_api.Arroyo.Wire.{ProfileCache, create_payload, connection_table_json}
use nostradamus_api.Arroyo.Tables.{create_connection_table}
use nostradamus_api.Arroyo.Pipelines.{create_pipeline_internal}
use nostradamus_api.Kafka.Flow.{
  is_kafka_managed_topic, scylla_name, flow_query, create_table_step, create_pipeline_step,
  create_arroyo_flow, kafka_request,
}
use nostradamus_api.Kafka.Watcher.{knows, is_ignored, watch_topic, watch_topics, round, rounds}

-- A managed topic goes to the table of its prefix; the table of the topic's own is never used.
pub scylla_name_of_managed :
    (topic : String)
    → is_kafka_managed_topic topic ≡ true
    → (scylla_name topic ≡ "scylla_temperatures")
      ⊎ (scylla_name topic ≡ "scylla_humidities")
      ⊎ (scylla_name topic ≡ "scylla_ph_levels")
unfolding is_kafka_managed_topic scylla_name
scylla_name_of_managed topic h = ground arith

abbrev pub IsSettled : String → List String → Type 0
IsSettled topic known = (is_ignored topic ≡ true) ⊎ (knows known topic ≡ true)

module _ (W : World) (ac : ArroyoClient) (profiles : ProfileCache) where
  watch_topic_settled :
      (known : List String) (topic : String) (s : State W)
      → IsSettled topic known
      → watch_topic W ac profiles known topic s ≡ (known, s)
  unfolding watch_topic
  watch_topic_settled known topic s h = ground arith

  -- Topics that are known or not managed cost no request.
  watch_topics_settled :
      (known listed : List String) (s : State W)
      → All (λ topic. IsSettled topic known) listed
      → watch_topics W ac profiles known listed s ≡ (known, s)
  unfolding watch_topics
  watch_topics_settled known [] s h = refl
  watch_topics_settled known (topic ∷ rest) s (h, hs) =
      rw (watch_topic_settled known topic s h) (watch_topics_settled known rest s hs)

  -- No topic is listed twice.
  abbrev pub NoRepeat : List String → Type 0
  NoRepeat [] = Unit
  NoRepeat (topic ∷ known) = (knows known topic ≡ false) × NoRepeat known

  pub watch_topic-NoRepeat :
      (known : List String) (topic : String) (s : State W)
      → NoRepeat known
      → NoRepeat (watch_topic W ac profiles known topic s).0
  unfolding watch_topic
  watch_topic-NoRepeat known topic s h = ground arith

  pub watch_topics-NoRepeat :
      (listed known : List String) (s : State W)
      → NoRepeat known
      → NoRepeat (watch_topics W ac profiles known listed s).0
  unfolding watch_topics
  watch_topics-NoRepeat [] known s h = h
  watch_topics-NoRepeat (topic ∷ rest) known s h =
      watch_topics-NoRepeat rest _ _ (watch_topic-NoRepeat known topic s h)

  round-NoRepeat :
      (known : List String) (s : State W)
      → NoRepeat known
      → NoRepeat (round W ac profiles known s).0
  unfolding round
  round-NoRepeat known s h = elim (Result-cases (W.answer topics s.ext).0) [
    | inl (listed, q) ↦ rw (q, round) (watch_topics-NoRepeat listed known _ h)
    | inr (e, q) ↦ rw (q, round) h
  ]

  -- However many rounds the watcher makes, from known topics without a repeat it comes to known
  -- topics without a repeat.
  pub rounds-NoRepeat :
      (schedule : List Bool) (known : List String) (s : State W)
      → NoRepeat known
      → NoRepeat (rounds W ac profiles schedule known s).0
  unfolding rounds
  rounds-NoRepeat [] known s h = h
  rounds-NoRepeat (true ∷ more) known s h = h
  rounds-NoRepeat (false ∷ more) known s h = rounds-NoRepeat more _ _ (round-NoRepeat known s h)

  abbrev pub table_request : String → HttpRequest
  table_request topic =
      json_request "POST" ac "/api/v1/connection_tables"
        (some (connection_table_json (kafka_request profiles topic)))

  abbrev pub pipeline_request : String → HttpRequest
  pipeline_request topic =
      json_request "POST" ac "/api/v1/pipelines"
        (some (create_payload topic (flow_query topic) (pos 1)))

  -- The answer has status 200 or 201, or its text says that the thing already exists.
  abbrev pub Settles : String → String → Result HttpResponse → Type 0
  Settles unsent refused (ok resp) =
      (resp.status_code ≡ 200)
      ⊎ (resp.status_code ≡ 201)
      ⊎ (says_already_exists (text (refused <> decimal resp.status_code <> ": " <> resp.body))
          ≡ true)
  Settles unsent refused (err e) = says_already_exists (wrap unsent e) ≡ true

  create_pipeline_step-ok :
      (topic : String) (s : State W)
      → W.url_error ("http://" <> ac.base_url <> "/api/v1/pipelines") ≡ none
      → (create_pipeline_step W ac profiles topic s).0 ≡ ok tt
      → let r = (W.answer (send (pipeline_request topic)) s.ext).0 in
        Settles "failed to reach Arroyo API: " "Arroyo returned " r
        × ((create_pipeline_step W ac profiles topic s).1.log
            ≡ event (send (pipeline_request topic)) r ∷ s.log)
  unfolding create_pipeline_step create_pipeline_internal post
  create_pipeline_step-ok topic s u h = ground arith

  pub encodable-table :
      (topic : String) → encodable (connection_table_json (kafka_request profiles topic)) ≡ true
  unfolding encodable connection_table_json kafka_request
  encodable-table topic = refl

  create_table_step-ok :
      (topic : String) (s : State W)
      → W.url_error ("http://" <> ac.base_url <> "/api/v1/connection_tables") ≡ none
      → (create_table_step W ac profiles topic s).0 ≡ ok tt
      → let r = (W.answer (send (table_request topic)) s.ext).0 in
        Settles "send request: " "unexpected " r
        × ((create_table_step W ac profiles topic s).1.log
            ≡ event (send (table_request topic)) r ∷ s.log)
  unfolding create_table_step create_connection_table
  create_table_step-ok topic s u h = ground (arith, encodable-table topic)

  -- A flow was created: the table was asked for, then the pipeline that reads it, and Arroyo took
  -- both, or has them already.
  pub record Flowed (topic : String) (before after : List Event) : Type 0 where
    pub table : Result HttpResponse
    pub pipeline : Result HttpResponse
    pub table_settled : Settles "send request: " "unexpected " table
    pub pipeline_settled : Settles "failed to reach Arroyo API: " "Arroyo returned " pipeline
    pub logged :
        after
        ≡ event (send (pipeline_request topic)) pipeline
          ∷ event (send (table_request topic)) table
          ∷ before

  -- Where both addresses are well formed, a flow that counts as created was requested in full: first
  -- the connection table, then the pipeline, each answered with status 200 or 201 or with an error
  -- that says it already exists, and nothing else was requested.
  pub create_arroyo_flow-ok :
      (topic : String) (s : State W)
      → W.url_error ("http://" <> ac.base_url <> "/api/v1/connection_tables") ≡ none
      → W.url_error ("http://" <> ac.base_url <> "/api/v1/pipelines") ≡ none
      → (create_arroyo_flow W ac profiles topic s).0 ≡ ok tt
      → Flowed topic s.log (create_arroyo_flow W ac profiles topic s).1.log
  unfolding create_arroyo_flow
  create_arroyo_flow-ok topic s u v h =
      elim (Result-cases (create_table_step W ac profiles topic s).0) [
        | inr (e, q) ↦ absurd (ground (arith, q))
        | inl (_, q) ↦
            let s₁ = (create_table_step W ac profiles topic s).1 in
            let r = (W.answer (send (pipeline_request topic)) s₁.ext).0 in
            let (settled, logged) = create_table_step-ok topic s u q in
            let (settled', logged') =
              create_pipeline_step-ok topic s₁ v (rw (q, create_arroyo_flow) at h) in
            rw (q, create_arroyo_flow)
              (record {
                table = _;
                pipeline = _;
                table_settled = settled;
                pipeline_settled = settled';
                logged = logged' ∙ ap (λ l. event (send (pipeline_request topic)) r ∷ l) logged;
              })
      ]
