-- ===== src/Kafka/Watcher.antt =====
-- `Watcher.Run` (watcher.go): the topics that are known, and the rounds.
use nostradamus_api.Prelude.{
  ℕ, ◌*◌, String, Bool, true, false, none, some, not, ◌||◌, List, [], ◌∷◌, map, any, str_eq,
  starts_with, if◌then◌else◌,
}
use nostradamus_api.Go.Fallible.{Result, ok, err}
use nostradamus_api.Go.Io.{Io}
use nostradamus_api.Go.Json.{slice_elems}
use nostradamus_api.World.{World, State, perform}
use nostradamus_api.World.Calls.{connect_kafka, close_kafka, topics, sleep, refresh_metadata}
use nostradamus_api.Arroyo.Client.{ArroyoClient}
use nostradamus_api.Arroyo.Wire.{ProfileCache}
use nostradamus_api.Arroyo.Pipelines.{list_pipelines_internal}
use nostradamus_api.Kafka.Flow.{is_kafka_managed_topic, create_arroyo_flow}

-- `w.knownTopics[topic]`: the keys of the map, all of whose values are true.
abbrev pub knows : List String → String → Bool
knows known topic = any (str_eq topic) known

-- The topics that the watcher passes over, known or not.
unfoldable pub is_ignored : String → Bool
is_ignored topic = starts_with topic "__" || not (is_kafka_managed_topic topic)

-- `Watcher`, and `NewWatcher`, which knows no topic.
pub record Watcher : Type 0 where
  pub brokers : List String
  pub client : ArroyoClient
  pub known_topics : List String
  pub profiles : ProfileCache

unfoldable pub new_watcher : List String → ArroyoClient → ProfileCache → Watcher
new_watcher brokers client profiles = record {
  brokers = brokers;
  client = client;
  known_topics = [];
  profiles = profiles;
}

module _ (W : World) (ac : ArroyoClient) (profiles : ProfileCache) where
  -- The names of the pipelines that Arroyo has; none where they cannot be listed.
  unfoldable pub initial_topics : Io (State W) (List String)
  initial_topics s =
      let (r, s') = list_pipelines_internal W ac s in
      (elim r [ err _ ↦ [] | ok ps ↦ map (λ p. p.name) (slice_elems ps) ], s')

  -- One topic of a round.
  unfoldable pub watch_topic : List String → String → Io (State W) (List String)
  watch_topic known topic s =
      if is_ignored topic
      then (known, s)
      else if knows known topic
      then (known, s)
      else (let (r, s') = create_arroyo_flow W ac profiles topic s in
          (elim r [ err _ ↦ known | ok _ ↦ topic ∷ known ], s'))

  unfoldable pub watch_topics : List String → List String → Io (State W) (List String)
  watch_topics known [] s = (known, s)
  watch_topics known (topic ∷ rest) s =
      let (known', s') = watch_topic known topic s in watch_topics known' rest s'

  abbrev pub second : ℕ
  second = 1000000000

  -- One pass of the loop.
  unfoldable pub round : List String → Io (State W) (List String)
  unfolding perform
  round known s =
      let (r, s₁) = perform W topics s in
      elim r [
        | err _ ↦ (known, (perform W (sleep (10 * second)) s₁).1)
        | ok listed ↦
            let (known', s₂) = watch_topics known listed s₁ in
            let (_, s₃) = perform W (sleep (30 * second)) s₂ in
            (known', (perform W refresh_metadata s₃).1)
      ]

  -- The loop. Each item says whether the context is done when `select` is reached.
  unfoldable pub rounds : List Bool → List String → Io (State W) (List String)
  rounds [] known s = (known, s)
  rounds (true ∷ _) known s = (known, s)
  rounds (false ∷ more) known s = let (known', s') = round known s in rounds more known' s'

  -- `Run`, once the Kafka client is there: the pipelines that Arroyo has, and the loop.
  unfoldable pub watch : List Bool → Io (State W) (List String)
  watch schedule s = let (known, s') = initial_topics s in rounds schedule known s'

-- `(*Watcher).Run`. Without a Kafka client the whole program ends: that is the error.
unfoldable pub run_watcher : (W : World) → Watcher → List Bool → Io (State W) (Result (List String))
unfolding perform
run_watcher W w schedule s =
    let (failed, s₁) = perform W (connect_kafka w.brokers) s in
    elim failed [
      | some e ↦ (err e, s₁)
      | none ↦
          let (known, s₂) = watch W w.client w.profiles schedule s₁ in
          (ok known, (perform W close_kafka s₂).1)
    ]
