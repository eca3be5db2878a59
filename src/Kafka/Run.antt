-- ===== src/Kafka/Run.antt =====
-- A whole run of the watcher, from the Kafka client to its end (`Watcher.Run`, watcher.go).
use nostradamus_api.Prelude.{String, ◌≡◌, Option, none, some, List, ◌∷◌}
use nostradamus_api.Errors.{Error}
use nostradamus_api.Go.Fallible.{Result, ok, err}
use nostradamus_api.World.{World, State, perform}
use nostradamus_api.World.Calls.{event, connect_kafka}
use nostradamus_api.Kafka.Watcher.{Watcher, initial_topics}
use nostradamus_api.Kafka.Requested.{Covered}

module _ (W : World) (w : Watcher) where
  -- What the client answers when it is made, and the state behind that.
  abbrev pub refusal : State W → Option Error
  refusal s = (perform W (connect_kafka w.brokers) s).0

  abbrev pub connected : State W → State W
  connected s = (perform W (connect_kafka w.brokers) s).1

  -- How a run ends.
  pub data Ran (s : State W) : Result (List String) × State W → Type 0 where
    unconnected :
        (e : Error) (s' : State W)
        → refusal s ≡ some e
        → s'.log ≡ event (connect_kafka w.brokers) (some e) ∷ s.log
        → Ran s (err e, s')
    cancelled :
        (known : List String) (s' : State W)
        → refusal s ≡ none
        → Covered W w.client w.profiles
            (initial_topics W w.client w.profiles (connected s)).0
            (known, s')
        → Ran s (ok known, s')
