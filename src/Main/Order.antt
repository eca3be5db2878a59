-- ===== src/Main/Order.antt =====
-- The order in which the program starts, and what it closes at its end (cmd/api/main.go).
use nostradamus_api.Prelude.{String, ◌≡◌, List, ◌∷◌}
use nostradamus_api.Errors.{Error}
use nostradamus_api.Go.Fallible.{Result, ok, err}
use nostradamus_api.World.{World, State, perform}
use nostradamus_api.World.Calls.{
  Call, getenv, create_session, go_watch, go_supervise, listen_and_serve, close_session,
  close_cache, shutdown_tracer, cancel_watcher, cancel_supervisor,
}
use nostradamus_api.Emqx
use nostradamus_api.Main.{
  Driver, driver_name, nodes_of, Ended, fatal, panicked, returned, five_seconds, Settled,
}

abbrev pub opened : List String → List Call → List Call
opened nodes before =
    create_session nodes "sensors_data" ∷ create_session nodes "sensors_meta" ∷ before

abbrev pub served : List String → List String → List Call → List Call
served nodes brokers before =
    listen_and_serve ":8080" ∷ go_supervise five_seconds ∷ go_watch brokers ∷ opened nodes before

abbrev pub closed : Driver → List Call → List Call
closed driver before =
    close_session "sensors_data"
    ∷ close_session "sensors_meta"
    ∷ close_cache (driver_name driver)
    ∷ before

module _ (W : World) (nodes brokers : List String) where
  -- How the program ends, and the milestones before (oldest last) and after.
  pub data Started (before after : List Call) : Ended → Type 0 where
    no_meta :
        (e : Error)
        → after ≡ create_session nodes "sensors_meta" ∷ before
        → Started before after (fatal e)
    unserved : (e : Error) → after ≡ opened nodes before → Started before after (fatal e)
    no_emqx :
        (driver : Driver)
        → after ≡ closed driver (opened nodes before)
        → Started before after panicked
    stopped : (e : Error) → after ≡ served nodes brokers before → Started before after (fatal e)
    finished :
        (driver : Driver)
        → after
          ≡ closed driver
              (shutdown_tracer ∷ cancel_watcher ∷ cancel_supervisor ∷ served nodes brokers before)
        → Started before after returned

module _ (W : World) where
  -- The addresses that the environment gives.
  abbrev pub scylla_nodes : State W → List String
  scylla_nodes s = nodes_of (perform W (getenv "SCYLLA_NODES") s).0

  -- How the settling ends.
  data SettledBy (nodes brokers : List String) (before after : List Call)
      : Result (Settled W) → Type 0 where
    meta_refused :
        (e : Error)
        → after ≡ create_session nodes "sensors_meta" ∷ before
        → SettledBy nodes brokers before after (err e)
    both_opened :
        (r : Result (Settled W))
        → after ≡ opened nodes before
        → ((settled : Settled W) → r ≡ ok settled → settled.brokers ≡ brokers)
        → SettledBy nodes brokers before after r

  -- The brokers that the environment gives.
  abbrev pub kafka_brokers : State W → List String
  kafka_brokers s =
      let (_, s₁) = perform W (getenv "SCYLLA_NODES") s in
      let (_, s₂) = perform W (getenv "ARROYO_URL") s₁ in
      nodes_of (perform W (getenv "KAFKA_BROKERS") s₂).0
