-- ===== src/Main.antt =====
-- cmd/api/main.go: the choice of the cache driver, the profiles of Arroyo, and the start of the
-- server. `log.Fatal` ends the program.
pub mod Laws
pub mod Milestones
pub mod Order
use Prim.Native.Char.{Char, code}
use nostradamus_api.Prelude.{
  ℕ, ◌==◌, String, Bool, ◌&&◌, ◌||◌, not, Option, none, some, List, [], ◌∷◌, str_eq, if◌then◌else◌,
}
use nostradamus_api.Errors.{Error, text}
use nostradamus_api.Go.Decode.{require}
use nostradamus_api.Go.Fallible.{Result, ok, err, Fallible, pure, lift, run, check, ◌>>=◌, ◌>>◌}
use nostradamus_api.Go.Json.{slice_elems}
use nostradamus_api.World.{World, State, perform}
use nostradamus_api.Go.Io.{Io}
use nostradamus_api.World.Calls.{
  getenv, create_session, set_tracer, go_watch, go_supervise, listen_and_serve, close_session,
  close_cache, shutdown_tracer, cancel_watcher, cancel_supervisor,
}
use nostradamus_api.Arroyo.Client.{ArroyoClient}
use nostradamus_api.Arroyo.Tables.{list_connection_profiles}
use nostradamus_api.Arroyo.Wire.{ConnectionProfile, ProfileCache}
use nostradamus_api.Cache.Drivers.{valkey, memcached}
use nostradamus_api.Emqx
use nostradamus_api.Kafka.Watcher.{new_watcher}
use nostradamus_api.Worker.{Supervisor, new_supervisor, start, stop}
use nostradamus_api.Routes.App.{App, warm_up}

pub data Driver : Type 0 where
  use_valkey : Driver
  use_memcached : Driver

-- The driver that `VALKEY_NODES` and `MEMCACHED_NODE` select. `strings.Split` of a text that is not
-- empty has an element, so `len(valkeyAddrs) > 0` says that the first is not empty.
unfoldable pub choose_driver : String → String → Result Driver
choose_driver valkey_nodes memcached_node =
    if str_eq valkey_nodes "" && str_eq memcached_node ""
    then err (text "VALKEY_NODES or MEMCACHED_NODE must be set")
    else if not (str_eq valkey_nodes "") && not (str_eq memcached_node "")
    then err (text "only one of VALKEY_NODES or MEMCACHED_NODE may be set")
    else if not (str_eq valkey_nodes "")
    then ok use_valkey
    else ok use_memcached

-- One round of the loop over the profiles.
abbrev note_profile : ProfileCache → ConnectionProfile → ProfileCache
note_profile c p =
    if str_eq p.connector "kafka"
    then record c { kafka_profile_id = p.id }
    else if str_eq p.connector "scylla"
    then record c { scylla_profile_id = p.id }
    else c

unfoldable pub note_profiles : ProfileCache → List ConnectionProfile → ProfileCache
note_profiles c [] = c
note_profiles c (p ∷ ps) = note_profiles (note_profile c p) ps

-- The profiles, which must both be there.
unfoldable pub load_profiles : List ConnectionProfile → Result ProfileCache
unfolding note_profiles
load_profiles ps =
    let c = note_profiles (record { kafka_profile_id = ""; scylla_profile_id = "" }) ps in
    if str_eq c.kafka_profile_id "" || str_eq c.scylla_profile_id ""
    then err (text "missing Kafka or Scylla profile")
    else ok c

abbrev pub driver_name : Driver → String
driver_name use_valkey = "valkey"
driver_name use_memcached = "memcached"

-- `strings.Split(s, ",")`
abbrev prefix_first : Char → List String → List String
prefix_first c [] = String.◌∷◌ c "" ∷ []
prefix_first c (word ∷ words) = String.◌∷◌ c word ∷ words

abbrev split_commas : String → List String
split_commas String.[] = "" ∷ []
split_commas (String.◌∷◌ c s) =
    let words = split_commas s in if code c == b',' then "" ∷ words else prefix_first c words

-- The addresses of a setting; none where it is not there.
unfoldable pub nodes_of : String → List String
nodes_of s = if str_eq s "" then [] else split_commas s

-- How the program ends: `log.Fatal`, the panic of `emqx.New`, or the end of `main`.
pub data Ended : Type 0 where
  fatal : Error → Ended
  panicked returned : Ended

-- The interval of the supervisor, in nanoseconds.
abbrev pub five_seconds : ℕ
five_seconds = 5000000000

module _ (W : World) where
  abbrev pub app_of : ArroyoClient → Emqx.EmqxClient → Driver → App W
  app_of ac ec use_valkey = record { cache = valkey W; arroyo = ac; emqx = ec; driver = "valkey" }
  app_of ac ec use_memcached = record {
    cache = memcached W;
    arroyo = ac;
    emqx = ec;
    driver = "memcached";
  }

  -- What is settled before the server is set up.
  pub record Settled : Type 0 where
    pub brokers : List String
    pub arroyo : ArroyoClient
    pub driver : Driver
    pub profiles : ProfileCache

  -- The two sessions of the database.
  unfoldable pub open_sessions : List String → Fallible (State W) (Unit {0})
  open_sessions nodes = do
    check (perform W (create_session nodes "sensors_meta"))
    check (perform W (create_session nodes "sensors_data"))

  -- The driver of the cache and the profiles of Arroyo.
  unfoldable pub choose : String → List String → Fallible (State W) Settled
  choose url brokers = do
    valkey_nodes ← run (perform W (getenv "VALKEY_NODES"))
    memcached_node ← run (perform W (getenv "MEMCACHED_NODE"))
    driver ← lift (choose_driver valkey_nodes memcached_node)
    let ac : ArroyoClient = record { base_url = url }
    listed ← list_connection_profiles W ac
    profiles ← lift (load_profiles (slice_elems listed))
    pure (record { brokers = brokers; arroyo = ac; driver = driver; profiles = profiles })

  -- From the environment to the sessions, the cache and the profiles. An error ends the program.
  unfoldable pub settle : Fallible (State W) Settled
  settle = do
    scylla ← run (perform W (getenv "SCYLLA_NODES"))
    url ← run (perform W (getenv "ARROYO_URL"))
    kafka ← run (perform W (getenv "KAFKA_BROKERS"))
    open_sessions (nodes_of scylla)
    choose url (nodes_of kafka)

  -- `InitTracer`: the errors of OpenTelemetry are dropped.
  unfoldable pub init_tracer : Io (State W) (Unit {0})
  init_tracer s =
      let (endpoint, s₁) = perform W (getenv "TEMPO_ENDPOINT") s in
      perform W (set_tracer endpoint "nostradamus-api") s₁

  -- `(*DB).Close`
  unfoldable pub close_db : Io (State W) (Unit {0})
  close_db s =
      let (_, s₁) = perform W (close_session "sensors_meta") s in
      perform W (close_session "sensors_data") s₁

  -- The deferred `c.Close()` and `store.Close()`.
  unfoldable pub close_stores : Driver → Io (State W) (Unit {0})
  close_stores driver s =
      let (_, s₁) = perform W (close_cache (driver_name driver)) s in close_db s₁

  -- All that is deferred, the last first.
  unfoldable pub run_deferred : Supervisor → Driver → Io (State W) (Unit {0})
  run_deferred sv driver s =
      let (_, s₁) = stop W sv s in
      let (_, s₂) = perform W cancel_watcher s₁ in
      let (_, s₃) = perform W shutdown_tracer s₂ in close_stores driver s₃

  -- From the tracer to the end of the server.
  unfoldable pub serve : Settled → App W → Io (State W) Ended
  serve settled app s =
      let (_, s₁) = init_tracer s in
      let watcher = new_watcher settled.brokers settled.arroyo settled.profiles in
      let (_, s₂) = perform W (go_watch watcher.brokers) s₁ in
      let (sv, s₃) = start W (new_supervisor settled.arroyo five_seconds) s₂ in
      let (_, s₄) = warm_up W app s₃ in
      let (r, s₅) = perform W (listen_and_serve ":8080") s₄ in
      elim r [
        | some e ↦ (fatal e, s₅)
        | none ↦ let (_, s₆) = run_deferred sv settled.driver s₅ in (returned, s₆)
      ]

  -- From the EMQX client on, which panics where a setting is missing. A panic runs what is deferred.
  unfoldable pub after_settling : Result Settled → Io (State W) Ended
  after_settling (err e) s = (fatal e, s)
  after_settling (ok settled) s =
      let (found, s₁) = Emqx.new W s in
      elim found [
        | none ↦ let (_, s₂) = close_stores settled.driver s₁ in (panicked, s₂)
        | some ec ↦ serve settled (app_of settled.arroyo ec settled.driver) s₁
      ]

  -- `main`. `log.Fatal` exits at once.
  unfoldable pub main : Io (State W) Ended
  main s = let (r, s₁) = settle s in after_settling r s₁
