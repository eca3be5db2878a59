-- ===== src/System/Invariant.antt =====
-- What holds in every state of the server at work, whoever goes next.
use nostradamus_api.Worker.{Listed}
use nostradamus_api.Prelude.{Option, ◌<>◌, ◌≡◌, none, List, inl}
use nostradamus_api.Go.Http.{Request, Writer, new_writer}
use nostradamus_api.Go.Io.{Io}
use nostradamus_api.World.{World, State}
use nostradamus_api.World.Trace.{Grows, Grows-trans}
use nostradamus_api.Arroyo.Wire.{ProfileCache}
use nostradamus_api.Kafka.Laws.{NoRepeat}
use nostradamus_api.Kafka.Requested.{Covered, Covered-Grows}
use nostradamus_api.Db.Fields.Store.{FieldStore}
use nostradamus_api.Db.Fields.Distinct as Fields
use nostradamus_api.Db.Sensors.Store.{SensorStore}
use nostradamus_api.Db.Sensors.Distinct as Sensors
use nostradamus_api.Routes.Quiet.Reads.{Quiet}
use nostradamus_api.Routes.App.{App}
use nostradamus_api.Routes.Quiet.Caches.{IsQuiet}
use nostradamus_api.System.{
  System, supervisor_turn, Step, on_request, on_watcher, on_supervisor, Reach, here, later,
  after_watcher,
}
use nostradamus_api.System.Safe.{Safe, Quiet-Safe}
use nostradamus_api.System.Served.{mux-Safe}
use nostradamus_api.System.Turns.{
  watcher_turn-Quiet, supervisor_turn-Quiet, watcher_turn-NoRepeat, watcher_turn-Covered,
}

module _ (W : World) (app : App W) (profiles : ProfileCache)
    (prometheus : Request → Writer → Io (State W) Writer) (fields_db : FieldStore W)
    (sensors_db : SensorStore W) where
  -- No topic is known twice, each known topic was known at first or its flow was requested, no user
  -- has two fields and no field has two sensors of one name, no identifier stands in two rows of
  -- either table, and the log has what it had.
  pub record Inv (first : System W) (s : System W) : Type 0 where
    pub no_repeat : NoRepeat W app.arroyo profiles s.watching.known
    pub covered : Covered W app.arroyo profiles first.watching.known (s.watching.known, s.state)
    pub fields : Fields.IsDistinct (fields_db.Has s.state.ext)
    pub sensors : Sensors.IsDistinct (sensors_db.Has s.state.ext)
    pub grows : Grows first.state.log s.state.log

  module _ (cache : IsQuiet W app.cache)
      (plain : (r : Request) (w : Writer) (s : State W) → Quiet W s (prometheus r w s))
      (table_url : W.url_error ("http://" <> app.arroyo.base_url <> "/api/v1/connection_tables")
        ≡ none)
      (pipeline_url : W.url_error ("http://" <> app.arroyo.base_url <> "/api/v1/pipelines") ≡ none)
      (first : System W) where
    Safe-Inv :
        {A : Type 0} (s : System W) (checking : Option (List Listed)) (out : A × State W)
        → Safe W fields_db sensors_db s.state out
        → Inv first s
        → Inv first (record { watching = s.watching; checking = checking; state = out.1 })
    Safe-Inv s checking out safe inv = record {
      no_repeat = inv.no_repeat;
      covered =
          Covered-Grows W app.arroyo profiles first.watching.known s.watching.known s.state out.1
            safe.grows inv.covered;
      fields = safe.fields inv.fields;
      sensors = safe.sensors inv.sensors;
      grows = Grows-trans inv.grows safe.grows;
    }

    after_watcher-Inv :
        (s : System W) → Inv first s → Inv first (after_watcher W app profiles prometheus s)
    after_watcher-Inv s inv =
        let known = s.watching.known in
        let left = s.watching.left in
        let safe =
          Quiet-Safe W fields_db sensors_db
            (watcher_turn-Quiet W app.arroyo profiles known left s.state) in
        record {
          no_repeat = watcher_turn-NoRepeat W app.arroyo profiles known left s.state inv.no_repeat;
          covered =
              watcher_turn-Covered W app.arroyo profiles table_url pipeline_url first.watching.known
                known left s.state inv.covered;
          fields = safe.fields inv.fields;
          sensors = safe.sensors inv.sensors;
          grows = Grows-trans inv.grows safe.grows;
        }

    Step-Inv : {s t : System W} → Step W app profiles prometheus s t → Inv first s → Inv first t
    Step-Inv {s} (on_request r) inv =
        Safe-Inv s s.checking _
          (mux-Safe W fields_db sensors_db app prometheus cache r new_writer s.state
            (λ w. plain r w s.state))
          inv
    Step-Inv {s} on_watcher inv = after_watcher-Inv s inv
    Step-Inv {s} on_supervisor inv =
        let out = supervisor_turn W app.arroyo s.checking s.state in
        Safe-Inv s out.0 out
          (Quiet-Safe W fields_db sensors_db
            (supervisor_turn-Quiet W app.arroyo s.checking s.state))
          inv

    first-Inv :
        NoRepeat W app.arroyo profiles first.watching.known
        → Fields.IsDistinct (fields_db.Has first.state.ext)
        → Sensors.IsDistinct (sensors_db.Has first.state.ext)
        → Inv first first
    first-Inv no_repeat fields sensors = record {
      no_repeat = no_repeat;
      covered = λ topic m. inl m;
      fields = fields;
      sensors = sensors;
      grows = λ e m. m;
    }

    -- However the other services answer and in whichever order the requests, the watcher and the
    -- supervisor take their turns, where no request overlaps another, both addresses of Arroyo are
    -- well formed, neither the cache nor the handler of the Prometheus client writes to the database,
    -- and the database answers every read of the tables of the fields and of the sensors from its
    -- rows, none with an error, and keeps them: from known topics and rows without a repeat, no topic
    -- is ever known twice, each topic that becomes known is managed and the log has its settled
    -- requests for the table and the pipeline, no user ever has two fields and no field two sensors
    -- of one name, no identifier stands in two rows of a table, and nothing is taken from the log.
    pub Reach-Inv :
        {s : System W}
        → NoRepeat W app.arroyo profiles first.watching.known
        → Fields.IsDistinct (fields_db.Has first.state.ext)
        → Sensors.IsDistinct (sensors_db.Has first.state.ext)
        → Reach W app profiles prometheus first s
        → Inv first s
    Reach-Inv no_repeat fields sensors here = first-Inv no_repeat fields sensors
    Reach-Inv no_repeat fields sensors (later reach step) =
        Step-Inv step (Reach-Inv no_repeat fields sensors reach)
