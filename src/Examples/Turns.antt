-- ===== src/Examples/Turns.antt =====
-- The server at work on the shelf: a registration between turns of the watcher and the supervisor.
use nostradamus_api.Prelude.{length, ◌≤◌, refl, none, [], ◌∷◌, arith}
use nostradamus_api.Go.Http.{Request, Writer}
use nostradamus_api.Go.Io.{Io}
use nostradamus_api.World.{State}
use nostradamus_api.World.Only.{still}
use nostradamus_api.Cache.Drivers.{valkey}
use nostradamus_api.Db.Fields.Distinct as Fields
use nostradamus_api.Db.Sensors.Distinct as Sensors
use nostradamus_api.Db.Fields.Store.{FieldStore}
use nostradamus_api.Db.Sensors.Store.{SensorStore}
use nostradamus_api.Routes.App.{App}
use nostradamus_api.Routes.Quiet.Caches.{valkey-IsQuiet}
use nostradamus_api.System.{
  System, Reach, here, later, on_request, on_watcher, on_supervisor, after_request, after_watcher,
  after_supervisor,
}
use nostradamus_api.World.Trace.{writes}
use nostradamus_api.System.Costs.{Reach-costs}
use nostradamus_api.System.Invariant.{Inv, Reach-Inv}
use nostradamus_api.Examples.Desk.{arroyo, emqx}
use nostradamus_api.Examples.Shelf.{shelf, bare}
use nostradamus_api.Examples.Shelf.Fields.{shelf_fields}
use nostradamus_api.Examples.Shelf.Sensors.{shelf_sensors}
use nostradamus_api.Examples.Pipelines.{profiles}

abbrev shelf_app : App shelf
shelf_app = record { cache = valkey shelf; arroyo = arroyo; emqx = emqx; driver = "valkey" }

abbrev no_metrics : Request → Writer → Io (State shelf) Writer
no_metrics r w s = (w, s)

abbrev registration : Request
registration = record { method = "POST"; path = "/fields"; query = []; body = "" }

abbrev sensor_registration : Request
sensor_registration = record { method = "POST"; path = "/sensors"; query = []; body = "" }

abbrev first : System shelf
first = record {
  watching = record { known = "ph_levels_a" ∷ []; left = none };
  checking = none;
  state = bare;
}

bare-IsDistinct :
    Fields.IsDistinct (FieldStore.Has shelf_fields bare.ext)
    × Sensors.IsDistinct (SensorStore.Has shelf_sensors bare.ext)
unfolding shelf_fields shelf_sensors
bare-IsDistinct = (
  record {
    one_of_name = λ g g' h. absurd (ground (arith, h));
    one_of_id = λ g g' h. absurd (ground (arith, h));
  },
  record {
    one_of_name = λ g g' h. absurd (ground (arith, h));
    one_of_id = λ g g' h. absurd (ground (arith, h));
  },
)

-- The system behind a registration of a field and one of a sensor, and behind a turn of each other.
abbrev registered : System shelf
registered =
    after_request shelf shelf_app profiles no_metrics sensor_registration
      (after_request shelf shelf_app profiles no_metrics registration first)

abbrev last : System shelf
last =
    after_supervisor shelf shelf_app profiles no_metrics
      (after_watcher shelf shelf_app profiles no_metrics registered)

abbrev run : Reach shelf shelf_app profiles no_metrics first last
run =
    later
      (later (later (later here (on_request registration)) (on_request sensor_registration))
        on_watcher)
      on_supervisor

Reach-Inv_example : Inv shelf shelf_app profiles no_metrics shelf_fields shelf_sensors first last
Reach-Inv_example =
    Reach-Inv shelf shelf_app profiles no_metrics shelf_fields shelf_sensors (valkey-IsQuiet shelf)
      (λ r w s. still shelf s) refl refl first (refl, tt) bare-IsDistinct.0 bare-IsDistinct.1 run

Reach-costs_example : length (writes last.state.log) ≤ 6
Reach-costs_example =
    Reach-costs shelf shelf_app no_metrics (valkey-IsQuiet shelf) (λ r w s. still shelf s) profiles
      first run
