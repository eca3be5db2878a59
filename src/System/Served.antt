-- ===== src/System/Served.antt =====
-- A request to the server, the log and the rows (mux.go).
use nostradamus_api.Go.Http.{Request, Writer}
use nostradamus_api.Go.Io.{Io}
use nostradamus_api.World.{World, State}
use nostradamus_api.Db.Fields.Store.{FieldStore}
use nostradamus_api.Db.Sensors.Store.{SensorStore}
use nostradamus_api.Routes.App.{App}
use nostradamus_api.Routes.Mux.{mux}
use nostradamus_api.Routes.Quiet.{mux_by}
use nostradamus_api.Routes.Quiet.Reads.{Quiet}
use nostradamus_api.Routes.Quiet.Caches.{IsQuiet}
use nostradamus_api.System.Safe.{
  Safe, Quiet-Safe, register_field_handler-Safe, register_sensor_handler-Safe,
}

module _ (W : World) (fields_db : FieldStore W) (sensors_db : SensorStore W) (app : App W)
    (prometheus : Request → Writer → Io (State W) Writer) (cache : IsQuiet W app.cache) where
  -- Whatever the request, where the handler of the Prometheus client sends no write to the database.
  pub mux-Safe :
      (r : Request) (w : Writer) (s : State W)
      → ((w' : Writer) → Quiet W s (prometheus r w' s))
      → Safe W fields_db sensors_db s (mux W app prometheus r w s)
  mux-Safe r w s h =
      mux_by W app prometheus cache r s (Safe W fields_db sensors_db s)
        (λ out k. Quiet-Safe W fields_db sensors_db k)
        (λ w q. register_field_handler-Safe W fields_db sensors_db r w s)
        (λ w q. register_sensor_handler-Safe W fields_db sensors_db app r w s) w
        (λ e w'. Quiet-Safe W fields_db sensors_db (h w'))
