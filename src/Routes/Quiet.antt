-- ===== src/Routes/Quiet.antt =====
-- Which requests write to the database (mux.go).
pub mod Reads
pub mod Caches
pub mod Handlers
use nostradamus_api.Prelude.{
  String, ◌≡◌, ◌≢◌, refl, Bool, true, false, if-cases, inl, inr, str_eq, eq_iff, Bool-cases,
}
use nostradamus_api.Go.Http.{Request, Writer, set_header}
use nostradamus_api.Utils.{with_cors}
use nostradamus_api.World.{World, State}
use nostradamus_api.World.Trace.{writes}
use nostradamus_api.World.Only.{still, makes, writes-Makes}
use nostradamus_api.Go.Io.{Io}
use nostradamus_api.Routes.Fields.{register_field_handler}
use nostradamus_api.Routes.Sensors.{register_sensor_handler}
use nostradamus_api.Routes.App.{App}
use nostradamus_api.Routes.Answered.Ready.{on_if}
use nostradamus_api.Routes.Mux.{
  Route, healthz, readyz, metrics, latest, aggregate, fields, field, sensors, credentials, jobs,
  run_job, pipelines, unknown, malformed, job, moved, route, fields_route, sensors_route, dispatch,
  mux,
}
use Reads.{Quiet}
use Caches.{IsQuiet}
use Handlers.*

-- A property of what the server gives for a request: it has to hold of every action without a write,
-- and of the two handlers that write, where the request is a POST.
module _ (W : World) (app : App W) (prometheus : Request → Writer → Io (State W) Writer)
    (cache : IsQuiet W app.cache) (r : Request) (s : State W) (P : Writer × State W → Type 0)
    (quiet : (out : Writer × State W) → Quiet W s out → P out)
    (field_posted : (w : Writer)
      → str_eq r.method "POST" ≡ true
      → P (register_field_handler W r w s))
    (sensor_posted : (w : Writer)
      → str_eq r.method "POST" ≡ true
      → P (register_sensor_handler W app r w s)) where
  dispatch_by :
      (p : Route) (w : Writer)
      → (p ≡ metrics → P (prometheus r w s))
      → P (dispatch W app prometheus p r w s)
  unfolding dispatch fields_route sensors_route
  dispatch_by healthz w h = quiet _ (still W s)
  dispatch_by readyz w h = quiet _ (ready_handler-Quiet W app cache r w s)
  dispatch_by metrics w h = h refl
  dispatch_by latest w h = quiet _ (latest_handler-Quiet W app cache r w s)
  dispatch_by aggregate w h = quiet _ (aggregate_handler-Quiet W app cache r w s)
  dispatch_by fields w h =
      on_if P (str_eq r.method "GET") (quiet _ (fields_handler-Quiet W s r w))
        (if-cases P (str_eq r.method "POST") (field_posted w) (λ _. quiet _ (still W s)))
  dispatch_by field w h = quiet _ (get_field_by_id_handler-Quiet W s r w)
  dispatch_by sensors w h =
      on_if P (str_eq r.method "GET") (quiet _ (sensors_handler-Quiet W s r w))
        (if-cases P (str_eq r.method "POST") (sensor_posted w) (λ _. quiet _ (still W s)))
  dispatch_by credentials w h = quiet _ (get_sensor_credentials_handler-Quiet W s r w)
  dispatch_by jobs w h = quiet _ (list_jobs-Quiet W s r w app.arroyo)
  dispatch_by run_job w h = quiet _ (create_pipeline-Quiet W s r w app.arroyo)
  dispatch_by pipelines w h = quiet _ (list_pipelines-Quiet W s r w app.arroyo)
  dispatch_by unknown w h = quiet _ (still W s)
  dispatch_by malformed w h = quiet _ (still W s)
  dispatch_by (moved path) w h = quiet _ (still W s)
  dispatch_by (job id) w h = quiet _ (get_job-Quiet W s r w app.arroyo id)

  pub mux_by :
      (w : Writer)
      → (route W r ≡ metrics → (w' : Writer) → P (prometheus r w' s))
      → P (mux W app prometheus r w s)
  unfolding mux with_cors
  mux_by w h =
      on_if P (str_eq r.method "OPTIONS") (quiet _ (still W s))
        (dispatch_by (route W r) _ (λ e. h e _))

module _ (W : World) (app : App W) (prometheus : Request → Writer → Io (State W) Writer)
    (cache : IsQuiet W app.cache) (r : Request) (s : State W) where
  not_post : {A : Type 0} → r.method ≢ "POST" → str_eq r.method "POST" ≡ true → A
  not_post ne q = absurd (ne ((eq_iff r.method "POST").0 q))

  pub mux-Quiet :
      (w : Writer)
      → r.method ≢ "POST"
      → (route W r ≡ metrics → (w' : Writer) → Quiet W s (prometheus r w' s))
      → Quiet W s (mux W app prometheus r w s)
  mux-Quiet w ne h =
      mux_by W app prometheus cache r s (Quiet W s) (λ out h. h) (λ w. not_post ne)
        (λ w. not_post ne) w h

  -- Over a cache that does not touch the database, which both drivers are, a request with any other
  -- method than POST sends no write to the database, on every path, provided that the handler of the
  -- Prometheus client sends none on its own.
  pub mux-reads_only :
      (w : Writer)
      → r.method ≢ "POST"
      → (route W r ≡ metrics → (w' : Writer) → Quiet W s (prometheus r w' s))
      → writes (mux W app prometheus r w s).1.log ≡ writes s.log
  mux-reads_only w ne h = writes-Makes W (makes W (mux-Quiet w ne h))
