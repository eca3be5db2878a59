-- ===== src/Routes/Answered.antt =====
-- The status and the headers of what the handlers send behind the CORS wrapper (handlers.go, mux.go).
pub mod Ready
pub mod Statuses
pub mod Handlers
use nostradamus_api.Prelude.{
  ℕ, Bool, [], ◌∷◌, String, ◌≡◌, refl, inl, inr, none, str_eq, Bool-cases,
}
use nostradamus_api.Go.Io.{Io}
use nostradamus_api.Go.Http.{Request, Writer, set_header}
use nostradamus_api.World.{World, State}
use nostradamus_api.Routes.App.{App}
use nostradamus_api.Routes.Health.{ready_handler}
use nostradamus_api.Utils.{with_cors}
use nostradamus_api.Routes.Aggregate.{aggregate_handler}
use nostradamus_api.Routes.Fields.{get_field_by_id_handler, register_field_handler}
use nostradamus_api.Routes.Sensors.{get_sensor_credentials_handler, register_sensor_handler}
pub use Ready.{Ends, allow_origin, answers, IsReady}
use nostradamus_api.Routes.Mux.{
  Route, healthz, readyz, metrics, latest, aggregate, fields, field, sensors, credentials, jobs,
  run_job, pipelines, unknown, malformed, job, moved, route, fields_route, sensors_route, dispatch,
  mux,
}
use Statuses.{expected, behind_cors, expected_of}
use Ready.{
  one_of, on_if, ends, malformed-Says, redirect-Says, IsOpen, IsOpen-IsReady, lookup-add,
  set_header-IsOpen, write_header-answers,
}
use Handlers.*

-- A wrapped handler answers where the handler answers any writer that is ready.
with_cors-Ends :
    {S : Type 0} (may : ℕ → Bool) (handler : Request → Writer → Io S Writer) (r : Request)
    (w : Writer) (s : S)
    → w.sent ≡ none
    → ((w' : Writer) → IsReady w' → Ends may (handler r w' s))
    → Ends (behind_cors may r) (with_cors handler r w s)
unfolding with_cors
with_cors-Ends may handler r w s fresh h =
    let w₁ = set_header "Access-Control-Allow-Origin" "*" w in
    let w₂ = set_header "Access-Control-Allow-Methods" "GET, OPTIONS" w₁ in
    let w₃ = set_header "Access-Control-Allow-Headers" "Content-Type" w₂ in
    let open₁ : IsOpen w₁ = (fresh, lookup-add allow_origin "*" w.header) in
    let open₃ =
      set_header-IsOpen "Access-Control-Allow-Headers" "Content-Type" w₂ refl
        (set_header-IsOpen "Access-Control-Allow-Methods" "GET, OPTIONS" w₁ refl open₁) in
    elim (Bool-cases (str_eq r.method "OPTIONS")) [
      | inl q ↦
          rw (q, with_cors)
            (record { ended = write_header-answers (one_of (204 ∷ [])) 204 w₃ refl open₃ })
      | inr q ↦ rw (q, with_cors) (h w₃ (IsOpen-IsReady w₃ open₃))
    ]

-- Behind the CORS wrapper, these handlers answer every request on which nothing was sent before: one
-- of the statuses of the route goes out, or 204 to a preflight, with a header that allows every
-- origin, whatever the services answer.
pub with_cors-answers :
    (W : World) (app : App W) (r : Request) (w : Writer) (s : State W)
    → w.sent ≡ none
    → Ends (behind_cors (expected aggregate) r) (with_cors (aggregate_handler W app) r w s)
      × Ends (behind_cors (expected fields) r) (with_cors (register_field_handler W) r w s)
      × Ends (behind_cors (expected field) r) (with_cors (get_field_by_id_handler W) r w s)
      × Ends (behind_cors (expected sensors) r) (with_cors (register_sensor_handler W app) r w s)
      × Ends
          (behind_cors (expected credentials) r)
          (with_cors (get_sensor_credentials_handler W) r w s)
      × Ends (behind_cors (expected readyz) r) (with_cors (ready_handler W app) r w s)
with_cors-answers W app r w s fresh = (
  with_cors-Ends _ _ r w s fresh (λ w' o. aggregate_handler-Ends W app r w' s o),
  with_cors-Ends _ _ r w s fresh (λ w' o. register_field_handler-Ends W app r w' s o),
  with_cors-Ends _ _ r w s fresh (λ w' o. get_field_by_id_handler-Ends W app r w' s o),
  with_cors-Ends _ _ r w s fresh (λ w' o. register_sensor_handler-Ends W app r w' s o),
  with_cors-Ends _ _ r w s fresh (λ w' o. get_sensor_credentials_handler-Ends W app r w' s o),
  with_cors-Ends _ _ r w s fresh (λ w' o. ready_handler-Ends W app r w' s o),
)

module _ (W : World) (app : App W) (prometheus : Request → Writer → Io (State W) Writer) where
  -- The handler of the Prometheus client answers the request, where the request is for it.
  abbrev pub PrometheusAnswers : Request → State W → Type 0
  PrometheusAnswers r s =
      route W r ≡ metrics → (w : Writer) → IsReady w → Ends (expected metrics) (prometheus r w s)

  fields_route-Ends :
      (r : Request) (w : Writer) (s : State W)
      → IsReady w
      → Ends (expected fields) (fields_route W app prometheus r w s)
  unfolding fields_route
  fields_route-Ends r w s o = on_if (Ends (expected fields)) _ (fields_handler-Ends W app r w s o) (
      on_if (Ends (expected fields)) _ (register_field_handler-Ends W app r w s o)
        (reply_method_not_allowed-Ends W app r w s o refl))

  sensors_route-Ends :
      (r : Request) (w : Writer) (s : State W)
      → IsReady w
      → Ends (expected sensors) (sensors_route W app prometheus r w s)
  unfolding sensors_route
  sensors_route-Ends r w s o =
      on_if (Ends (expected sensors)) _ (sensors_handler-Ends W app r w s o) (
        on_if (Ends (expected sensors)) _ (register_sensor_handler-Ends W app r w s o)
          (reply_method_not_allowed-Ends W app r w s o refl))

  dispatch-Ends :
      (p : Route) (r : Request) (w : Writer) (s : State W)
      → IsReady w
      → (p ≡ metrics → Ends (expected metrics) (prometheus r w s))
      → Ends (expected p) (dispatch W app prometheus p r w s)
  unfolding dispatch
  dispatch-Ends healthz r w s o h = health_handler-Ends W app r w s o
  dispatch-Ends readyz r w s o h = ready_handler-Ends W app r w s o
  dispatch-Ends metrics r w s o h = h refl
  dispatch-Ends latest r w s o h = latest_handler-Ends W app r w s o
  dispatch-Ends aggregate r w s o h = aggregate_handler-Ends W app r w s o
  dispatch-Ends fields r w s o h = fields_route-Ends r w s o
  dispatch-Ends field r w s o h = get_field_by_id_handler-Ends W app r w s o
  dispatch-Ends sensors r w s o h = sensors_route-Ends r w s o
  dispatch-Ends credentials r w s o h = get_sensor_credentials_handler-Ends W app r w s o
  dispatch-Ends jobs r w s o h = list_jobs-Ends W app.arroyo w o r s
  dispatch-Ends run_job r w s o h = create_pipeline-Ends W app.arroyo w o r s
  dispatch-Ends pipelines r w s o h = list_pipelines-Ends W app.arroyo w o r s
  dispatch-Ends unknown r w s o h = not_found-Ends W app r w s o
  dispatch-Ends malformed r w s o h = ends _ _ (malformed-Says w o refl)
  dispatch-Ends (moved path) r w s o h = ends _ _ (redirect-Says w o r _ 301 refl)
  dispatch-Ends (job id) r w s o h = get_job-Ends W app.arroyo w o r s id

  -- The server answers every request on which nothing was sent before, on every path and with every
  -- method, provided that the handler of the Prometheus client answers those on its path with 200,
  -- 500 or 503: a status goes out, with a header that allows every origin, whatever the services
  -- answer. It is 204 for a preflight; for any other request it is one of the few that `expected`
  -- lists for the route, which is 301 for a path that is not in canonical form, and only the two
  -- routes for jobs pass on other ones, those of Arroyo.
  pub mux-answers :
      (r : Request) (w : Writer) (s : State W)
      → w.sent ≡ none
      → PrometheusAnswers r s
      → Ends (expected_of W r) (mux W app prometheus r w s)
  unfolding mux
  mux-answers r w s fresh h =
      with_cors-Ends _ _ r w s fresh (λ w' o. dispatch-Ends (route W r) r w' s o (λ e. h e w' o))
