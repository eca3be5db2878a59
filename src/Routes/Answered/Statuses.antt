-- ===== src/Routes/Answered/Statuses.antt =====
-- The statuses that each route may answer with (handlers.go, jobs.go, pipelines.go, mux.go).
use nostradamus_api.Prelude.{ℕ, Bool, true, [], ◌∷◌, str_eq, if◌then◌else◌}
use nostradamus_api.Go.Http.{Request}
use nostradamus_api.World.{World}
use nostradamus_api.Routes.Mux.{
  Route, healthz, readyz, metrics, latest, aggregate, fields, field, sensors, credentials, jobs,
  run_job, pipelines, unknown, malformed, job, moved, route,
}
use nostradamus_api.Routes.Answered.Ready.{one_of}

-- The two routes for jobs pass on any status of Arroyo.
abbrev pub expected : Route → ℕ → Bool
expected healthz = one_of (200 ∷ [])
expected readyz = one_of (200 ∷ 503 ∷ [])
expected metrics = one_of (200 ∷ 500 ∷ 503 ∷ [])
expected latest = one_of (200 ∷ 500 ∷ [])
expected aggregate = one_of (200 ∷ 400 ∷ 404 ∷ 500 ∷ [])
expected fields = one_of (200 ∷ 201 ∷ 400 ∷ 405 ∷ 500 ∷ [])
expected field = one_of (200 ∷ 400 ∷ 404 ∷ 405 ∷ 500 ∷ [])
expected sensors = one_of (200 ∷ 201 ∷ 400 ∷ 405 ∷ 500 ∷ [])
expected credentials = one_of (200 ∷ 400 ∷ 404 ∷ 405 ∷ 500 ∷ [])
expected jobs = λ _. true
expected run_job = one_of (200 ∷ 400 ∷ 405 ∷ 500 ∷ 502 ∷ [])
expected pipelines = one_of (200 ∷ 405 ∷ 500 ∷ [])
expected unknown = one_of (404 ∷ [])
expected malformed = one_of (400 ∷ [])
expected (moved path) = one_of (301 ∷ [])
expected (job id) = λ _. true

-- A preflight is answered with 204 on every path.
abbrev pub behind_cors : (ℕ → Bool) → Request → ℕ → Bool
behind_cors may r = if str_eq r.method "OPTIONS" then one_of (204 ∷ []) else may

abbrev pub expected_of : World → Request → ℕ → Bool
expected_of W r = behind_cors (expected (route W r)) r
