-- ===== src/Examples/Start.antt =====
-- The start of the program on the desk, and other single runs.
use nostradamus_api.Prelude.{◌≡◌, ◌≢◌, ◌⊎◌, ◌↔◌, String, []}
use nostradamus_api.Go.Http.{Request}
use nostradamus_api.Go.ServeMux.{clean_path}
use nostradamus_api.Routes.Mux.{route, job}
use nostradamus_api.Routes.Mux.Laws.{IsJobPath, route-job_iff}
use nostradamus_api.Examples.Desk.{desk}

abbrev job_request : Request
job_request = record { method = "GET"; path = "/jobs/ab12"; query = []; body = "" }

route-job_iff_example : (route desk job_request ≡ job "ab12") ↔ (
    (◌≡◌ {A = String} "GET" "CONNECT" ⊎ (clean_path "/jobs/ab12" ≡ "/jobs/ab12"))
    × IsJobPath desk "/jobs/ab12" "ab12"
    × ◌≢◌ {A = String} "ab12" "run"
    × ◌≢◌ {A = String} "ab12" "/")
route-job_iff_example = route-job_iff desk job_request "ab12"
