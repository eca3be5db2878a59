-- ===== src/Routes/Mux.antt =====
-- `NewMux` (mux.go): the patterns of the `http.ServeMux` behind the CORS wrapper. `/metrics` is the
-- handler of the Prometheus client.
pub mod Laws
use nostradamus_api.Prelude.{String, List, [], ◌∷◌, str_eq, if◌then◌else◌}
use nostradamus_api.Go.Http.{Request, Writer, http_error, redirect, set_header, write_header}
use nostradamus_api.Go.ServeMux.{clean_path, segments}
use nostradamus_api.Go.Io.{Io}
use nostradamus_api.Utils.{reply_method_not_allowed, with_cors}
use nostradamus_api.World.{World, State}
use nostradamus_api.Arroyo.Jobs.{list_jobs, get_job}
use nostradamus_api.Arroyo.Pipelines.{create_pipeline, list_pipelines}
use nostradamus_api.Routes.App.{App}
use nostradamus_api.Routes.Health.{health_handler, ready_handler}
use nostradamus_api.Routes.Latest.{latest_handler}
use nostradamus_api.Routes.Aggregate.{aggregate_handler}
use nostradamus_api.Routes.Fields.{fields_handler, get_field_by_id_handler, register_field_handler}
use nostradamus_api.Routes.Sensors.{
  sensors_handler, register_sensor_handler, get_sensor_credentials_handler,
}

-- `moved` is the redirect to a path in canonical form, `malformed` the answer to the path `*`.
pub data Route : Type 0 where
  healthz readyz metrics latest aggregate fields field sensors credentials : Route
  jobs run_job pipelines unknown malformed : Route
  job moved : String → Route

-- A path of one segment.
unfoldable pub match_one : String → Route
match_one a =
    if str_eq a "healthz"
    then healthz
    else if str_eq a "readyz"
    then readyz
    else if str_eq a "metrics"
    then metrics
    else if str_eq a "latest"
    then latest
    else if str_eq a "aggregate"
    then aggregate
    else if str_eq a "fields"
    then fields
    else if str_eq a "field"
    then field
    else if str_eq a "sensors"
    then sensors
    else if str_eq a "jobs"
    then jobs
    else if str_eq a "pipelines"
    then pipelines
    else unknown

-- A path of two: `/jobs/run` comes before `/jobs/{id}`, being the more specific, and a wildcard does
-- not match the segment "/".
unfoldable pub match_two : String → String → Route
match_two a b =
    if str_eq a "sensors"
    then if str_eq b "credentials" then credentials else unknown
    else if str_eq a "jobs"
    then if str_eq b "run" then run_job else if str_eq b "/" then unknown else job b
    else unknown

-- The pattern that the segments of a path match.
unfoldable pub match_segments : List String → Route
unfolding match_one match_two
match_segments [] = unknown
match_segments (a ∷ []) = match_one a
match_segments (a ∷ b ∷ []) = match_two a b
match_segments (_ ∷ _ ∷ _ ∷ _) = unknown

-- Where a request goes. The path of a CONNECT is taken as it is.
unfoldable pub route : World → Request → Route
unfolding match_segments segments clean_path
route W r =
    if str_eq r.path "*"
    then malformed
    else if str_eq r.method "CONNECT"
    then match_segments (segments (World.path_unescape W) r.path)
    else if str_eq (clean_path r.path) r.path
    then match_segments (segments (World.path_unescape W) r.path)
    else moved (clean_path r.path)

module _ (W : World) (app : App W) (prometheus : Request → Writer → Io (State W) Writer) where
  -- The `switch` on the method under `/fields`.
  unfoldable pub fields_route : Request → Writer → Io (State W) Writer
  fields_route r w s =
      if str_eq r.method "GET"
      then fields_handler W r w s
      else if str_eq r.method "POST"
      then register_field_handler W r w s
      else (reply_method_not_allowed w, s)

  -- The `switch` on the method under `/sensors`.
  unfoldable pub sensors_route : Request → Writer → Io (State W) Writer
  sensors_route r w s =
      if str_eq r.method "GET"
      then sensors_handler W r w s
      else if str_eq r.method "POST"
      then register_sensor_handler W app r w s
      else (reply_method_not_allowed w, s)

  unfoldable pub dispatch : Route → Request → Writer → Io (State W) Writer
  dispatch healthz r w s = (health_handler w, s)
  dispatch readyz r w s = ready_handler W app r w s
  dispatch metrics r w s = prometheus r w s
  dispatch latest r w s = latest_handler W app r w s
  dispatch aggregate r w s = aggregate_handler W app r w s
  dispatch fields r w s = fields_route r w s
  dispatch field r w s = get_field_by_id_handler W r w s
  dispatch sensors r w s = sensors_route r w s
  dispatch credentials r w s = get_sensor_credentials_handler W r w s
  dispatch jobs r w s = list_jobs W app.arroyo r w s
  dispatch run_job r w s = create_pipeline W app.arroyo r w s
  dispatch pipelines r w s = list_pipelines W app.arroyo r w s
  dispatch unknown r w s = (http_error "404 page not found" 404 w, s)
  dispatch malformed r w s = (write_header 400 (set_header "Connection" "close" w), s)
  dispatch (job id) r w s = get_job W app.arroyo id r w s
  dispatch (moved path) r w s = (redirect r (World.location W path r.query) 301 w, s)

  -- The handler of the whole server.
  unfoldable pub mux : Request → Writer → Io (State W) Writer
  mux = with_cors (λ r. dispatch (route W r) r)
