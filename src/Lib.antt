-- ===== src/Lib.antt =====
-- A model of the Nostradamus API, the backend of a sensor network, and what is proved of it.
--
-- The program is one HTTP server (cmd/api, internal/routes) over a Scylla database (internal/db) and
-- a cache (internal/cache, Valkey or memcached). Beside the server run a supervisor that restarts
-- failed pipelines of the stream engine Arroyo (internal/worker over internal/arroyo) and a watcher
-- that gives each new Kafka topic a flow in Arroyo (internal/kafka). New sensors become MQTT users
-- of EMQX (internal/emqx).
--
-- How the files follow the code:
--   Types, Wire         pkg/types: the records, and their JSON by the struct tags
--   Utils               pkg/utils: the replies and the CORS wrapper
--   Errors              the error types and sentinels, `errors.Is` and `errors.As`
--   Db.Fields, Db.Sensors, Db.Readings
--                       internal/db: one function for each method
--   Cache               internal/cache: the interface, its metrics and the two drivers
--   Arroyo              internal/arroyo: the client, the restart, the tables, pipelines and jobs
--   Worker              internal/worker/supervisor.go
--   Kafka               internal/kafka: the flow of a topic, the watcher's rounds and its run
--   Emqx                internal/emqx
--   Routes              internal/routes: the application, its handlers, and the routes
--   Main                cmd/api/main.go, from the environment to the end of the server, with the
--                       tracer of internal/tracing and (*DB).Close of internal/db/db.go
--   System              the three of them at work: the requests, the watcher and the supervisor take
--                       turns on one state
--   Go                  the parts of Go's standard library that the code uses, with what
--                       `http.ServeMux` does with a path (Go.ServeMux)
--   World               what stands outside the program
--   Prelude             shared names and lemmas; Examples has the theorems on a small world
--
-- A function that talks to a service passes on a state: the state of the services, which is
-- unknown, and the log of the calls, newest first. World is a parameter of all of it: how the
-- services answer a call, and the functions of packages that are not part of the repository
-- (`uuid.Parse`, `time.ParseDuration`, `url.Parse`, `url.PathUnescape`, the text of JSON, the
-- arithmetic of floats). What a theorem needs of them is among its hypotheses. A function that
-- returns `(value, error)` is a Result in that state, and `if err != nil { return … }` is its bind.
-- Handlers take the request and the response writer and return the writer, which keeps the first
-- status and what was written.
--
-- Numbers: times are nanoseconds since year 1 in UTC, as natural numbers; a shift before year 1 stops
-- there. `int` values are integers; `strconv.Atoi`, the JSON decoders and the product that makes
-- nanoseconds keep the 64-bit range. Floats are their 64 bits, with Go's order and NaN written out.
-- The loop over the daily buckets runs on fuel, one round for each day and one for the last test,
-- which is as many as the loop makes. The loops of the supervisor and the watcher take the
-- list of what `select` receives.
--
-- What runs at the same time: in System the requests, the watcher and the supervisor take turns in
-- any order, and no request overlaps another. A turn is one whole request, one topic of a round of
-- the watcher, one pipeline of a pass of the supervisor, or the start or the end of a round or a
-- pass; within a turn the model has no other steps, except in Db.Fields.Race, where one
-- registration runs inside another. A database is described where a theorem needs it:
-- Db.Fields.Store and Db.Sensors.Store have the tables as sets of rows, in no order (Db.Rows), with
-- what a statement does to them. Examples.Shelf and Examples.Vault are such databases, and
-- Examples.Sets is a cache with sorted sets.
--
-- Not modelled: logging, spans and latency histograms; internal/metrics, which only declares
-- collectors; what the drivers do to open a connection, which is a call of the world; timeouts,
-- which are among the errors that a call is answered with; requests that overlap, but for
-- Db.Fields.Race, though the server runs them at the same time; HTTP other than 1.1; the schema
-- migrations, but for the keys that the sets of rows have.
pub mod Prelude
pub mod Errors
pub mod Go
pub mod World
pub mod Types
pub mod Utils
pub mod Arroyo
pub mod Worker
pub mod Kafka
pub mod Db
pub mod Wire
pub mod Cache
pub mod Emqx
pub mod Routes
pub mod System
pub mod Main
pub mod Examples
