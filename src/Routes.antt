-- ===== src/Routes.antt =====
-- internal/routes: the application (app.go), its handlers (handlers.go) and the routes (mux.go). A
-- handler takes the request and the response writer and returns the writer. Logging, spans and the
-- latency histogram are left out.
pub mod App
pub mod Health
pub mod Latest
pub mod Aggregate
pub mod Fields
pub mod Sensors
pub mod Answered
pub mod Quiet
pub mod Mux
