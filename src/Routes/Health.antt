-- ===== src/Routes/Health.antt =====
-- `healthHandler` and `readyHandler` (handlers.go).
use nostradamus_api.Prelude.{String, ◌<>◌, none, some}
use nostradamus_api.Go.Fallible.{ok, err}
use nostradamus_api.Go.Http.{Request, Writer}
use nostradamus_api.Go.Io.{Io}
use nostradamus_api.Go.Json.{Json, str, obj, end, field}
use nostradamus_api.Utils.{reply_json, reply_unavailable}
use nostradamus_api.World.{World, State, perform}
use nostradamus_api.World.Calls.{exec, select_now}
use nostradamus_api.Cache.Interface.{Cache}
use nostradamus_api.Routes.App.{App}

abbrev pub state_body : String → Json
state_body v = obj (field "state" (str v) end)

unfoldable pub health_handler : Writer → Writer
health_handler w = reply_json 200 (state_body "healthy") w

module _ (W : World) (app : App W) where
  unfoldable pub ready_handler : Request → Writer → Io (State W) Writer
  ready_handler r w s =
      let (scylla, s₁) = perform W (exec select_now) s in
      elim scylla [
        | some _ ↦ (reply_unavailable "scylla unavailable" w, s₁)
        | none ↦
            let (pong, s₂) = Cache.ping app.cache s₁ in
            elim pong [
              | err _ ↦ (reply_unavailable (app.driver <> " unavailable") w, s₂)
              | ok _ ↦ (reply_json 200 (state_body "ready") w, s₂)
            ]
      ]
