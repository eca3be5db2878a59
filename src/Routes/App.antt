-- ===== src/Routes/App.antt =====
-- internal/routes/app.go. The database sessions are reached through the world.
use nostradamus_api.Prelude.{String}
use nostradamus_api.Go.Io.{Io}
use nostradamus_api.World.{World, State, perform}
use nostradamus_api.World.Calls.{exec, select_now}
use nostradamus_api.Cache.Interface.{Cache}
use nostradamus_api.Arroyo.Client.{ArroyoClient}
use nostradamus_api.Emqx.{EmqxClient}

pub record App (W : World) : Type 0 where
  pub cache : Cache W
  pub arroyo : ArroyoClient
  pub emqx : EmqxClient
  -- `config.driver`
  pub driver : String

module _ (W : World) where
  -- `WarmUp`: both errors are dropped.
  unfoldable pub warm_up : App W → Io (State W) (Unit {0})
  unfolding perform
  warm_up app s = (tt, (Cache.ping app.cache (perform W (exec select_now) s).1).1)
