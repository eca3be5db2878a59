-- ===== src/Cache/Interface.antt =====
-- The interface of a cache (internal/cache/interface.go). `Close` only closes connections.
use nostradamus_api.Prelude.{ℕ, String, Option, List}
use nostradamus_api.Prelude.Int.{ℤ}
use nostradamus_api.Go.Fallible.{Fallible}
use nostradamus_api.Go.Json.{Json}
use nostradamus_api.Types.{Entry}
use nostradamus_api.World.{World, State}

-- `Cache`. What is cached as an aggregate is given as its JSON.
pub record Cache (W : World) : Type 0 where
  pub store : String → Entry → Fallible (State W) (Unit {0})
  pub fetch_last : String → ℤ → Fallible (State W) (Option (List Entry))
  pub store_aggregate : String → Json → ℕ → Fallible (State W) (Unit {0})
  pub fetch_aggregate : String → Fallible (State W) String
  pub ping : Fallible (State W) (Unit {0})
