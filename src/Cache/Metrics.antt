-- ===== src/Cache/Metrics.antt =====
-- internal/cache/metrics.go
use nostradamus_api.Prelude.{String}
use nostradamus_api.Go.Io.{Io, ◌>>◌}
use nostradamus_api.World.{World, State, perform}
use nostradamus_api.World.Calls.{count_hit, count_miss, observe_read, observe_write}

module _ (W : World) (driver : String) where
  -- `RecordHit`
  unfoldable pub record_hit : Io (State W) (Unit {0})
  unfolding perform
  record_hit = do perform W (count_hit driver); perform W (observe_read driver)

  -- `RecordMiss`
  unfoldable pub record_miss : Io (State W) (Unit {0})
  unfolding perform
  record_miss = perform W (count_miss driver)

  -- `RecordWrite`
  unfoldable pub record_write : Io (State W) (Unit {0})
  unfolding perform
  record_write = perform W (observe_write driver)
