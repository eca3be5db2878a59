-- ===== src/Cache/Memcached.antt =====
-- internal/cache/memcached.go
use nostradamus_api.Prelude.{ℕ, ◌/◌, ◌%◌, String, Option, none, List}
use nostradamus_api.Prelude.Int.{ℤ, pos}
use nostradamus_api.Errors.{text, wrap, memcache_miss}
use nostradamus_api.Go.Fallible.{
  Result, ok, err, Fallible, pure, lift, run, check, wrapping, ◌>>=◌, ◌>>◌,
}
use nostradamus_api.Go.Float64.{Float64}
use nostradamus_api.Go.Json.{Json, marshal}
use nostradamus_api.Types.{Entry}
use nostradamus_api.World.{World, State, perform}
use nostradamus_api.World.Calls.{memcache_set, memcache_get, memcache_ping}
use nostradamus_api.Cache.Metrics.{record_hit, record_miss, record_write}

module _ (W : World) where
  -- `ttl.Seconds()`: the whole seconds and the rest, as floats, in one rounded sum.
  unfoldable pub seconds : ℕ → Float64
  seconds ttl =
      let whole = World.of_int W (pos (ttl / 1000000000)) in
      let rest = World.of_int W (pos (ttl % 1000000000)) in
      World.add W whole (World.divide W rest (World.of_int W (pos 1000000000)))

  -- `int32(ttl.Seconds())`
  unfoldable pub expiration : ℕ → ℤ
  unfolding seconds
  expiration ttl = World.to_int32 W (seconds ttl)

  -- `(*Memcached).store`
  unfoldable pub set : String → String → ℕ → Fallible (State W) (Unit {0})
  unfolding perform expiration
  set key val ttl = check (perform W (memcache_set key val (expiration ttl)))

  -- `(*Memcached).Store` and `FetchLast` do nothing.
  unfoldable pub store : String → Entry → Fallible (State W) (Unit {0})
  store prefix entry = pure tt

  unfoldable pub fetch_last : String → ℤ → Fallible (State W) (Option (List Entry))
  fetch_last prefix n = pure none

  -- `(*Memcached).StoreAggregate`
  unfoldable pub store_aggregate : String → Json → ℕ → Fallible (State W) (Unit {0})
  unfolding set marshal record_write
  store_aggregate key value ttl = do
    doc ← wrapping "failed to marshal aggregate: " (lift (marshal value))
    wrapping "failed to store aggregate: " (set key (World.json_text W doc) ttl)
    run (record_write W "memcached")

  -- `(*Memcached).FetchAggregate`, behind the answer.
  unfoldable pub fetched : Result String → Fallible (State W) String
  unfolding record_hit record_miss
  fetched (ok val) s = (ok val, (record_hit W "memcached" s).1)
  fetched (err memcache_miss) s = (err (text "cache miss"), (record_miss W "memcached" s).1)
  fetched (err e) s = (err (wrap "cache fetch: " e), s)

  unfoldable pub fetch_aggregate : String → Fallible (State W) String
  unfolding perform fetched
  fetch_aggregate key s = let (r, s') = perform W (memcache_get key) s in fetched r s'

  unfoldable pub ping : Fallible (State W) (Unit {0})
  unfolding perform
  ping = check (perform W memcache_ping)
