-- ===== src/Cache/Laws.antt =====
-- What the two drivers promise behind the interface.
use nostradamus_api.Prelude.{
  ℕ, suc, String, ◌≡◌, ◌≢◌, refl, ap, arith, Bool, true, false, List, [], ◌∷◌, str_eq,
  if◌then◌else◌,
}
use nostradamus_api.Errors.{Error, text, wrap, redis_nil, memcache_miss}
use nostradamus_api.Go.Fallible.{Result, ok, err}
use nostradamus_api.World.{World, State, perform}
use nostradamus_api.World.Calls.{Call, Event, event, count_hit, count_miss, redis_get, memcache_get}
use nostradamus_api.Cache.Interface.{Cache}
use nostradamus_api.Cache.Drivers.{valkey, memcached}
use nostradamus_api.Cache.Valkey
use nostradamus_api.Cache.Memcached

abbrev is_hit : String → Call → Bool
is_hit driver (count_hit d) = str_eq d driver
is_hit driver _ = false

abbrev is_miss : String → Call → Bool
is_miss driver (count_miss d) = str_eq d driver
is_miss driver _ = false

-- The value of the counter of hits, and of misses, of a driver.
abbrev pub hits : String → List Event → ℕ
hits driver [] = 0
hits driver (event c _ ∷ log) = let n = hits driver log in if is_hit driver c then suc n else n

abbrev pub misses : String → List Event → ℕ
misses driver [] = 0
misses driver (event c _ ∷ log) = let n = misses driver log in if is_miss driver c then suc n else n

is_redis_nil : Error → Bool
is_redis_nil redis_nil = true
is_redis_nil _ = false

is_memcache_miss : Error → Bool
is_memcache_miss memcache_miss = true
is_memcache_miss _ = false

module _ (W : World) where
  -- What a fetch counts and returns, by what the server answered; `nothing` is its answer that there
  -- is no such key.
  pub data Counted (driver : String) (nothing : Error) (before after : List Event)
      (answer : Result String) : Result String → Type 0 where
    hit :
        (v : String)
        → answer ≡ ok v
        → hits driver after ≡ suc (hits driver before)
        → misses driver after ≡ misses driver before
        → Counted driver nothing before after answer (ok v)
    miss :
        answer ≡ err nothing
        → hits driver after ≡ hits driver before
        → misses driver after ≡ suc (misses driver before)
        → Counted driver nothing before after answer (err (text "cache miss"))
    broken :
        (e : Error)
        → answer ≡ err e
        → e ≢ nothing
        → hits driver after ≡ hits driver before
        → misses driver after ≡ misses driver before
        → Counted driver nothing before after answer (err (wrap "cache fetch: " e))

  valkey_fetched-Counted :
      (key : String) (r : Result String) (x : World.Ext W) (before : List Event)
      → let s : State W = record { ext = x; log = event (redis_get key) r ∷ before } in
        Counted "valkey" redis_nil before (Valkey.fetched W r s).1.log r (Valkey.fetched W r s).0
  unfolding Valkey.fetched is_redis_nil
  valkey_fetched-Counted key (ok val) x before = hit val refl refl refl
  valkey_fetched-Counted key (err redis_nil) x before = miss refl refl refl
  valkey_fetched-Counted key (err e) x before =
      broken e refl (λ q. ground (arith, ap is_redis_nil q)) refl refl

  memcached_fetched-Counted :
      (key : String) (r : Result String) (x : World.Ext W) (before : List Event)
      → let s : State W = record { ext = x; log = event (memcache_get key) r ∷ before } in
        Counted "memcached" memcache_miss before
          (Memcached.fetched W r s).1.log
          r
          (Memcached.fetched W r s).0
  unfolding Memcached.fetched is_memcache_miss
  memcached_fetched-Counted key (ok val) x before = hit val refl refl refl
  memcached_fetched-Counted key (err memcache_miss) x before = miss refl refl refl
  memcached_fetched-Counted key (err e) x before =
      broken e refl (λ q. ground (arith, ap is_memcache_miss q)) refl refl

  -- Both drivers count every fetch of an aggregate by the answer of the server: as one hit for a
  -- value, which is returned; as one miss for the answer that there is none; and as neither for any
  -- other error, which is passed on.
  pub fetch_aggregate-Counted :
      (key : String) (s : State W)
      → Counted "valkey" redis_nil s.log
          (Cache.fetch_aggregate (valkey W) key s).1.log
          (World.answer W (redis_get key) s.ext).0
          (Cache.fetch_aggregate (valkey W) key s).0
        × Counted "memcached" memcache_miss s.log
            (Cache.fetch_aggregate (memcached W) key s).1.log
            (World.answer W (memcache_get key) s.ext).0
            (Cache.fetch_aggregate (memcached W) key s).0
  unfolding Valkey.fetch_aggregate Memcached.fetch_aggregate
  fetch_aggregate-Counted key s = (
    (let (r, s') = perform W (redis_get key) s in valkey_fetched-Counted key r s'.ext s.log),
    (let (r, s') = perform W (memcache_get key) s in memcached_fetched-Counted key r s'.ext s.log),
  )
