-- ===== src/Cache/Remembers.antt =====
-- What the client of a cache relies on, as an interface, and the server behind the Valkey driver.
use nostradamus_api.Prelude.{
  ℕ, ◌+◌, ◌*◌, ◌/◌, ◌<◌, String, ◌≡◌, refl, inl, inr, none, arith, Bool-cases, Option-cases,
}
use nostradamus_api.Go.Fallible.{ok}
use nostradamus_api.Go.Json.{Json, marshal, encodable}
use nostradamus_api.World.{World, State}
use nostradamus_api.World.Calls.{now, redis_set, redis_get, observe_write}
use nostradamus_api.Cache.Interface.{Cache}
use nostradamus_api.Cache.Drivers.{valkey}
use nostradamus_api.Cache.Valkey

-- While a text is held under a key, up to some time of the clock of the server, in nanoseconds, a
-- fetch of the key before that time returns it. What is stored for `ttl` is held for `kept ttl` at
-- least. Reading the clock of the program takes time, but drops nothing.
pub record Remembers (W : World) (cache : Cache W) : Type 1 where
  pub clock : World.Ext W → ℕ
  pub kept : ℕ → ℕ
  pub Holds : String → String → ℕ → World.Ext W → Type 0
  pub stores :
      (key : String) (v : Json) (ttl : ℕ) (s : State W)
      → (Cache.store_aggregate cache key v ttl s).0 ≡ ok tt
      → Holds key
          (World.json_text W v)
          (clock s.ext + kept ttl)
          (Cache.store_aggregate cache key v ttl s).1.ext
  pub fetches :
      (key text : String) (end : ℕ) (s : State W)
      → Holds key text end s.ext
      → clock s.ext < end
      → (Cache.fetch_aggregate cache key s).0 ≡ ok text
  pub keeps_now :
      (key text : String) (end : ℕ) (x : World.Ext W)
      → Holds key text end x
      → Holds key text end (World.answer W now x).1

-- `SET` with an expiry is sent in seconds or in milliseconds.
unfoldable pub in_milliseconds : ℕ → ℕ
in_milliseconds ttl = ttl / 1000000 * 1000000

-- A server of `SET` and `GET` that keeps a text it took until its expiry: it evicts none before, a
-- measurement and a look at the clock drop none, and it answers a `GET` of what it holds. It takes a
-- text not before the call.
pub record KeepsRedis (W : World) : Type 1 where
  pub clock : World.Ext W → ℕ
  pub Holds : String → String → ℕ → World.Ext W → Type 0
  pub set :
      (key text : String) (ttl : ℕ) (x : World.Ext W)
      → (World.answer W (redis_set key text ttl) x).0 ≡ none
      → Holds key text (clock x + in_milliseconds ttl) (World.answer W (redis_set key text ttl) x).1
  pub get :
      (key text : String) (end : ℕ) (x : World.Ext W)
      → Holds key text end x
      → clock x < end
      → (World.answer W (redis_get key) x).0 ≡ ok text
  pub keeps_observe :
      (key text driver : String) (end : ℕ) (x : World.Ext W)
      → Holds key text end x
      → Holds key text end (World.answer W (observe_write driver) x).1
  pub keeps_now :
      (key text : String) (end : ℕ) (x : World.Ext W)
      → Holds key text end x
      → Holds key text end (World.answer W now x).1

module _ (W : World) (laws : KeepsRedis W) where
  pub valkey_stores :
      (key : String) (v : Json) (ttl : ℕ) (s : State W)
      → (Cache.store_aggregate (valkey W) key v ttl s).0 ≡ ok tt
      → laws.Holds key
          (World.json_text W v)
          (laws.clock s.ext + in_milliseconds ttl)
          (Cache.store_aggregate (valkey W) key v ttl s).1.ext
  unfolding Valkey.store_aggregate marshal
  valkey_stores key v ttl s h =
      let call = redis_set key (World.json_text W v) ttl in
      elim (Bool-cases (encodable v)) [
        | inr q ↦ absurd (ground (arith, q))
        | inl q ↦ elim (Option-cases (World.answer W call s.ext).0) [
          | inr (e, q') ↦ absurd (ground (arith, q, q'))
          | inl q' ↦
              rw (q, q')
                (laws.keeps_observe key (World.json_text W v) "valkey" _ _
                  (laws.set key (World.json_text W v) ttl s.ext q'))
        ]
      ]

  pub valkey_fetches :
      (key text : String) (end : ℕ) (s : State W)
      → laws.Holds key text end s.ext
      → laws.clock s.ext < end
      → (Cache.fetch_aggregate (valkey W) key s).0 ≡ ok text
  unfolding Valkey.fetch_aggregate Valkey.fetched
  valkey_fetches key text end s h early = rw (laws.get key text end s.ext h early) refl

  -- The Valkey driver returns what was stored, for as many whole milliseconds as it was told.
  unfoldable pub valkey-Remembers : Remembers W (valkey W)
  valkey-Remembers = record {
    clock = laws.clock;
    kept = in_milliseconds;
    Holds = laws.Holds;
    stores = valkey_stores;
    fetches = valkey_fetches;
    keeps_now = laws.keeps_now;
  }

-- What Valkey was told to store is what a fetch of the key returns whose clock, behind the storing,
-- shows less than the time to live in whole milliseconds more than before it, over a server that
-- keeps what it took until its expiry, and answers.
pub valkey_fetch-store :
    (W : World) (laws : KeepsRedis W) (key : String) (v : Json) (ttl : ℕ) (s : State W)
    → (Cache.store_aggregate (valkey W) key v ttl s).0 ≡ ok tt
    → laws.clock (Cache.store_aggregate (valkey W) key v ttl s).1.ext
      < laws.clock s.ext + in_milliseconds ttl
    → (Cache.fetch_aggregate (valkey W) key (Cache.store_aggregate (valkey W) key v ttl s).1).0
      ≡ ok (World.json_text W v)
valkey_fetch-store W laws key v ttl s h early =
    valkey_fetches W laws key (World.json_text W v) _ _ (valkey_stores W laws key v ttl s h) early
