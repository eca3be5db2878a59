-- ===== src/Routes/Quiet/Caches.antt =====
-- Caches that do not touch the database (internal/cache).
use nostradamus_api.Prelude.{ℕ, suc, String, refl}
use nostradamus_api.Prelude.Int.{ℤ, pos, pos_part, neg_part, sub_ℕ}
use nostradamus_api.Go.Fallible.{Result, ok, err, wrap_result, result_of_error}
use nostradamus_api.Go.Json.{Json, marshal}
use nostradamus_api.Errors.{redis_nil, memcache_miss}
use nostradamus_api.Types.{Entry}
use nostradamus_api.World.{World, State, perform}
use nostradamus_api.World.Calls.{
  z_add, expire, z_rev_range, redis_set, redis_get, redis_ping, memcache_set, memcache_get,
  memcache_ping, observe_read, observe_write, count_hit, count_miss,
}
use nostradamus_api.World.Only.{still, once, behind, reply_to, and_then}
use nostradamus_api.Cache.Metrics.{record_hit, record_miss, record_write}
use nostradamus_api.Go.Time.{unix_milli}
use nostradamus_api.Cache.Interface.{Cache}
use nostradamus_api.Cache.Drivers.{valkey, memcached}
use nostradamus_api.Cache.Valkey
use nostradamus_api.Cache.Memcached
use nostradamus_api.Routes.Quiet.Reads.{Quiet}

pub record IsQuiet (W : World) (cache : Cache W) : Type 0 where
  pub store : (prefix : String) (e : Entry) (s : State W) → Quiet W s (Cache.store cache prefix e s)
  pub fetch_last :
      (prefix : String) (n : ℤ) (s : State W) → Quiet W s (Cache.fetch_last cache prefix n s)
  pub store_aggregate :
      (key : String) (v : Json) (ttl : ℕ) (s : State W)
      → Quiet W s (Cache.store_aggregate cache key v ttl s)
  pub fetch_aggregate : (key : String) (s : State W) → Quiet W s (Cache.fetch_aggregate cache key s)
  pub ping : (s : State W) → Quiet W s (Cache.ping cache s)

module _ (W : World) where
  record_hit-Quiet : (driver : String) (s : State W) → Quiet W s (record_hit W driver s)
  unfolding record_hit
  record_hit-Quiet driver s =
      let call = count_hit driver in
      behind W (once W call s refl) (once W (observe_read driver) (perform W call s).1 refl)

  record_miss-Quiet : (driver : String) (s : State W) → Quiet W s (record_miss W driver s)
  unfolding record_miss
  record_miss-Quiet driver s = once W (count_miss driver) s refl

  valkey_store :
      (prefix : String) (e : Entry) (s : State W) → Quiet W s (Cache.store (valkey W) prefix e s)
  unfolding Valkey.store
  valkey_store prefix e s =
      let call = z_add prefix (World.of_int W (unix_milli e.timestamp)) e.value in
      let (r, s') = perform W call s in
      and_then W (result_of_error r) _ (once W call s refl)
        (λ _. reply_to W _ (once W (expire prefix Valkey.hour) s' refl))

  valkey_fetch_last :
      (prefix : String) (n : ℤ) (s : State W) → Quiet W s (Cache.fetch_last (valkey W) prefix n s)
  unfolding Valkey.fetch_last
  valkey_fetch_last prefix n s =
      let call = z_rev_range prefix (pos 0) (sub_ℕ (pos_part n) (suc (neg_part n))) in
      let (r, s') = perform W call s in
      and_then W r _ (once W call s refl)
        (λ found. and_then W (Valkey.read_all W found) _ (still W {a = tt} s') (λ es. still W s'))

  valkey_store_aggregate :
      (key : String) (v : Json) (ttl : ℕ) (s : State W)
      → Quiet W s (Cache.store_aggregate (valkey W) key v ttl s)
  unfolding Valkey.store_aggregate record_write
  valkey_store_aggregate key v ttl s =
      let marshalled = wrap_result "failed to marshal aggregate: " (marshal v) in
      and_then W marshalled _ (still W {a = tt} s) (λ doc.
        let call = redis_set key (World.json_text W doc) ttl in
        let (r, s') = perform W call s in
        let sent = wrap_result "failed to store aggregate: " (result_of_error r) in
        and_then W sent _ (once W call s refl)
          (λ _. reply_to W _ (once W (observe_write "valkey") s' refl)))

  valkey_fetched : (r : Result String) (s : State W) → Quiet W s (Valkey.fetched W r s)
  unfolding Valkey.fetched
  valkey_fetched (ok v) s = reply_to W _ (record_hit-Quiet "valkey" s)
  valkey_fetched (err redis_nil) s = reply_to W _ (record_miss-Quiet "valkey" s)
  valkey_fetched (err _) s = still W s

  valkey_fetch_aggregate :
      (key : String) (s : State W) → Quiet W s (Cache.fetch_aggregate (valkey W) key s)
  unfolding Valkey.fetch_aggregate
  valkey_fetch_aggregate key s =
      let call = redis_get key in
      let (r, s') = perform W call s in behind W (once W call s refl) (valkey_fetched r s')

  valkey_ping : (s : State W) → Quiet W s (Cache.ping (valkey W) s)
  unfolding Valkey.ping
  valkey_ping s = reply_to W _ (once W redis_ping s refl)

  memcached_store_aggregate :
      (key : String) (v : Json) (ttl : ℕ) (s : State W)
      → Quiet W s (Cache.store_aggregate (memcached W) key v ttl s)
  unfolding Memcached.store_aggregate Memcached.set record_write
  memcached_store_aggregate key v ttl s =
      let marshalled = wrap_result "failed to marshal aggregate: " (marshal v) in
      and_then W marshalled _ (still W {a = tt} s) (λ doc.
        let call = memcache_set key (World.json_text W doc) (Memcached.expiration W ttl) in
        let (r, s') = perform W call s in
        let sent = wrap_result "failed to store aggregate: " (result_of_error r) in
        and_then W sent _ (once W call s refl)
          (λ _. reply_to W _ (once W (observe_write "memcached") s' refl)))

  memcached_fetched : (r : Result String) (s : State W) → Quiet W s (Memcached.fetched W r s)
  unfolding Memcached.fetched
  memcached_fetched (ok v) s = reply_to W _ (record_hit-Quiet "memcached" s)
  memcached_fetched (err memcache_miss) s = reply_to W _ (record_miss-Quiet "memcached" s)
  memcached_fetched (err _) s = still W s

  memcached_fetch_aggregate :
      (key : String) (s : State W) → Quiet W s (Cache.fetch_aggregate (memcached W) key s)
  unfolding Memcached.fetch_aggregate
  memcached_fetch_aggregate key s =
      let call = memcache_get key in
      let (r, s') = perform W call s in behind W (once W call s refl) (memcached_fetched r s')

  memcached_ping : (s : State W) → Quiet W s (Cache.ping (memcached W) s)
  unfolding Memcached.ping
  memcached_ping s = reply_to W _ (once W memcache_ping s refl)

  pub valkey-IsQuiet : IsQuiet W (valkey W)
  valkey-IsQuiet = record {
    store = valkey_store;
    fetch_last = valkey_fetch_last;
    store_aggregate = valkey_store_aggregate;
    fetch_aggregate = valkey_fetch_aggregate;
    ping = valkey_ping;
  }

  pub memcached-IsQuiet : IsQuiet W (memcached W)
  unfolding Memcached.store Memcached.fetch_last
  memcached-IsQuiet = record {
    store = λ prefix e s. still W s;
    fetch_last = λ prefix n s. still W s;
    store_aggregate = memcached_store_aggregate;
    fetch_aggregate = memcached_fetch_aggregate;
    ping = memcached_ping;
  }
