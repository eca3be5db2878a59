-- ===== src/Examples/Readings.antt =====
-- The readings, their aggregate and the cache.
use mathlib.Core.List.{Memᴰ}
use mathlib.Core.List.Memᴰ.{head, tail}
use nostradamus_api.Prelude.{
  ℕ, suc, ◌-◌, String, ◌≡◌, refl, ◌⊎◌, none, some, List, [], ◌∷◌, arith, lookup, eq_iff,
}
use nostradamus_api.Prelude.Int.{pos}
use nostradamus_api.Errors.{redis_nil, memcache_miss}
use nostradamus_api.Go.Fallible.{ok, err}
use nostradamus_api.Go.Float64.{Float64, is_nan, less, order_key, is_finite}
use nostradamus_api.Go.Http.{new_writer}
use nostradamus_api.Go.Json.{str}
use nostradamus_api.Go.Time.{day, midnight, before}
use nostradamus_api.Types.{Aggregate}
use nostradamus_api.Wire.{aggregate_json, decode_aggregate}
use nostradamus_api.World.{State}
use nostradamus_api.Cache.Valkey
use nostradamus_api.Cache.Interface.{Cache}
use nostradamus_api.Cache.Drivers.{valkey, memcached}
use nostradamus_api.Cache.Laws.{Counted, fetch_aggregate-Counted}
use nostradamus_api.Cache.Remembers.{
  KeepsRedis, in_milliseconds, valkey-Remembers, valkey_fetch-store,
}
use nostradamus_api.Db.Readings.{table_of, read_buckets, read_bucket, get_readings}
use nostradamus_api.Db.Readings.Laws.{Serves, read_buckets_fuel, get_readings-ok, mem-get_readings}
use nostradamus_api.Routes.Aggregate.{cache_key, reply_aggregate, compute, serve}
use nostradamus_api.Routes.Aggregate.Cached.{compute-then-serve, looked_up}
use nostradamus_api.Routes.Aggregate.Fold.{aggregate, accumulate, accumulate_all}
use nostradamus_api.Routes.Aggregate.Fold.Laws.{Summarises, aggregate-Summarises}
use nostradamus_api.Examples.Desk.{desk, start, app, noon, float, readings_of}

desk-Serves : Serves desk readings_of
desk-Serves = record { answers = λ table bucket sid from to x. refl }

abbrev dawn : ℕ
dawn = noon - 3600000000000

get_readings-ok_example :
    (get_readings desk "sensor" (pos 0) dawn noon start).0 ≡ ok (float 5 ∷ float 9 ∷ [])
unfolding midnight table_of
get_readings-ok_example =
    get_readings-ok desk readings_of desk-Serves "sensor" "temperatures" 7 (pos 0) dawn noon start
      refl refl (omega arith)

mem-get_readings_example :
    (vs : List Float64) × ((get_readings desk "sensor" (pos 0) dawn noon start).0 ≡ ok vs)
    × Memᴰ (float 9) vs
unfolding table_of
mem-get_readings_example =
    mem-get_readings desk readings_of desk-Serves "sensor" "temperatures" 7 (pos 0) dawn noon noon
      (float 9) start refl refl (tail (head refl)) (omega arith) (omega arith)

read_buckets_fuel_example :
    read_buckets desk (suc 3) "temperatures" 7 0 day 0 day [] start
    ≡ read_buckets desk 3 "temperatures" 7 0 day 0 day [] start
read_buckets_fuel_example =
    read_buckets_fuel desk 3 "temperatures" 7 0 day 0 day [] start (omega arith)

aggregate-Summarises_example :
    ((float 5 ∷ float 9 ∷ [] ≡ []) × (aggregate desk noon (float 5 ∷ float 9 ∷ []) ≡ none))
    ⊎ ((agg : Aggregate) × (aggregate desk noon (float 5 ∷ float 9 ∷ []) ≡ some agg)
        × Summarises desk noon (float 5 ∷ float 9 ∷ []) agg)
unfolding is_nan
aggregate-Summarises_example =
    aggregate-Summarises desk noon (float 5 ∷ float 9 ∷ []) (refl, (refl, tt))

-- The server of the desk keeps a text under the key it was last stored under, and its clock stands
-- still.
desk-KeepsRedis : KeepsRedis desk
desk-KeepsRedis = record {
  clock = λ kept. 0;
  Holds = λ key text end kept. lookup key kept ≡ some text;
  set = λ key text ttl kept fine. ground (arith, eq_iff key key);
  get = λ key text end kept held early. rw held refl;
  keeps_observe = λ key text driver end kept held. held;
  keeps_now = λ key text end kept held. held;
}

valkey_fetch-store_example :
    (Cache.fetch_aggregate
      (valkey desk)
      "k"
      (Cache.store_aggregate (valkey desk) "k" (str "v") 60000000 start).1).0
    ≡ ok "stored"
unfolding Valkey.store_aggregate in_milliseconds desk-KeepsRedis
valkey_fetch-store_example =
    valkey_fetch-store desk desk-KeepsRedis "k" (str "v") 60000000 start refl (omega arith)

fetch_aggregate-Counted_example :
    Counted desk "valkey" redis_nil []
      (Cache.fetch_aggregate (valkey desk) "k" start).1.log
      (err redis_nil)
      (Cache.fetch_aggregate (valkey desk) "k" start).0
    × Counted desk "memcached" memcache_miss []
        (Cache.fetch_aggregate (memcached desk) "k" start).1.log
        (err memcache_miss)
        (Cache.fetch_aggregate (memcached desk) "k" start).0
fetch_aggregate-Counted_example = fetch_aggregate-Counted desk "k" start

abbrev found : Aggregate
found = record { avg = float 14; min = float 5; max = float 9; count = pos 2; timestamp = noon }

abbrev the_key : String
the_key = cache_key "sensor" noon "1h"

abbrev later : State desk
later = (compute desk app the_key "sensor" (pos 0) (pos 3600000000000) noon new_writer start).1

compute-then-serve_example :
    ((compute desk app the_key "sensor" (pos 0) (pos 3600000000000) noon new_writer start).0
      ≡ reply_aggregate desk found new_writer)
    × (serve desk app "sensor" (pos 0) "1h" (pos 3600000000000) new_writer later ≡ (
      reply_aggregate desk found new_writer,
      looked_up desk app (valkey-Remembers desk desk-KeepsRedis) "sensor" "1h" later,
    ))
unfolding aggregate get_readings Valkey.store_aggregate compute read_buckets before read_bucket
    accumulate_all accumulate less is_nan order_key aggregate_json is_finite decode_aggregate
    in_milliseconds desk-KeepsRedis valkey-Remembers
compute-then-serve_example =
    compute-then-serve desk app (valkey-Remembers desk desk-KeepsRedis) "sensor" "1h" (pos 0)
      (pos 3600000000000) noon (float 5 ∷ float 9 ∷ []) found new_writer new_writer start refl refl
      refl refl refl (omega arith)
