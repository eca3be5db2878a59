-- ===== src/Routes/Aggregate/Cached.antt =====
-- The cache in front of the database.
use nostradamus_api.Prelude.{
  ℕ, ◌+◌, ◌<◌, String, ◌<>◌, ◌≡◌, refl, ap, sym, subst, some, List, arith,
}
use nostradamus_api.Prelude.Int.{ℤ}
use nostradamus_api.Go.Fallible.{Result, ok}
use nostradamus_api.Go.Float64.{Float64}
use nostradamus_api.Go.Http.{Writer}
use nostradamus_api.Go.Time.{Time, before, format_date}
use nostradamus_api.Types.{Aggregate}
use nostradamus_api.Wire.{aggregate_json, decode_aggregate}
use nostradamus_api.World.{World, State, perform, unmarshal}
use nostradamus_api.World.Calls.{now}
use nostradamus_api.Cache.Interface.{Cache}
use nostradamus_api.Cache.Remembers.{Remembers}
use nostradamus_api.Db.Readings.{get_readings}
use nostradamus_api.Routes.App.{App}
use nostradamus_api.Routes.Aggregate.Fold.{aggregate}
use nostradamus_api.Routes.Aggregate.{
  cache_key, five_minutes, cached_aggregate, reply_aggregate, compute, serve,
}

module _ (W : World) (app : App W) (cache : Remembers W app.cache) where
  -- What the clock shows next, and the state behind the look at the clock and the cache.
  abbrev pub clock : State W → Time
  clock s = (World.answer W now s.ext).0

  abbrev pub looked_up : String → String → State W → State W
  looked_up sensor_id window s =
      (Cache.fetch_aggregate app.cache (cache_key sensor_id (clock s) window) (perform W now s).1).1

  serve_held :
      (sensor_id window text : String) (type dur : ℤ) (agg : Aggregate) (w : Writer) (end : ℕ)
      (s : State W)
      → cache.Holds (cache_key sensor_id (clock s) window) text end s.ext
      → cache.clock (perform W now s).1.ext < end
      → unmarshal W (decode_aggregate W) text ≡ ok agg
      → serve W app sensor_id type window dur w s
        ≡ (reply_aggregate W agg w, looked_up sensor_id window s)
  unfolding serve perform cached_aggregate
  serve_held sensor_id window text type dur agg w end s h early d =
      let key = cache_key sensor_id (clock s) window in
      let found =
        cache.fetches key text end (perform W now s).1 (cache.keeps_now key text end s.ext h)
          early in
      ground (arith, found, d)

  abbrev pub result : String → ℤ → ℤ → Time → State W → Result (List Float64)
  result sensor_id type dur time s = (get_readings W sensor_id type (before time dur) time s).0

  -- What caching the aggregate returns, behind the reading.
  abbrev pub stored : String → String → ℤ → ℤ → Time → Aggregate → State W → Result (Unit {0})
  stored key sensor_id type dur time agg s =
      let s₁ = (get_readings W sensor_id type (before time dur) time s).1 in
      (Cache.store_aggregate app.cache key (aggregate_json W agg) five_minutes s₁).0

  -- What the clock of the cache shows before the storing.
  abbrev pub stored_at : String → ℤ → ℤ → Time → State W → ℕ
  stored_at sensor_id type dur time s =
      cache.clock (get_readings W sensor_id type (before time dur) time s).1.ext

  -- The state behind a computation.
  abbrev pub computed : String → String → ℤ → ℤ → Time → Writer → State W → State W
  computed key sensor_id type dur time w s = (compute W app key sensor_id type dur time w s).1

  compute_ok :
      (key sensor_id : String) (type dur : ℤ) (time : Time) (readings : List Float64)
      (agg : Aggregate) (w : Writer) (s : State W)
      → result sensor_id type dur time s ≡ ok readings
      → aggregate W time readings ≡ some agg
      → compute W app key sensor_id type dur time w s ≡ (
        reply_aggregate W agg w,
        (Cache.store_aggregate app.cache key
            (aggregate_json W agg)
            five_minutes
            (get_readings W sensor_id type (before time dur) time s).1).1,
      )
  unfolding compute
  compute_ok key sensor_id type dur time readings agg w s p q = rw (p, q, compute) refl

  compute-Holds :
      (key sensor_id : String) (type dur : ℤ) (time : Time) (readings : List Float64)
      (agg : Aggregate) (w : Writer) (s : State W)
      → result sensor_id type dur time s ≡ ok readings
      → aggregate W time readings ≡ some agg
      → stored key sensor_id type dur time agg s ≡ ok tt
      → ((compute W app key sensor_id type dur time w s).0 ≡ reply_aggregate W agg w)
        × cache.Holds key
            (World.json_text W (aggregate_json W agg))
            (stored_at sensor_id type dur time s + cache.kept five_minutes)
            (computed key sensor_id type dur time w s).ext
  compute-Holds key sensor_id type dur time readings agg w s p q r =
      let s₁ = (get_readings W sensor_id type (before time dur) time s).1 in
      let done = compute_ok key sensor_id type dur time readings agg w s p q in
      let text = World.json_text W (aggregate_json W agg) in
      (
        ap (λ out. out.0) done,
        subst
            (λ out.
              cache.Holds key text (stored_at sensor_id type dur time s + cache.kept five_minutes)
                out.1.ext)
            (sym done) (cache.stores key (aggregate_json W agg) five_minutes s₁ r),
      )

  -- Over a cache that keeps what it took until its expiry, and answers: once an aggregate was
  -- computed and stored, the next request for the same sensor and window, on the same date and, by
  -- the clock of the cache, within the time for which what is stored for 300 seconds is kept, is
  -- answered with the same aggregate, after a look at the clock and the cache and at nothing else,
  -- provided the stored text decodes to the aggregate.
  pub compute-then-serve :
      (sensor_id window : String) (type dur : ℤ) (time : Time) (readings : List Float64)
      (agg : Aggregate) (w w' : Writer) (s : State W)
      → result sensor_id type dur time s ≡ ok readings
      → aggregate W time readings ≡ some agg
      → stored (cache_key sensor_id time window) sensor_id type dur time agg s ≡ ok tt
      → unmarshal W (decode_aggregate W) (World.json_text W (aggregate_json W agg)) ≡ ok agg
      → format_date (clock (computed (cache_key sensor_id time window) sensor_id type dur time w s))
        ≡ format_date time
      → cache.clock
          (perform W now
            (computed (cache_key sensor_id time window) sensor_id type dur time w s)).1.ext
        < stored_at sensor_id type dur time s + cache.kept 300000000000
      → ((compute W app (cache_key sensor_id time window) sensor_id type dur time w s).0
          ≡ reply_aggregate W agg w)
        × (serve W app sensor_id type window dur w'
              (computed (cache_key sensor_id time window) sensor_id type dur time w s)
            ≡ (
              reply_aggregate W agg w',
              looked_up sensor_id window
                  (computed (cache_key sensor_id time window) sensor_id type dur time w s),
            ))
  unfolding cache_key
  compute-then-serve sensor_id window type dur time readings agg w w' s p q r d e early =
      let key = cache_key sensor_id time window in
      let (replied, holds) = compute-Holds key sensor_id type dur time readings agg w s p q r in
      let s₂ = computed key sensor_id type dur time w s in
      let text = World.json_text W (aggregate_json W agg) in
      (
        replied,
        serve_held sensor_id window text type dur agg w'
            (stored_at sensor_id type dur time s + cache.kept five_minutes) s₂
            (subst
              (λ date.
                cache.Holds ("agg:" <> sensor_id <> ":" <> date <> ":" <> window) text
                  (stored_at sensor_id type dur time s + cache.kept five_minutes) s₂.ext)
              (sym e) holds)
            early d,
      )
