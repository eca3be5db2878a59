-- ===== src/Routes/Aggregate/Laws.antt =====
-- What `/aggregate` answers.
use nostradamus_api.Prelude.{
  zero, suc, String, ◌≡◌, ◌≢◌, refl, ◌⊎◌, inl, inr, false, Option, none, some, [], ◌∷◌, ◌++◌, arith,
  eq_iff, str_eq, Bool-cases, Option-cases,
}
use nostradamus_api.Prelude.Int.{ℤ, pos, negsuc}
use nostradamus_api.Errors.{Error}
use nostradamus_api.Go.Fallible.{ok, err, Result-cases}
use nostradamus_api.Go.Float64.{is_finite}
use nostradamus_api.Go.Strconv.{atoi}
use nostradamus_api.Go.Http.{Request, Writer, query_get}
use nostradamus_api.Types.{Aggregate}
use nostradamus_api.Utils.{reply_bad_request, reply_json}
use nostradamus_api.Utils.Laws.{IsFresh}
use nostradamus_api.World.{World, State, perform}
use nostradamus_api.World.Calls.{now}
use nostradamus_api.Cache.Interface.{Cache}
use nostradamus_api.Db.Readings.{table_of}
use nostradamus_api.Routes.App.{App}
use nostradamus_api.Wire.{aggregate_json}
use nostradamus_api.Routes.Aggregate.{
  cache_key, valid_type, reply_aggregate, cached_aggregate, serve, aggregate_handler,
}

-- A type that passes the check of the handler has a table, so the database cannot refuse it.
pub table_of-valid_type :
    (s : String) (n : ℤ) → valid_type s ≡ some n → (table : String) × (table_of n ≡ ok table)
unfolding valid_type table_of
table_of-valid_type s (pos zero) h = ("temperatures", refl)
table_of-valid_type s (pos (suc zero)) h = ("humidities", refl)
table_of-valid_type s (pos (suc (suc zero))) h = ("ph_levels", refl)
table_of-valid_type s (pos (suc (suc (suc n)))) h = absurd (ground arith)
table_of-valid_type s (negsuc n) h = absurd (ground arith)

-- The types of sensors: temperature, humidity, acidity.
abbrev pub IsType : ℤ → Type 0
IsType n = (n ≡ pos 0) ⊎ (n ≡ pos 1) ⊎ (n ≡ pos 2)

valid_type-some : (s : String) (n : ℤ) → valid_type s ≡ some n → (atoi s ≡ ok n) × IsType n
unfolding valid_type
valid_type-some s (pos zero) h = (ground (arith, h), inl refl)
valid_type-some s (pos (suc zero)) h = (ground (arith, h), inr (inl refl))
valid_type-some s (pos (suc (suc zero))) h = (ground (arith, h), inr (inr refl))
valid_type-some s (pos (suc (suc (suc n)))) h = absurd (ground (arith, h))
valid_type-some s (negsuc n) h = absurd (ground (arith, h))

valid_type-none : (s : String) → valid_type s ≡ none → (n : ℤ) → atoi s ≡ ok n → ¬ IsType n
unfolding valid_type
valid_type-none s h n a (inl e) = absurd (ground (arith, h, a, e))
valid_type-none s h n a (inr (inl e)) = absurd (ground (arith, h, a, e))
valid_type-none s h n a (inr (inr e)) = absurd (ground (arith, h, a, e))

differs : (s : String) → str_eq s "" ≡ false → s ≢ ""
differs s h e = ground (arith, h, (eq_iff s "").1 e)

module _ (W : World) (app : App W) where
  -- No parameter is missing.
  abbrev pub Present : Request → Type 0
  Present r =
      (query_get r "sensor_id" ≢ "")
      × (query_get r "sensor_type" ≢ "")
      × (query_get r "window" ≢ "")

  -- How a request to `/aggregate` ends.
  pub data Treated (r : Request) (w : Writer) (s : State W) : Writer × State W → Type 0 where
    missing :
        (query_get r "sensor_id" ≡ "")
          ⊎ (query_get r "sensor_type" ≡ "")
          ⊎ (query_get r "window" ≡ "")
        → Treated r w s (reply_bad_request "missing query params" w, s)
    no_type :
        Present r
        → ((n : ℤ) → atoi (query_get r "sensor_type") ≡ ok n → ¬ IsType n)
        → Treated r w s (reply_bad_request "invalid sensor type" w, s)
    no_window :
        (type : ℤ) (e : Error)
        → Present r
        → atoi (query_get r "sensor_type") ≡ ok type
        → IsType type
        → World.parse_duration W (query_get r "window") ≡ err e
        → Treated r w s (reply_bad_request "invalid window" w, s)
    served :
        (type dur : ℤ)
        → Present r
        → atoi (query_get r "sensor_type") ≡ ok type
        → IsType type
        → World.parse_duration W (query_get r "window") ≡ ok dur
        → Treated r w s (serve W app (query_get r "sensor_id") type (query_get r "window") dur w s)

  typed-Treated :
      (r : Request) (w : Writer) (s : State W)
      → Present r
      → Treated r w s (elim (valid_type (query_get r "sensor_type")) [
        | none ↦ (reply_bad_request "invalid sensor type" w, s)
        | some type ↦ elim (World.parse_duration W (query_get r "window")) [
          | err _ ↦ (reply_bad_request "invalid window" w, s)
          | ok dur ↦ serve W app (query_get r "sensor_id") type (query_get r "window") dur w s
        ]
      ])
  typed-Treated r w s present = elim (Option-cases (valid_type (query_get r "sensor_type"))) [
    | inl q ↦ rw q (no_type present (valid_type-none (query_get r "sensor_type") q))
    | inr (type, q) ↦
        let (read, known) = valid_type-some (query_get r "sensor_type") type q in
        elim (Result-cases (World.parse_duration W (query_get r "window"))) [
          | inr (e, p) ↦ rw (q, p) (no_window type e present read known p)
          | inl (dur, p) ↦ rw (q, p) (served type dur present read known p)
        ]
  ]

  -- Every request to `/aggregate` is refused as a bad request, with nothing asked of the clock, the
  -- cache or the database, where a parameter is missing, where the type does not read as 0, 1 or 2,
  -- or where the window is no duration, with the message for that; otherwise it is served for the
  -- sensor, the type that was read, and the duration.
  pub aggregate_handler-Treated :
      (r : Request) (w : Writer) (s : State W) → Treated r w s (aggregate_handler W app r w s)
  unfolding aggregate_handler
  aggregate_handler-Treated r w s = elim (Bool-cases (str_eq (query_get r "sensor_id") "")) [
    | inl a ↦ rw a (missing (inl ((eq_iff (query_get r "sensor_id") "").0 a)))
    | inr a ↦ elim (Bool-cases (str_eq (query_get r "sensor_type") "")) [
      | inl b ↦ rw (a, b) (missing (inr (inl ((eq_iff (query_get r "sensor_type") "").0 b))))
      | inr b ↦ elim (Bool-cases (str_eq (query_get r "window") "")) [
        | inl c ↦ rw (a, b, c) (missing (inr (inr ((eq_iff (query_get r "window") "").0 c))))
        | inr c ↦
            rw (a, b, c)
              (typed-Treated r w s (
                differs (query_get r "sensor_id") a,
                differs (query_get r "sensor_type") b,
                differs (query_get r "window") c,
              ))
      ]
    ]
  ]

  -- What the cache answers for a request.
  abbrev pub cache_hit : String → String → State W → Option Aggregate
  cache_hit sensor_id window s =
      let time = (World.answer W now s.ext).0 in
      cached_aggregate W
        (Cache.fetch_aggregate app.cache (cache_key sensor_id time window) (perform W now s).1).0

  -- The key of the cache does not have the type in it: while an aggregate is cached, a request for
  -- any other type of the same sensor and window is answered with that same aggregate.
  pub serve_any_type :
      (sensor_id window : String) (type type' dur : ℤ) (agg : Aggregate) (w : Writer) (s : State W)
      → cache_hit sensor_id window s ≡ some agg
      → ((serve W app sensor_id type window dur w s).0 ≡ reply_aggregate W agg w)
        × (serve W app sensor_id type' window dur w s ≡ serve W app sensor_id type window dur w s)
  unfolding serve perform
  serve_any_type sensor_id window type type' dur agg w s h = ground arith

  -- Where the mean is infinite or NaN, the reply has status 200 and an empty body.
  pub reply_aggregate_not_finite :
      (agg : Aggregate) (w : Writer)
      → IsFresh w
      → is_finite agg.avg ≡ false
      → ((reply_aggregate W agg w).sent
          ≡ some (200, w.header ++ (("Content-Type", "application/json") ∷ [])))
        × ((reply_aggregate W agg w).body ≡ w.body)
  unfolding reply_aggregate reply_json aggregate_json
  reply_aggregate_not_finite agg w f h = ground arith
