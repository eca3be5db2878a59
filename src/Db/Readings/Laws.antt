-- ===== src/Db/Readings/Laws.antt =====
-- Which readings `GetReadings` returns.
use mathlib.Core.List.{Memᴰ, append-nil, append_assoc}
use nostradamus_api.Prelude.{
  ℕ, zero, suc, ◌+◌, ◌-◌, ◌*◌, ◌/◌, ◌≤◌, ◌<◌, String, ◌≡◌, ap, sym, fun_ext, subst, inl, inr, ◌∙◌,
  Bool, true, false, none, List, [], ◌∷◌, ◌++◌, arith, ltb, leb, Bool-cases, ◌&&◌, if◌then◌else◌,
}
use nostradamus_api.Prelude.Int.{ℤ}
use nostradamus_api.Go.Fallible.{ok, ◌>>=◌}
use nostradamus_api.Go.Float64.{Float64}
use nostradamus_api.Go.Time.{Time, day, midnight, format_date, date_text}
use nostradamus_api.World.{World, State}
use nostradamus_api.World.Calls.{Uuid, iterate, values_between}
use nostradamus_api.Db.Readings.{table_of, read_bucket, read_buckets, bucket_fuel, get_readings}

-- The loop's fuel is enough: one more round changes nothing, whatever the database answers.
pub read_buckets_fuel :
    (W : World) (fuel : ℕ) (table : String) (sid : Uuid) (from to date end : Time)
    (readings : List Float64) (s : State W)
    → end < date + fuel * day
    → read_buckets W (suc fuel) table sid from to date end readings s
      ≡ read_buckets W fuel table sid from to date end readings s
unfolding read_buckets
read_buckets_fuel W zero table sid from to date end readings s h = ground arith
read_buckets_fuel W (suc fuel) table sid from to date end readings s h =
    elim (Bool-cases (ltb end date)) [
      | inl over ↦ rw over
      | inr more ↦ rw more (
          ap (λ k. ◌>>=◌ (read_bucket W table sid from to date) k s)
            (fun_ext λ vs. fun_ext λ s'.
              read_buckets_fuel W fuel table sid from to (date + day) end (readings ++ vs) s'
                (omega arith)))
    ]

-- The stored readings of a bucket: time and value.
abbrev pub Stored : Type 0
Stored = String → Uuid → String → List (Time × Float64)

abbrev pub is_between : Time → Time → Time → Bool
is_between from to t = leb from t && leb t to

-- The values whose time lies between two times, both included.
abbrev pub values_in : Time → Time → List (Time × Float64) → List Float64
values_in from to [] = []
values_in from to ((t, v) ∷ rows) =
    let rest = values_in from to rows in if is_between from to t then v ∷ rest else rest

mem-values_in :
    (from to t : Time) (v : Float64) (rows : List (Time × Float64))
    → Memᴰ (t, v) rows
    → from ≤ t
    → t ≤ to
    → Memᴰ v (values_in from to rows)
mem-values_in from to t v [] m h k = elim m [ ]
mem-values_in from to t v ((u, w) ∷ rows) (Memᴰ.head e) h k =
    let same : t ≡ u = ap (λ p. p.0) e in
    let inside : is_between from to u ≡ true = ground arith in
    rw (inside, values_in) (Memᴰ.head (ap (λ p. p.1) e))
mem-values_in from to t v ((u, w) ∷ rows) (Memᴰ.tail m) h k =
    elim (Bool-cases (is_between from to u)) [
      | inl inside ↦ rw (inside, values_in) (Memᴰ.tail (mem-values_in from to t v rows m h k))
      | inr outside ↦ rw (outside, values_in) (mem-values_in from to t v rows m h k)
    ]

-- The database answers a query of a bucket with the values that it stores there for the interval.
pub record Serves (W : World) (stored : Stored) : Type 0 where
  pub answers :
      (table bucket : String) (sid : Uuid) (from to : Time) (x : World.Ext W)
      → (World.answer W (iterate (values_between table sid bucket from to)) x).0
        ≡ record { rows = values_in from to (stored table sid bucket); close = none }

mem-append_left : {A : Type 0} (a : A) (xs ys : List A) → Memᴰ a xs → Memᴰ a (xs ++ ys)
mem-append_left a [] ys m = elim m [ ]
mem-append_left a (x ∷ xs) ys (Memᴰ.head e) = Memᴰ.head e
mem-append_left a (x ∷ xs) ys (Memᴰ.tail m) = Memᴰ.tail (mem-append_left a xs ys m)

mem-append_right : {A : Type 0} (a : A) (xs ys : List A) → Memᴰ a ys → Memᴰ a (xs ++ ys)
mem-append_right a [] ys m = m
mem-append_right a (x ∷ xs) ys m = Memᴰ.tail (mem-append_right a xs ys m)

-- The values of `n` buckets, from that of `date` on.
abbrev pub values_of_days : Stored → String → Uuid → Time → Time → Time → ℕ → List Float64
values_of_days stored table sid from to date zero = []
values_of_days stored table sid from to date (suc n) =
    values_in from to (stored table sid (format_date date))
    ++ values_of_days stored table sid from to (date + day) n

mem-values_of_days :
    (stored : Stored) (table : String) (sid : Uuid) (from to date : Time) (n k : ℕ) (v : Float64)
    → k < n
    → Memᴰ v (values_in from to (stored table sid (format_date (date + k * day))))
    → Memᴰ v (values_of_days stored table sid from to date n)
mem-values_of_days stored table sid from to date zero k v h m = absurd (omega arith)
mem-values_of_days stored table sid from to date (suc n) zero v h m =
    mem-append_left v _ _
      (subst (λ d. Memᴰ v (values_in from to (stored table sid (format_date d)))) (omega arith) m)
mem-values_of_days stored table sid from to date (suc n) (suc k) v h m = mem-append_right v _ _ (
    mem-values_of_days stored table sid from to (date + day) n k v (omega arith)
      (subst (λ d. Memᴰ v (values_in from to (stored table sid (format_date d)))) (omega arith) m))

format_date-midnight : (t : Time) → format_date (midnight t) ≡ format_date t
unfolding format_date midnight
format_date-midnight t = ap date_text (omega arith)

days_between :
    (from t : Time)
    → from ≤ t
    → midnight from + (midnight t - midnight from) / day * day ≡ midnight t
unfolding midnight
days_between from t h = omega arith

midnight_mono : (t to : Time) → t ≤ to → midnight t ≤ midnight to
unfolding midnight
midnight_mono t to h = omega arith

module _ (W : World) (stored : Stored) (S : Serves W stored) where
  read_bucket-ok :
      (table : String) (sid : Uuid) (from to date : Time) (s : State W)
      → (read_bucket W table sid from to date s).0
        ≡ ok (values_in from to (stored table sid (format_date date)))
  unfolding read_bucket
  read_bucket-ok table sid from to date s =
      rw (S.answers table (format_date date) sid from to s.ext)

  read_buckets-ok :
      (n fuel : ℕ) (table : String) (sid : Uuid) (from to date end : Time) (readings : List Float64)
      (s : State W)
      → end < date + n * day
      → date + n * day ≤ end + day
      → n < fuel
      → (read_buckets W fuel table sid from to date end readings s).0
        ≡ ok (readings ++ values_of_days stored table sid from to date n)
  unfolding read_buckets
  read_buckets-ok n zero table sid from to date end readings s h k l = absurd (omega arith)
  read_buckets-ok zero (suc fuel) table sid from to date end readings s h k l =
      let over : ltb end date ≡ true = ground arith in rw (over, append-nil)
  read_buckets-ok (suc n) (suc fuel) table sid from to date end readings s h k l =
      let more : ltb end date ≡ false = ground arith in
      let vs = values_in from to (stored table sid (format_date date)) in
      rw (more, read_bucket-ok table sid from to date s)
        (read_buckets-ok n fuel table sid from to (date + day) end (readings ++ vs)
            (read_bucket W table sid from to date s).1 (omega arith) (omega arith) (omega arith)
          ∙ ap ok (append_assoc readings vs _))

  -- The number of days from the date of `from` to that of `to`, both included.
  abbrev days : Time → Time → ℕ
  days from to = (midnight to - midnight from) / day + 1

  -- For a valid sensor and type, `GetReadings` returns the values of the interval from the bucket of
  -- every day from that of `from` to that of `to`, in the order of the days.
  pub get_readings-ok :
      (sensor_id table : String) (sid : Uuid) (type : ℤ) (from to : Time) (s : State W)
      → World.gocql_parse_uuid W sensor_id ≡ ok sid
      → table_of type ≡ ok table
      → from ≤ to
      → (get_readings W sensor_id type from to s).0
        ≡ ok (values_of_days stored table sid from to (midnight from) (days from to))
  unfolding get_readings
  get_readings-ok sensor_id table sid type from to s p q h =
      rw (p, q)
        (read_buckets-ok (days from to) (bucket_fuel (midnight from) (midnight to)) table sid from
          to (midnight from) (midnight to) [] s (omega arith) (omega arith) (omega arith))

  -- No reading of the interval is left out: one that is stored in the bucket of its own date, with a
  -- time from `from` to `to`, is among the values that `GetReadings` returns.
  pub mem-get_readings :
      (sensor_id table : String) (sid : Uuid) (type : ℤ) (from to t : Time) (v : Float64)
      (s : State W)
      → World.gocql_parse_uuid W sensor_id ≡ ok sid
      → table_of type ≡ ok table
      → Memᴰ (t, v) (stored table sid (format_date t))
      → from ≤ t
      → t ≤ to
      → (vs : List Float64) × ((get_readings W sensor_id type from to s).0 ≡ ok vs) × Memᴰ v vs
  mem-get_readings sensor_id table sid type from to t v s p q m h k = (
    values_of_days stored table sid from to (midnight from) (days from to),
    get_readings-ok sensor_id table sid type from to s p q (omega arith),
    mem-values_of_days stored table sid from to (midnight from) (days from to)
        ((midnight t - midnight from) / day) v (let later = midnight_mono t to k in omega arith)
        (subst (λ d. Memᴰ v (values_in from to (stored table sid (format_date d))))
          (sym (days_between from t h))
          (mem-values_in from to t v _
            (subst (λ b. Memᴰ (t, v) (stored table sid b)) (sym (format_date-midnight t)) m) h k)),
  )
