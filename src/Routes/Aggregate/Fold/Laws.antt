-- ===== src/Routes/Aggregate/Fold/Laws.antt =====
-- What the aggregate says of the readings.
use mathlib.Core.List.{Memᴰ, foldl}
use nostradamus_api.Prelude.{
  ◌≤◌, ◌≡◌, refl, ap, ◌⊎◌, inl, inr, false, none, some, List, [], ◌∷◌, arith, All, length,
  Bool-cases,
}
use nostradamus_api.Prelude.Int.{pos}
use nostradamus_api.Go.Float64.{Float64, less, is_nan, order_key}
use nostradamus_api.Go.Time.{Time}
use nostradamus_api.Types.{Aggregate}
use nostradamus_api.World.{World}
use nostradamus_api.Routes.Aggregate.Fold.{Running, accumulate, accumulate_all, aggregate}

abbrev pub IsNumber : Float64 → Type 0
IsNumber v = is_nan v ≡ false

-- `lo` and `hi` are numbers that enclose `v` in the order of the floats.
abbrev pub Encloses : Float64 → Float64 → Float64 → Type 0
Encloses lo hi v = (order_key lo ≤ order_key v) × (order_key v ≤ order_key hi)

module _ (W : World) where
  -- What one round keeps of the extremes so far.
  record Widens (t u : Running) : Type 0 where
    min_number : IsNumber u.min
    max_number : IsNumber u.max
    min_le : order_key u.min ≤ order_key t.min
    max_le : order_key t.max ≤ order_key u.max

  accumulate-Widens :
      (t : Running) (v : Float64)
      → IsNumber t.min
      → IsNumber t.max
      → IsNumber v
      → Widens t (accumulate W t v) × Encloses (accumulate W t v).min (accumulate W t v).max v
  unfolding accumulate less
  accumulate-Widens t v a b c = ground arith

  pick_min :
      (P : Float64 → Type 0) (t : Running) (v : Float64) → P t.min → P v → P (accumulate W t v).min
  unfolding accumulate
  pick_min P t v a b = elim (Bool-cases (less v t.min)) [ inl e ↦ rw e b | inr e ↦ rw e a ]

  pick_max :
      (P : Float64 → Type 0) (t : Running) (v : Float64) → P t.max → P v → P (accumulate W t v).max
  unfolding accumulate
  pick_max P t v a b = elim (Bool-cases (less t.max v)) [ inl e ↦ rw e b | inr e ↦ rw e a ]

  accumulate_all-Widens :
      (t : Running) (vs : List Float64)
      → IsNumber t.min
      → IsNumber t.max
      → All IsNumber vs
      → Widens t (accumulate_all W t vs)
        × All (Encloses (accumulate_all W t vs).min (accumulate_all W t vs).max) vs
  unfolding accumulate_all
  accumulate_all-Widens t [] a b c = ground arith
  accumulate_all-Widens t (v ∷ vs) a b (c, cs) =
      let (w, e) = accumulate-Widens t v a b c in
      let (w', es) = accumulate_all-Widens (accumulate W t v) vs w.min_number w.max_number cs in
      (ground arith, (ground arith, es))

  -- Whatever holds of the extremes so far and of the readings holds of the extremes at the end.
  accumulate_all-extremes :
      (P : Float64 → Type 0) (t : Running) (vs : List Float64)
      → P t.min
      → P t.max
      → ((v : Float64) → Memᴰ v vs → P v)
      → P (accumulate_all W t vs).min × P (accumulate_all W t vs).max
  unfolding accumulate_all
  accumulate_all-extremes P t [] a b c = (a, b)
  accumulate_all-extremes P t (v ∷ vs) a b c =
      accumulate_all-extremes P (accumulate W t v) vs (pick_min P t v a (c v (Memᴰ.head refl)))
        (pick_max P t v b (c v (Memᴰ.head refl))) (λ x m. c x (Memᴰ.tail m))

  accumulate_all-sum :
      (t : Running) (vs : List Float64) → (accumulate_all W t vs).sum ≡ foldl (World.add W) t.sum vs
  unfolding accumulate_all accumulate
  accumulate_all-sum t [] = refl
  accumulate_all-sum t (v ∷ vs) = accumulate_all-sum (accumulate W t v) vs

  -- The sum of the readings from the left, over their number.
  abbrev pub mean : List Float64 → Float64
  mean vs =
      World.divide W (foldl (World.add W) (record { bits = 0 }) vs)
        (World.of_int W (pos (length vs)))

  -- The aggregate of a list of numbers: what it counts and encloses.
  pub record Summarises (time : Time) (vs : List Float64) (agg : Aggregate) : Type 0 where
    pub enclosing : All (Encloses agg.min agg.max) vs
    pub min_read : Memᴰ agg.min vs
    pub max_read : Memᴰ agg.max vs
    pub averaged : agg.avg ≡ mean vs
    pub counted : agg.count ≡ pos (length vs)
    pub stamped : agg.timestamp ≡ time

  -- Of readings none of which is NaN, the aggregate has the least and the greatest, both of them
  -- among the readings, their mean and their number; there is none only where there is no reading.
  pub aggregate-Summarises :
      (time : Time) (vs : List Float64)
      → All IsNumber vs
      → ((vs ≡ []) × (aggregate W time vs ≡ none))
        ⊎ ((agg : Aggregate) × (aggregate W time vs ≡ some agg) × Summarises time vs agg)
  unfolding aggregate
  aggregate-Summarises time [] n = inl (refl, refl)
  aggregate-Summarises time (v ∷ vs) (n, ns) =
      let start : Running = record { sum = record { bits = 0 }; min = v; max = v } in
      let (w, es) = accumulate_all-Widens start (v ∷ vs) n n (n, ns) in
      let (lo, hi) =
        accumulate_all-extremes (λ x. Memᴰ x (v ∷ vs)) start (v ∷ vs) (Memᴰ.head refl)
          (Memᴰ.head refl) (λ x m. m) in
      inr (
        _,
        refl,
        record {
          enclosing = es;
          min_read = lo;
          max_read = hi;
          averaged =
              ap (λ x. World.divide W x (World.of_int W (pos (length (v ∷ vs)))))
                (accumulate_all-sum start (v ∷ vs));
          counted = refl;
          stamped = refl;
        },
      )
