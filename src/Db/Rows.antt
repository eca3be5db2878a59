-- ===== src/Db/Rows.antt =====
-- Tables as sets of rows, without an order.
use mathlib.Core.List.{Memᴰ}
use nostradamus_api.Prelude.{
  ◌≡◌, ◌≢◌, ◌↔◌, refl, ap, sym, subst, ◌∙◌, ◌⊎◌, inl, inr, true, false, List, ◌∷◌, String, str_eq,
  eq_iff, arith,
}
use nostradamus_api.Go.Fallible.{Result, ok, err}

abbrev pub Rows : Type 0 → Type 1
Rows A = A → Type 0

module _ {A : Type 0} where
  abbrev pub Same : Rows A → Rows A → Type 0
  Same R R' = (g : A) → R' g ↔ R g

  abbrev pub Plus : A → Rows A → Rows A → Type 0
  Plus new R R' = (g : A) → R' g ↔ (R g ⊎ (g ≡ new))

  pub Same-trans : {R R' R'' : Rows A} → Same R R' → Same R' R'' → Same R R''
  Same-trans h k g = (λ a. (h g).0 ((k g).0 a), λ a. (k g).1 ((h g).1 a))

  pub Plus-Same : {new : A} {R R' R'' : Rows A} → Same R R' → Plus new R' R'' → Plus new R R''
  Plus-Same h k g = (
    λ a. elim ((k g).0 a) [ inl b ↦ inl ((h g).0 b) | inr e ↦ inr e ],
    λ a. (k g).1 (elim a [ inl b ↦ inl ((h g).1 b) | inr e ↦ inr e ]),
  )

  pub Same-Plus : {new : A} {R R' R'' : Rows A} → Plus new R R' → Same R' R'' → Plus new R R''
  Same-Plus h k g = (λ a. (h g).0 ((k g).0 a), λ a. (k g).1 ((h g).1 a))

  -- What holds of no element of a list.
  pub none_of :
      {P : A → Type 0} (a : A) (l : List A)
      → ¬ P a
      → ((b : A) → Memᴰ b l → ¬ P b)
      → (b : A) → Memᴰ b (a ∷ l)
      → ¬ P b
  none_of {P} a l h k b (Memᴰ.head e) = λ p. h (subst P e p)
  none_of a l h k b (Memᴰ.tail m) = k b m

  module _ {K : Type 0} (key : A → K) where
    -- No two rows have the same key.
    abbrev pub Tells : Rows A → Type 0
    Tells R = (g h : A) → R g → R h → key g ≡ key h → g ≡ h

    pub Same-Tells : (R R' : Rows A) → Same R R' → Tells R → Tells R'
    Same-Tells R R' same t g h a b = t g h ((same g).0 a) ((same h).0 b)

    pub Plus-Tells :
        (new : A) (R R' : Rows A)
        → ((g : A) → R g → key g ≢ key new)
        → Plus new R R'
        → Tells R
        → Tells R'
    Plus-Tells new R R' free plus t g h a b e = elim ((plus g).0 a) [
      | inl a' ↦ elim ((plus h).0 b) [
        | inl b' ↦ t g h a' b' e
        | inr q ↦ absurd (free g a' (e ∙ ap key q))
      ]
      | inr p ↦ elim ((plus h).0 b) [
        | inl b' ↦ absurd (free h b' (sym e ∙ ap key p))
        | inr q ↦ p ∙ sym q
      ]
    ]

-- The test of a name that was read, in RegisterField and in RegisterSensor.
pub reads_name_iff :
    (name : String) (r : Result String)
    → (elim r [ ok n ↦ str_eq n name | err _ ↦ false ] ≡ true) ↔ (r ≡ ok name)
reads_name_iff name (ok n) = (
  λ h. ap (λ m. ok m) ((eq_iff n name).0 h),
  λ h.
      subst (λ r. elim r [ ok m ↦ str_eq m name | err _ ↦ false ] ≡ true) (sym h)
        ((eq_iff name name).1 refl),
)
reads_name_iff name (err e) = (λ h. absurd (ground (arith, h)), λ h. absurd (ground (arith, h)))
