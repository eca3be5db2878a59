-- ===== src/Go/Fallible.antt =====
-- Functions that return `(value, error)`: `if err != nil { return …, err }` is the bind.
use nostradamus_api.Prelude.{String, Option, none, some, ◌≡◌, refl, ◌⊎◌, inl, inr}
use nostradamus_api.Errors.{Error, wrap}
use nostradamus_api.Go.Io.{Io}

pub data Result (A : Type 0) : Type 0 where
  ok : A → Result A
  err : Error → Result A

abbrev pub Fallible : Type 0 → Type 0 → Type 0
Fallible S A = Io S (Result A)

module _ {S A : Type 0} where
  abbrev pub pure : A → Fallible S A
  pure a s = (ok a, s)

  abbrev pub fail : Error → Fallible S A
  fail e s = (err e, s)

  abbrev pub lift : Result A → Fallible S A
  lift r s = (r, s)

  -- An action that cannot fail.
  abbrev pub run : Io S A → Fallible S A
  run m s = (ok (m s).0, (m s).1)

pub Result-cases :
    {A : Type 0} (r : Result A) → ((a : A) × (r ≡ ok a)) ⊎ ((e : Error) × (r ≡ err e))
Result-cases (ok a) = inl (a, refl)
Result-cases (err e) = inr (e, refl)

abbrev pub wrap_result : {A : Type 0} → String → Result A → Result A
wrap_result prefix (ok a) = ok a
wrap_result prefix (err e) = err (wrap prefix e)

-- `if err != nil { return …, fmt.Errorf(prefix + "%w", err) }`
abbrev pub wrapping : {S A : Type 0} → String → Fallible S A → Fallible S A
wrapping prefix m s = (wrap_result prefix (m s).0, (m s).1)

abbrev pub result_of_error : Option Error → Result (Unit {0})
result_of_error none = ok tt
result_of_error (some e) = err e

-- A call that returns only an `error`.
abbrev pub check : {S : Type 0} → Io S (Option Error) → Fallible S (Unit {0})
check m s = (result_of_error (m s).0, (m s).1)

abbrev pub error_of_result : {A : Type 0} → Result A → Option Error
error_of_result (ok _) = none
error_of_result (err e) = some e

module _ {S A B : Type 0} where
  abbrev pub continue : Result A → (A → Fallible S B) → Fallible S B
  continue (ok a) f s = f a s
  continue (err e) f s = (err e, s)

  infixl 5 ◌>>=◌ ◌>>◌
  abbrev pub ◌>>=◌ : Fallible S A → (A → Fallible S B) → Fallible S B
  ◌>>=◌ m f s = continue (m s).0 f (m s).1

  abbrev pub ◌>>◌ : Fallible S A → Fallible S B → Fallible S B
  m >> k = m >>= λ _. k
