-- ===== src/Go/Decode.antt =====
-- Filling the fields of a struct one after another, and the bodies that come over the network.
use nostradamus_api.Prelude.{String, Bool, true, false}
use nostradamus_api.Errors.{Error}
use nostradamus_api.Go.Fallible.{Result, ok, err, Fallible}
use nostradamus_api.Go.Json.{Json, null, Fields, get_from, object}

infixl 5 ◌>>=◌ ◌>>◌
abbrev pub ◌>>=◌ : {A B : Type 0} → Result A → (A → Result B) → Result B
ok a >>= f = f a
err e >>= f = err e

abbrev pub ◌>>◌ : {A B : Type 0} → Result A → Result B → Result B
r >> k = r >>= λ _. k

-- The field of a struct at this key.
abbrev pub at {ℓ} : {A : Type ℓ} → (Json → A) → String → Fields → A
at value key fs = value (get_from null key fs)

-- A struct whose only field is `Data T `json:"data"``.
abbrev pub data_field : {A : Type 0} → (Json → Result A) → Json → Result A
data_field value v = object v >>= at value "data"

-- An early `return …, e` where the test fails.
abbrev pub require : {S : Type 0} → Bool → Error → Fallible S (Unit {0})
require true e s = (ok tt, s)
require false e s = (err e, s)
