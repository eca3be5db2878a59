-- ===== src/Go/Io.antt =====
-- Statements that act on a state and do not fail: a call returns its value and the new state.
abbrev pub Io : Type 0 → Type 0 → Type 0
Io S A = S → A × S

module _ {S A : Type 0} where
  abbrev pub pure : A → Io S A
  pure a s = (a, s)

module _ {S A B : Type 0} where
  infixl 5 ◌>>=◌ ◌>>◌
  abbrev pub ◌>>=◌ : Io S A → (A → Io S B) → Io S B
  ◌>>=◌ m f s = f (m s).0 (m s).1

  abbrev pub ◌>>◌ : Io S A → Io S B → Io S B
  m >> k = m >>= λ _. k
