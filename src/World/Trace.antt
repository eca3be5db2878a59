-- ===== src/World/Trace.antt =====
-- Questions about a call and about the log.
use mathlib.Core.List.{Memᴰ}
use nostradamus_api.Prelude.{
  Bool, true, false, Option, List, [], ◌∷◌, if◌then◌else◌, ◌≡◌, refl, arith, length, sym, subst,
  ◌⊎◌, inl, inr,
}
use nostradamus_api.Errors.{Error}
use nostradamus_api.World.Calls
use nostradamus_api.World.Calls.{Event, event, exec}

-- The statements that write to the database.
abbrev pub is_write : Calls.Statement → Bool
is_write (Calls.insert_field _ _ _) = true
is_write (Calls.insert_sensor_by_field _ _ _ _) = true
is_write (Calls.insert_sensor _ _ _) = true
is_write (Calls.update_credentials _ _ _ _) = true
is_write _ = false

-- The statements that were sent to write to the database, newest first, whatever they were answered.
abbrev pub writes : List Event → List Calls.Statement
writes [] = []
writes (event (exec statement) _ ∷ log) =
    let rest = writes log in if is_write statement then statement ∷ rest else rest
writes (event _ _ ∷ log) = writes log

-- The same with their answers.
abbrev pub answered_writes : List Event → List (Calls.Statement × Option Error)
answered_writes [] = []
answered_writes (event (exec statement) answer ∷ log) =
    let rest = answered_writes log in
    if is_write statement then (statement, answer) ∷ rest else rest
answered_writes (event _ _ ∷ log) = answered_writes log

pub length-answered_writes : (log : List Event) → length (answered_writes log) ≡ length (writes log)
length-answered_writes [] = refl
length-answered_writes (event (exec statement) answer ∷ log) =
    ground (arith, length-answered_writes log)
length-answered_writes (event _ _ ∷ log) = length-answered_writes log

-- What is in the first log is in the second.
abbrev pub Grows : List Event → List Event → Type 0
Grows before after = (e : Event) → Memᴰ e before → Memᴰ e after

pub Grows-trans : {a b c : List Event} → Grows a b → Grows b c → Grows a c
Grows-trans h k e m = k e (h e m)

pub Grows-cons : (e : Event) (log : List Event) → Grows log (e ∷ log)
Grows-cons e log f m = Memᴰ.tail m

pub Grows-one :
    (e : Event) (before after : List Event)
    → (after ≡ before) ⊎ (after ≡ e ∷ before)
    → Grows before after
Grows-one e before after (inl h) f m = subst (λ l. Memᴰ f l) (sym h) m
Grows-one e before after (inr h) f m = subst (λ l. Memᴰ f l) (sym h) (Memᴰ.tail m)
