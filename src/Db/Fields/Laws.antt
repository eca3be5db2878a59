-- ===== src/Db/Fields/Laws.antt =====
-- What `RegisterField` writes, and when it refuses a name.
use mathlib.Core.List.{Memᴰ}
use nostradamus_api.Prelude.{
  String, ◌≡◌, refl, ap, sym, any, if◌then◌else◌, ◌∙◌, inl, inr, Bool, true, false, Option, none,
  some, List, [], ◌∷◌, map, arith, str_eq, eq_iff, Bool-cases, Option-cases,
}
use nostradamus_api.Errors.{Error, field_already_exists}
use nostradamus_api.Go.Fallible.{Result, ok, err, lift, fail, result_of_error, ◌>>◌}
use nostradamus_api.Types.{Field}
use nostradamus_api.World.{World, State, perform}
use nostradamus_api.World.Calls.{
  Uuid, Statement, Iter, iterate, scan_one, exec, new_uuid, insert_field, field_ids_of_user,
  field_name_of,
}
use nostradamus_api.World.Trace.{writes}
use nostradamus_api.Db.Fields.{any_field_named, insert_new_field, register_field, is_named}

module _ (W : World) (user : Uuid) (name : String) where
  writes-any_field_named :
      (ids : List Uuid) (s : State W)
      → writes (any_field_named W user name ids s).1.log ≡ writes s.log
  unfolding any_field_named
  writes-any_field_named [] s = refl
  writes-any_field_named (id ∷ ids) s =
      let (r, s') = perform W (scan_one (field_name_of user id)) s in
      elim (Bool-cases (is_named W name r)) [
        | inl q ↦ rw (q, any_field_named) refl
        | inr q ↦ rw (q, any_field_named) (writes-any_field_named ids s')
      ]

  abbrev pub added : Uuid → Field
  added id = record { field_id = id; field_name = name; user_id = some user }

  -- How a registration ends, and which writes it sent.
  pub data Registered (found : Bool) (close : Option Error) (before after : List Statement)
      : Result Field → Type 0 where
    inserted :
        (id : Uuid)
        → found ≡ false
        → close ≡ none
        → after ≡ insert_field user id name ∷ before
        → Registered found close before after (ok (added id))
    taken :
        found ≡ true
        → after ≡ before
        → Registered found close before after (err (field_already_exists name))
    unread :
        (e : Error)
        → found ≡ false
        → close ≡ some e
        → after ≡ before
        → Registered found close before after (err e)
    unanswered :
        (e : Error) (id : Uuid)
        → found ≡ false
        → close ≡ none
        → after ≡ insert_field user id name ∷ before
        → Registered found close before after (err e)

  writes-insert_new_field :
      (s : State W)
      → writes (insert_new_field W user name s).1.log
        ≡ insert_field user (World.answer W new_uuid s.ext).0 name ∷ writes s.log
  unfolding insert_new_field
  writes-insert_new_field s =
      let id = (World.answer W new_uuid s.ext).0 in
      elim (Option-cases
        (perform W (exec (insert_field user id name)) (perform W new_uuid s).1).0) [
          | inl q ↦ rw (q, insert_new_field) refl
          | inr (e, q) ↦ rw (q, insert_new_field) refl
        ]

  insert_new_field-Registered :
      (before : List Statement) (s : State W)
      → writes s.log ≡ before
      → Registered false none before
          (writes (insert_new_field W user name s).1.log)
          (insert_new_field W user name s).0
  unfolding insert_new_field
  insert_new_field-Registered before s h =
      let id = (World.answer W new_uuid s.ext).0 in
      elim (Option-cases
        (perform W (exec (insert_field user id name)) (perform W new_uuid s).1).0) [
          | inl q ↦
              rw (q, insert_new_field)
                (inserted id refl refl (ap (λ l. insert_field user id name ∷ l) h))
          | inr (e, q) ↦
              rw (q, insert_new_field)
                (unanswered e id refl refl (ap (λ l. insert_field user id name ∷ l) h))
        ]

  -- What `RegisterField` does behind the loop.
  abbrev pub finish : Bool → Option Error → State W → Result Field × State W
  finish found close =
      if found
      then fail (field_already_exists name)
      else do lift (result_of_error close); insert_new_field W user name

  finish-Registered :
      (found : Bool) (close : Option Error) (before : List Statement) (s : State W)
      → writes s.log ≡ before
      → Registered found close before (writes (finish found close s).1.log) (finish found close s).0
  finish-Registered true close before s h = taken refl h
  finish-Registered false none before s h = insert_new_field-Registered before s h
  finish-Registered false (some e) before s h = unread e refl refl h

  -- What the loop finds, and what the closing of the iteration returns.
  abbrev pub is_taken : State W → Bool
  is_taken s =
      let (iter, s₁) = perform W (iterate (field_ids_of_user user)) s in
      (any_field_named W user name iter.rows s₁).0

  abbrev pub read_error : State W → Option Error
  read_error s = Iter.close (perform W (iterate (field_ids_of_user user)) s).0

  -- A registration sends at most one write, the insert of the new field, and answers with the field
  -- exactly as it was inserted; where it refuses the name or fails to read the fields it writes nothing.
  pub register_field-Registered :
      (s : State W)
      → Registered
          (is_taken s)
          (read_error s)
          (writes s.log)
          (writes (register_field W user name s).1.log)
          (register_field W user name s).0
  unfolding register_field
  register_field-Registered s =
      let (iter, s₁) = perform W (iterate (field_ids_of_user user)) s in
      let (found, s₂) = any_field_named W user name iter.rows s₁ in
      finish-Registered found iter.close (writes s.log) s₂ (writes-any_field_named iter.rows s₁)

-- The database has these fields of a user, and answers every read of them.
pub record ListsFields (W : World) (user : Uuid) (fields : List (Uuid × String)) : Type 0 where
  pub ids :
      (x : World.Ext W)
      → (World.answer W (iterate (field_ids_of_user user)) x).0
        ≡ record { rows = map (λ f. f.0) fields; close = none }
  pub names :
      (id : Uuid) (name : String) (x : World.Ext W)
      → Memᴰ (id, name) fields
      → (World.answer W (scan_one (field_name_of user id)) x).0 ≡ ok name

abbrev pub named : String → List (Uuid × String) → Bool
named name fields = any (λ f. str_eq f.1 name) fields

named_sound :
    (name : String) (fields : List (Uuid × String))
    → named name fields ≡ true
    → (id : Uuid) × Memᴰ (id, name) fields
named_sound name [] h = cc
named_sound name ((id, n) ∷ fields) h = elim (Bool-cases (str_eq n name)) [
  | inl q ↦ (id, Memᴰ.head (ap (λ m. (id, m)) (sym ((eq_iff n name).0 q))))
  | inr q ↦ let (j, m) = named_sound name fields (ground (arith, q)) in (j, Memᴰ.tail m)
]

named_complete :
    (id : Uuid) (name : String) (fields : List (Uuid × String))
    → Memᴰ (id, name) fields
    → named name fields ≡ true
named_complete id name [] m = elim m [ ]
named_complete id name ((j, n) ∷ fields) (Memᴰ.head e) =
    let same : name ≡ n = ap (λ p. p.1) e in ground (arith, eq_iff n name)
named_complete id name ((j, n) ∷ fields) (Memᴰ.tail m) =
    ground (arith, named_complete id name fields m)

module _ (W : World) (user : Uuid) (name : String) (fields : List (Uuid × String))
    (db : ListsFields W user fields) where
  any_field_named-ok :
      (some_fields : List (Uuid × String)) (s : State W)
      → ((f : Uuid × String) → Memᴰ f some_fields → Memᴰ f fields)
      → (any_field_named W user name (map (λ f. f.0) some_fields) s).0 ≡ named name some_fields
  unfolding any_field_named
  any_field_named-ok [] s sub = refl
  any_field_named-ok ((id, n) ∷ rest) s sub =
      let read = db.names id n s.ext (sub (id, n) (Memᴰ.head refl)) in
      let s' = (perform W (scan_one (field_name_of user id)) s).1 in
      let more = any_field_named-ok rest s' (λ f m. sub f (Memᴰ.tail m)) in
      ground (arith, read, more)

  -- Whether the name was found, and what was written.
  pub data Unique (before after : List Statement) (r : Result Field) : Type 0 where
    refused :
        (id : Uuid)
        → Memᴰ (id, name) fields
        → r ≡ err (field_already_exists name)
        → after ≡ before
        → Unique before after r
    sent :
        (id : Uuid)
        → ((other : Uuid) → ¬ Memᴰ (other, name) fields)
        → after ≡ insert_field user id name ∷ before
        → Unique before after r

  finish-Unique :
      (found : Bool) (close : Option Error) (before : List Statement) (s : State W)
      → found ≡ named name fields
      → close ≡ none
      → writes s.log ≡ before
      → Unique before
          (writes (finish W user name found close s).1.log)
          (finish W user name found close s).0
  finish-Unique true close before s h c b =
      let (id, m) = named_sound name fields (sym h) in refused id m refl b
  finish-Unique false (some e) before s h c b = absurd (ground arith)
  finish-Unique false none before s h c b =
      sent _ (λ other m. absurd (ground (arith, named_complete other name fields m)))
        (writes-insert_new_field W user name s
          ∙ ap (λ l. insert_field user (World.answer W new_uuid s.ext).0 name ∷ l) b)

  -- A name that the user already has is refused and nothing is written; any other name leads to
  -- exactly one write, the insert of the field.
  pub register_field-Unique :
      (s : State W)
      → Unique
          (writes s.log)
          (writes (register_field W user name s).1.log)
          (register_field W user name s).0
  unfolding register_field
  register_field-Unique s =
      let (iter, s₁) = perform W (iterate (field_ids_of_user user)) s in
      let (found, s₂) = any_field_named W user name iter.rows s₁ in
      finish-Unique found iter.close (writes s.log) s₂
        (ap (λ i. (any_field_named W user name (Iter.rows i) s₁).0) (db.ids s.ext)
          ∙ any_field_named-ok fields s₁ (λ f m. m))
        (ap Iter.close (db.ids s.ext)) (writes-any_field_named W user name iter.rows s₁)
