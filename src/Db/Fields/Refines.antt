-- ===== src/Db/Fields/Refines.antt =====
-- RegisterField and the set of rows (fields.go).
use mathlib.Core.List.{Memᴰ}
use nostradamus_api.Prelude.{
  String, ◌≡◌, ◌≢◌, refl, ◌⊎◌, inl, inr, Bool, true, false, none, List, [], ◌∷◌, arith, if-cases,
}
use nostradamus_api.Errors.{Error, field_already_exists}
use nostradamus_api.Go.Fallible.{Result, ok, err}
use nostradamus_api.Types.{Field}
use nostradamus_api.World.{World, State, perform}
use nostradamus_api.World.Calls.{
  Uuid, iterate, scan_one, new_uuid, field_ids_of_user, field_name_of,
}
use nostradamus_api.Db.Fields.{any_field_named, insert_new_field, register_field, is_named}
use nostradamus_api.Db.Fields.Laws.{finish, added}
use nostradamus_api.Db.Rows.{Rows, Same, Plus, Same-trans, Plus-Same, none_of, reads_name_iff}
use nostradamus_api.Db.Fields.Store.{FieldRow, FieldStore}

module _ (W : World) (db : FieldStore W) (user : Uuid) (name : String) where
  -- How a registration ends, and what becomes of the rows.
  pub data Stored (R R' : Rows FieldRow) : Result Field → Type 1 where
    refused :
        (id : Uuid) → R (user, id, name) → Same R R' → Stored R R' (err (field_already_exists name))
    stored :
        (id : Uuid)
        → ((other : Uuid) → ¬ R (user, other, name))
        → ((g : FieldRow) → R g → g.1 ≢ id)
        → Plus (user, id, name) R R'
        → Stored R R' (ok (added W user name id))
    unsure :
        (e : Error) (id : Uuid)
        → ((other : Uuid) → ¬ R (user, other, name))
        → ((g : FieldRow) → R g → g.1 ≢ id)
        → (Same R R' ⊎ Plus (user, id, name) R R')
        → Stored R R' (err e)

  -- What the loop over the identifiers finds.
  record Looked (ids : List Uuid) (x : World.Ext W) (out : Bool × State W) : Type 0 where
    same : Same (db.Has x) (db.Has out.1.ext)
    taken : out.0 ≡ true → (id : Uuid) × db.Has x (user, id, name)
    free : out.0 ≡ false → (id : Uuid) → Memᴰ id ids → ¬ db.Has x (user, id, name)

  any_field_named-Looked :
      (ids : List Uuid) (s : State W) → Looked ids s.ext (any_field_named W user name ids s)
  unfolding any_field_named perform
  any_field_named-Looked [] s = record {
    same = λ g. (λ h. h, λ h. h);
    taken = λ e. absurd (ground (arith, e));
    free = λ e id m. elim m [ ];
  }
  any_field_named-Looked (id ∷ ids) s =
      let call = scan_one (field_name_of user id) in
      let (r, s') = perform W call s in
      let rest = any_field_named-Looked ids s' in
      let same = db.keeps call s.ext refl in
      let named = reads_name_iff name r in
      if-cases (Looked (id ∷ ids) s.ext) (is_named W name r)
        (λ q. record {
          same = same;
          taken = λ _. (id, (db.names user id name s.ext).1 (named.0 q));
          free = λ e. absurd (ground (arith, e));
        })
        (λ q. record {
          same = Same-trans same rest.same;
          taken = λ e. let (j, h) = rest.taken e in (j, (same (user, j, name)).0 h);
          free = λ e.
              none_of {P = λ j. db.Has s.ext (user, j, name)} id ids
                (λ h. absurd (ground (arith, q, named.1 ((db.names user id name s.ext).0 h))))
                (λ j m h. rest.free e j m ((same (user, j, name)).1 h));
        })

  -- What the insert does, whatever names are there.
  pub data Added (R R' : Rows FieldRow) : Result Field → Type 1 where
    row :
        (id : Uuid)
        → ((g : FieldRow) → R g → g.1 ≢ id)
        → Plus (user, id, name) R R'
        → Added R R' (ok (added W user name id))
    lost :
        (e : Error) (id : Uuid)
        → ((g : FieldRow) → R g → g.1 ≢ id)
        → (Same R R' ⊎ Plus (user, id, name) R R')
        → Added R R' (err e)

  pub insert_new_field-Added :
      (R : Rows FieldRow) (s : State W)
      → Same R (db.Has s.ext)
      → let (r, s') = insert_new_field W user name s in Added R (db.Has s'.ext) r
  unfolding insert_new_field perform
  insert_new_field-Added R s same =
      let (id, s₁) = perform W new_uuid s in
      let same₁ = Same-trans same (db.keeps new_uuid s.ext refl) in
      let new : (g : FieldRow) → R g → g.1 ≢ id = λ g h. db.fresh s.ext g ((same g).1 h) in
      elim (db.inserts user id name s₁.ext (λ g h. new g ((same₁ g).0 h))) [
        | inl (q, plus) ↦ rw (q, insert_new_field) (row id new (Plus-Same same₁ plus))
        | inr (e, q, left) ↦
            rw (q, insert_new_field)
              (lost e id new
                (elim left [ inl h ↦ inl (Same-trans same₁ h) | inr h ↦ inr (Plus-Same same₁ h) ]))
      ]

  Added-Stored :
      (R R' : Rows FieldRow) (r : Result Field)
      → ((other : Uuid) → ¬ R (user, other, name))
      → Added R R' r
      → Stored R R' r
  Added-Stored R R' _ free (row id new plus) = stored id free new plus
  Added-Stored R R' _ free (lost e id new left) = unsure e id free new left

  finish-Stored :
      (R : Rows FieldRow) (found : Bool) (s : State W)
      → Same R (db.Has s.ext)
      → (found ≡ true → (id : Uuid) × R (user, id, name))
      → (found ≡ false → (other : Uuid) → ¬ R (user, other, name))
      → let out = finish W user name found none s in Stored R (db.Has out.1.ext) out.0
  finish-Stored R true s same taken free = let (id, h) = taken refl in refused id h same
  finish-Stored R false s same taken free =
      Added-Stored R _ _ (free refl) (insert_new_field-Added R s same)

  -- RegisterField is an insert into the set of rows: it refuses a name exactly where the user has a
  -- field of that name, and then the rows stay as they are; otherwise a success adds exactly the row
  -- of the returned field, under an identifier that no row had, and an error either adds that row or
  -- nothing.
  pub register_field-Stored :
      (s : State W)
      → Stored
          (db.Has s.ext)
          (db.Has (register_field W user name s).1.ext)
          (register_field W user name s).0
  unfolding register_field perform
  register_field-Stored s =
      let call = iterate (field_ids_of_user user) in
      let (iter, s₁) = perform W call s in
      let looked = any_field_named-Looked iter.rows s₁ in
      let (found, s₂) = any_field_named W user name iter.rows s₁ in
      let same = db.keeps call s.ext refl in
      rw (db.closes user s.ext) (
        finish-Stored (db.Has s.ext) found s₂ (Same-trans same looked.same)
          (λ e. let (id, h) = looked.taken e in (id, (same (user, id, name)).0 h))
          (λ e id h.
            looked.free e id (db.lists user id name s.ext h) ((same (user, id, name)).1 h)))
