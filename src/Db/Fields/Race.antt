-- ===== src/Db/Fields/Race.antt =====
-- Two registrations of one name at the same time: RegisterField looks for the name and inserts the
-- field in separate statements, and nothing holds the table in between.
use nostradamus_api.Prelude.{
  String, ◌≡◌, ◌≢◌, refl, ap, sym, subst, inl, inr, Bool, true, false, Option, none, some, arith,
}
use nostradamus_api.Errors.{Error}
use nostradamus_api.Go.Fallible.{Result, ok, err}
use nostradamus_api.Types.{Field}
use nostradamus_api.World.{World, State, perform}
use nostradamus_api.World.Calls.{Uuid, iterate, field_ids_of_user}
use nostradamus_api.Db.Fields.{any_field_named, register_field}
use nostradamus_api.Db.Fields.Laws.{finish}
use nostradamus_api.Db.Fields.Store.{FieldRow, FieldStore}
use nostradamus_api.Db.Rows.{Rows}
use nostradamus_api.Db.Fields.Refines.{
  Stored, refused, stored, unsure, register_field-Stored, Added, row, lost, insert_new_field-Added,
}

module _ (W : World) (db : FieldStore W) (user : Uuid) (name : String) where
  -- The first registration up to its insert: whether the name was found, how the read was closed.
  abbrev pub checked : State W → (Bool × Option Error) × State W
  checked s =
      let (iter, s₁) = perform W (iterate (field_ids_of_user user)) s in
      let (found, s₂) = any_field_named W user name iter.rows s₁ in ((found, iter.close), s₂)

  -- The whole of a second one runs there; then the first goes on.
  abbrev pub interleaved : State W → (Result Field × Result Field) × State W
  interleaved s =
      let ((found, close), s₂) = checked s in
      let (second, s₃) = register_field W user name s₂ in
      let (first, s₄) = finish W user name found close s₃ in ((first, second), s₄)

  id_or : Uuid → Result Field → Uuid
  id_or d (ok f) = f.field_id
  id_or d (err e) = d

  Stored-Has :
      (R R' : Rows FieldRow) (r : Result Field) (f : Field)
      → Stored W db user name R R' r
      → r ≡ ok f
      → R' (user, f.field_id, name)
  unfolding id_or
  Stored-Has R R' _ f (refused id h same) e = absurd (ground (arith, e))
  Stored-Has R R' _ f (unsure e' id free new left) e = absurd (ground (arith, e))
  Stored-Has R R' _ f (stored id free new plus) e =
      subst (λ i. R' (user, i, name)) (ap (id_or id) e) ((plus _).1 (inr refl))

  Added-Has :
      (R R' : Rows FieldRow) (r : Result Field) (f : Field) (old : FieldRow)
      → Added W db user name R R' r
      → r ≡ ok f
      → R old
      → R' (user, f.field_id, name) × R' old × (old.1 ≢ f.field_id)
  unfolding id_or
  Added-Has R R' _ f old (lost e' id new left) e h = absurd (ground (arith, e))
  Added-Has R R' _ f old (row id new plus) e h =
      subst (λ i. R' (user, i, name) × R' old × (old.1 ≢ i)) (ap (id_or id) e)
        ((plus _).1 (inr refl), (plus old).1 (inl h), new old h)

  finish-Has :
      (found : Bool) (close : Option Error) (s : State W) (f : Field) (old : FieldRow)
      → (finish W user name found close s).0 ≡ ok f
      → db.Has s.ext old
      → let x = (finish W user name found close s).1.ext in
        db.Has x (user, f.field_id, name) × db.Has x old × (old.1 ≢ f.field_id)
  finish-Has true close s f old e h = absurd (ground (arith, e))
  finish-Has false (some e') s f old e h = absurd (ground (arith, e))
  finish-Has false none s f old e h =
      Added-Has _ _ _ f old (insert_new_field-Added W db user name _ s (λ g. (λ a. a, λ a. a))) e h

  -- Where a second registration of the same name runs between the check and the insert of the first,
  -- and both succeed, the user has two fields of that name afterwards.
  pub interleaved-twice :
      (s : State W) (f g : Field)
      → (interleaved s).0 ≡ (ok f, ok g)
      → let x = (interleaved s).1.ext in
        (f.field_id ≢ g.field_id)
        × db.Has x (user, f.field_id, name)
        × db.Has x (user, g.field_id, name)
  interleaved-twice s f g e =
      let ((found, close), s₂) = checked s in
      let s₃ = (register_field W user name s₂).1 in
      let second = Stored-Has _ _ _ g (register_field-Stored W db user name s₂) (ap (λ r. r.1) e) in
      let (a, b, c) =
        finish-Has found close s₃ f (user, g.field_id, name) (ap (λ r. r.0) e) second in
      (λ q. c (sym q), a, b)
