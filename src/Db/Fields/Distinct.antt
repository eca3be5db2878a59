-- ===== src/Db/Fields/Distinct.antt =====
-- RegisterField on rows without a repeat, and GetFieldByID behind it (fields.go).
use nostradamus_api.Prelude.{String, ◌≡◌, ◌≢◌, refl, ap, subst, inl, inr, some, arith}
use nostradamus_api.Go.Fallible.{Result, ok, err}
use nostradamus_api.Types.{Field}
use nostradamus_api.World.{World, State, perform}
use nostradamus_api.World.Calls.{Uuid}
use nostradamus_api.Db.Fields.{register_field, get_field_by_id}
use nostradamus_api.Db.Fields.Laws.{added}
use nostradamus_api.Db.Fields.Store.{FieldRow, FieldStore}
use nostradamus_api.Db.Rows.{Rows, Same, Plus, Tells, Same-Tells, Plus-Tells}
use nostradamus_api.Db.Fields.Refines.{Stored, refused, stored, unsure, register_field-Stored}

-- The user and the name of a field, and its identifier.
abbrev name_key : FieldRow → Uuid × String
name_key g = (g.0, g.2)

abbrev id_key : FieldRow → Uuid
id_key g = g.1

-- No user has two fields of one name, and no identifier stands in two rows.
pub record IsDistinct (R : Rows FieldRow) : Type 0 where
  pub one_of_name : Tells name_key R
  pub one_of_id : Tells id_key R

pub Same-IsDistinct : (R R' : Rows FieldRow) → Same R R' → IsDistinct R → IsDistinct R'
Same-IsDistinct R R' same d = record {
  one_of_name = Same-Tells name_key R R' same d.one_of_name;
  one_of_id = Same-Tells id_key R R' same d.one_of_id;
}

Plus-IsDistinct :
    (user id : Uuid) (name : String) (R R' : Rows FieldRow)
    → ((other : Uuid) → ¬ R (user, other, name))
    → ((g : FieldRow) → R g → g.1 ≢ id)
    → Plus (user, id, name) R R'
    → IsDistinct R
    → IsDistinct R'
Plus-IsDistinct user id name R R' free new plus d = record {
  one_of_name =
      Plus-Tells name_key (user, id, name) R R'
        (λ g h e. free g.1 (subst (λ k. R (k.0, g.1, k.1)) e h)) plus d.one_of_name;
  one_of_id = Plus-Tells id_key (user, id, name) R R' new plus d.one_of_id;
}

module _ (W : World) (db : FieldStore W) (user : Uuid) (name : String) where
  Stored-IsDistinct :
      (R R' : Rows FieldRow) (r : Result Field)
      → Stored W db user name R R' r
      → IsDistinct R
      → IsDistinct R'
  Stored-IsDistinct R R' _ (refused id h same) d = Same-IsDistinct R R' same d
  Stored-IsDistinct R R' _ (stored id free new plus) d =
      Plus-IsDistinct user id name R R' free new plus d
  Stored-IsDistinct R R' _ (unsure e id free new left) d = elim left [
    | inl same ↦ Same-IsDistinct R R' same d
    | inr plus ↦ Plus-IsDistinct user id name R R' free new plus d
  ]

  -- Whatever RegisterField answers, it leaves the names of each user's fields and the identifiers
  -- without a repeat, where they had none.
  pub register_field-IsDistinct :
      (s : State W)
      → IsDistinct (db.Has s.ext)
      → IsDistinct (db.Has (register_field W user name s).1.ext)
  register_field-IsDistinct s = Stored-IsDistinct _ _ _ (register_field-Stored W db user name s)

  field_or : Field → Result Field → Field
  field_or f (ok g) = g
  field_or f (err e) = f

  Stored-finds :
      (R : Rows FieldRow) (s : State W) (r : Result Field) (f : Field)
      → Stored W db user name R (db.Has s.ext) r
      → r ≡ ok f
      → (get_field_by_id W f.field_id s).0 ≡ ok (some f)
  unfolding field_or get_field_by_id perform
  Stored-finds R s _ f (refused id h same) e = absurd (ground (arith, e))
  Stored-finds R s _ f (unsure e' id free new left) e = absurd (ground (arith, e))
  Stored-finds R s _ f (stored id free new plus) e =
      let mine : added W user name id ≡ f = ap (field_or f) e in
      let found =
        db.finds user id name s.ext ((plus _).1 (inr refl)) (λ g h same. elim ((plus g).0 h) [
          | inl old ↦ absurd (new g old same)
          | inr this ↦ this
        ]) in
      subst (λ f. (get_field_by_id W f.field_id s).0 ≡ ok (some f)) mine (rw found refl)

  -- The field that RegisterField returned is what GetFieldByID finds under its identifier.
  pub get_field_by_id-register_field :
      (s : State W) (f : Field)
      → (register_field W user name s).0 ≡ ok f
      → (get_field_by_id W f.field_id (register_field W user name s).1).0 ≡ ok (some f)
  get_field_by_id-register_field s f = Stored-finds _ _ _ f (register_field-Stored W db user name s)
