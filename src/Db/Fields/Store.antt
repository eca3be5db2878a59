-- ===== src/Db/Fields/Store.antt =====
-- The table `fields` of Scylla as a set of rows (migrations/000001), and what RegisterField,
-- GetFieldByID and GetFieldsByUserID do to it.
use mathlib.Core.List.{Memᴰ}
use nostradamus_api.Prelude.{String, ◌≡◌, ◌≢◌, ◌↔◌, ◌⊎◌, Bool, true, false, none, some}
use nostradamus_api.Errors.{Error}
use nostradamus_api.Go.Fallible.{ok}
use nostradamus_api.Db.Rows.{Rows, Same, Plus}
use nostradamus_api.World.{World}
use nostradamus_api.World.Calls.{
  Uuid, Call, Iter, iterate, scan_one, exec, new_uuid, insert_field, field_ids_of_user,
  fields_of_user, field_name_of, field_by_id,
}

-- The user, the identifier and the name of a field.
abbrev pub FieldRow : Type 0
FieldRow = Uuid × Uuid × String

-- Does the call write to the table?
abbrev pub writes_fields : Call → Bool
writes_fields (exec (insert_field _ _ _)) = true
writes_fields _ = false

-- A database that answers every read of the table from the rows that it has, in any order. An insert
-- that is answered without an error is applied; of one that is not, it is open.
pub record FieldStore (W : World) : Type 1 where
  pub Has : World.Ext W → Rows FieldRow
  pub keeps :
      (c : Call) (x : World.Ext W)
      → writes_fields c ≡ false
      → Same (Has x) (Has (World.answer W c x).1)
  pub closes :
      (user : Uuid) (x : World.Ext W)
      → Iter.close (World.answer W (iterate (field_ids_of_user user)) x).0 ≡ none
  pub lists :
      (user id : Uuid) (name : String) (x : World.Ext W)
      → Has x (user, id, name)
      → Memᴰ id (Iter.rows (World.answer W (iterate (field_ids_of_user user)) x).0)
  pub closes_rows :
      (user : Uuid) (x : World.Ext W)
      → Iter.close (World.answer W (iterate (fields_of_user user)) x).0 ≡ none
  pub lists_rows :
      (user id : Uuid) (name : String) (x : World.Ext W)
      → Has x (user, id, name)
        ↔ Memᴰ (id, name) (Iter.rows (World.answer W (iterate (fields_of_user user)) x).0)
  pub names :
      (user id : Uuid) (name : String) (x : World.Ext W)
      → Has x (user, id, name) ↔ ((World.answer W (scan_one (field_name_of user id)) x).0 ≡ ok name)
  pub finds :
      (user id : Uuid) (name : String) (x : World.Ext W)
      → Has x (user, id, name)
      → ((g : FieldRow) → Has x g → g.1 ≡ id → g ≡ (user, id, name))
      → (World.answer W (scan_one (field_by_id id)) x).0 ≡ ok (user, name)
  pub inserts :
      (user id : Uuid) (name : String) (x : World.Ext W)
      → ((g : FieldRow) → Has x g → g.1 ≢ id)
      → let (r, x') = World.answer W (exec (insert_field user id name)) x in
        ((r ≡ none) × Plus (user, id, name) (Has x) (Has x'))
        ⊎ ((e : Error) × (r ≡ some e)
            × (Same (Has x) (Has x') ⊎ Plus (user, id, name) (Has x) (Has x')))
  pub fresh : (x : World.Ext W) (g : FieldRow) → Has x g → g.1 ≢ (World.answer W new_uuid x).0
