-- ===== src/Db/Fields.antt =====
-- internal/db/fields.go
pub mod Laws
pub mod Store
pub mod Refines
pub mod Distinct
pub mod Race
pub mod Listed
use nostradamus_api.Prelude.{
  String, Bool, true, false, Option, none, some, List, [], ◌∷◌, map, str_eq,
}
use nostradamus_api.Prelude.{if◌then◌else◌}
use nostradamus_api.Errors.{Error, field_already_exists, is_gocql_not_found}
use nostradamus_api.Go.Fallible.{
  Result, ok, err, Fallible, pure, fail, lift, run, check, result_of_error, ◌>>=◌, ◌>>◌,
}
use nostradamus_api.Go.Io.{Io}
use nostradamus_api.Go.Json.{appended}
use nostradamus_api.Types.{Field}
use nostradamus_api.World.{World, State, perform}
use nostradamus_api.World.Calls.{
  Uuid, Iter, iterate, scan_one, exec, new_uuid, fields_of_user, field_by_id, field_ids_of_user,
  field_name_of, insert_field,
}

abbrev pub owned : Uuid → Uuid × String → Field
owned user (id, name) = record { field_id = id; field_name = name; user_id = some user }

module _ (W : World) where
  -- `GetFieldsByUserID`
  unfoldable pub get_fields_by_user_id : Uuid → Fallible (State W) (Option (List Field))
  unfolding perform
  get_fields_by_user_id user = do
    iter ← run (perform W (iterate (fields_of_user user)))
    lift (result_of_error iter.close)
    pure (appended (map (owned user) iter.rows))

  abbrev found_field : Uuid → Result (Uuid × String) → Result (Option Field)
  found_field id (ok (user, name)) =
      ok (some (record { field_id = id; field_name = name; user_id = some user }))
  found_field id (err e) = if is_gocql_not_found e then ok none else err e

  -- `GetFieldByID`: a nil field and no error where there is none.
  unfoldable pub get_field_by_id : Uuid → Fallible (State W) (Option Field)
  unfolding perform is_gocql_not_found
  get_field_by_id id s =
      let (r, s') = perform W (scan_one (field_by_id id)) s in (found_field id r, s')

  -- `err == nil && existingName == name`
  abbrev pub is_named : String → Result String → Bool
  is_named name (ok existing) = str_eq existing name
  is_named name (err _) = false

  -- The loop of `RegisterField` over the user's fields: `true` where one has the name already.
  unfoldable pub any_field_named : Uuid → String → List Uuid → Io (State W) Bool
  unfolding perform
  any_field_named user name [] s = (false, s)
  any_field_named user name (id ∷ ids) s =
      let (r, s') = perform W (scan_one (field_name_of user id)) s in
      let rest = any_field_named user name ids s' in if is_named name r then (true, s') else rest

  -- The part behind the loop, for a name that was not found.
  unfoldable pub insert_new_field : Uuid → String → Fallible (State W) Field
  unfolding perform
  insert_new_field user name = do
    id ← run (perform W new_uuid)
    check (perform W (exec (insert_field user id name)))
    pure (record { field_id = id; field_name = name; user_id = some user })

  -- `RegisterField`. The iteration is closed only where the loop ran to its end.
  unfoldable pub register_field : Uuid → String → Fallible (State W) Field
  unfolding perform
  register_field user name = do
    iter ← run (perform W (iterate (field_ids_of_user user)))
    taken ← run (any_field_named user name iter.rows)
    if taken
        then fail (field_already_exists name)
        else do lift (result_of_error iter.close); insert_new_field user name
