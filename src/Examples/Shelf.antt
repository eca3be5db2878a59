-- ===== src/Examples/Shelf.antt =====
-- A world whose database keeps the rows of fields and of sensors that it is given.
pub mod Fields
pub mod Sensors
use mathlib.Core.List.{Memᴰ}
use nostradamus_api.Prelude.{
  suc, ◌+◌, ◌<◌, String, ◌≡◌, ◌≢◌, ◌↔◌, refl, ap, sym, subst, ◌∙◌, ◌⊎◌, inl, inr, true, false,
  Option, none, some, List, [], ◌∷◌, arith, ◌&&◌, ◌==◌, ==_iff, Bool-cases, if◌then◌else◌, if-cases,
}
use nostradamus_api.Errors.{gocql_not_found}
use nostradamus_api.Go.Fallible.{Result, ok, err}
use nostradamus_api.World.{World, State}
use nostradamus_api.World.Calls
use nostradamus_api.World.Calls.{Uuid, Call, Reply, Iter, iterate, scan_one, exec, new_uuid}
use nostradamus_api.Db.Fields.Store.{FieldRow, FieldStore, writes_fields}
use nostradamus_api.Db.Sensors.Store.{SensorRow, SensorStore, writes_sensors}
use nostradamus_api.Examples.Desk.{desk, desk_answer}

-- The fields by identifier, and the rows of the sensors.
pub record Shelf : Type 0 where
  pub fields : List (Uuid × Uuid × String)
  pub sensors : List SensorRow

-- The user and the name of a field.
abbrev pub find : Uuid → List (Uuid × Uuid × String) → Option (Uuid × String)
find id [] = none
find id ((j, user, name) ∷ rows) = if j == id then some (user, name) else find id rows

-- An identifier above all that are there.
abbrev pub above : List (Uuid × Uuid × String) → Uuid
above [] = 0
above ((j, _, _) ∷ rows) = suc (j + above rows)

abbrev pub ids_of : List (Uuid × Uuid × String) → List Uuid
ids_of [] = []
ids_of ((j, _, _) ∷ rows) = j ∷ ids_of rows

abbrev found : Option (Uuid × String) → Result (Uuid × String)
found none = err gocql_not_found
found (some r) = ok r

abbrev pub name_for : Uuid → Option (Uuid × String) → Result String
name_for user none = err gocql_not_found
name_for user (some (owner, name)) = if owner == user then ok name else err gocql_not_found

abbrev pub rows_in : Uuid → List SensorRow → List (Uuid × String × String × String)
rows_in field [] = []
rows_in field ((f, id, name, text) ∷ rows) =
    let rest = rows_in field rows in if f == field then (id, name, text, "") ∷ rest else rest

-- The name and the text of the type of a sensor, by its field and its identifier.
abbrev pub find_sensor : Uuid → Uuid → List SensorRow → Option (String × String)
find_sensor field id [] = none
find_sensor field id ((f, j, name, text) ∷ rows) =
    if (f == field) && (j == id) then some (name, text) else find_sensor field id rows

abbrev pub sensor_name : Option (String × String) → Result String
sensor_name none = err gocql_not_found
sensor_name (some (name, _)) = ok name

abbrev pub sensors_above : List SensorRow → Uuid
sensors_above [] = 0
sensors_above ((_, j, _, _) ∷ rows) = suc (j + sensors_above rows)

abbrev pub ids_in : Uuid → List SensorRow → List Uuid
ids_in field [] = []
ids_in field ((f, id, _, _) ∷ rows) =
    let rest = ids_in field rows in if f == field then id ∷ rest else rest

-- The identifiers and the names of a user's fields.
abbrev pub rows_for : Uuid → List (Uuid × Uuid × String) → List Uuid → List (Uuid × String)
rows_for user all [] = []
rows_for user all (id ∷ ids) = elim (name_for user (find id all)) [
  | ok name ↦ (id, name) ∷ rows_for user all ids
  | err _ ↦ rows_for user all ids
]

abbrev reply : (c : Call) → Shelf → Reply c
reply (iterate (Calls.field_ids_of_user user)) x = record { rows = ids_of x.fields; close = none }
reply (iterate (Calls.fields_of_user user)) x = record {
  rows = rows_for user x.fields (ids_of x.fields);
  close = none;
}
reply (iterate (Calls.sensor_ids_of_field field)) x = record {
  rows = ids_in field x.sensors;
  close = none;
}
reply (scan_one (Calls.sensor_name_of field id)) x = sensor_name (find_sensor field id x.sensors)
reply (iterate (Calls.sensors_of_field field)) x = record {
  rows = rows_in field x.sensors;
  close = none;
}
reply (scan_one (Calls.field_by_id id)) x = found (find id x.fields)
reply (scan_one (Calls.field_name_of user id)) x = name_for user (find id x.fields)
reply new_uuid x = above x.fields + sensors_above x.sensors
reply c x = (desk_answer c []).0

abbrev pub next : Call → Shelf → Shelf
next (exec (Calls.insert_field user id name)) x = record x { fields = (id, user, name) ∷ x.fields }
next (exec (Calls.insert_sensor_by_field field id name text)) x = record x {
  sensors = (field, id, name, text) ∷ x.sensors;
}
next _ x = x

abbrev pub shelf : World
shelf = record desk { Ext = Shelf; answer = λ c x. (reply c x, next c x) }

abbrev pub bare : State shelf
bare = record { ext = record { fields = []; sensors = [] }; log = [] }

pub next-fields : (c : Call) (x : Shelf) → writes_fields c ≡ false → (next c x).fields ≡ x.fields
next-fields c x h = ground arith

pub next-sensors :
    (c : Call) (x : Shelf) → writes_sensors c ≡ false → (next c x).sensors ≡ x.sensors
next-sensors c x h = ground arith
