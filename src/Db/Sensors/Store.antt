-- ===== src/Db/Sensors/Store.antt =====
-- The table `sensors_by_field` of Scylla as a set of rows (migrations/000003), and what
-- RegisterSensor, StoreSensorCredentials and GetSensorsByFieldID do to it (sensors.go).
use mathlib.Core.List.{Memᴰ}
use nostradamus_api.Prelude.{String, ◌≡◌, ◌≢◌, ◌↔◌, ◌⊎◌, Bool, true, false, none, some}
use nostradamus_api.Errors.{Error}
use nostradamus_api.Go.Fallible.{ok}
use nostradamus_api.World.{World}
use nostradamus_api.World.Calls.{
  Uuid, Call, Iter, iterate, scan_one, exec, new_uuid, insert_sensor_by_field, update_credentials,
  sensors_of_field, sensor_ids_of_field, sensor_name_of,
}
use nostradamus_api.Db.Rows.{Rows, Same, Plus}

-- The field, the identifier, the name and the text of the type of a sensor.
abbrev pub SensorRow : Type 0
SensorRow = Uuid × Uuid × String × String

-- Does the call write to the table?
abbrev pub writes_sensors : Call → Bool
writes_sensors (exec (insert_sensor_by_field _ _ _ _)) = true
writes_sensors (exec (update_credentials _ _ _ _)) = true
writes_sensors _ = false

-- A database that answers every read of the table from the rows that it has, in any order. An insert
-- that is answered without an error is applied; of one that is not, it is open. The credentials
-- of a row that is there are none of the columns of the set.
pub record SensorStore (W : World) : Type 1 where
  pub Has : World.Ext W → Rows SensorRow
  pub keeps :
      (c : Call) (x : World.Ext W)
      → writes_sensors c ≡ false
      → Same (Has x) (Has (World.answer W c x).1)
  pub lists_ids :
      (field id : Uuid) (name text : String) (x : World.Ext W)
      → Has x (field, id, name, text)
      → Memᴰ id (Iter.rows (World.answer W (iterate (sensor_ids_of_field field)) x).0)
  pub closes_ids :
      (field : Uuid) (x : World.Ext W)
      → Iter.close (World.answer W (iterate (sensor_ids_of_field field)) x).0 ≡ none
  pub names :
      (field id : Uuid) (name : String) (x : World.Ext W)
      → ((text : String) × Has x (field, id, name, text))
        ↔ ((World.answer W (scan_one (sensor_name_of field id)) x).0 ≡ ok name)
  pub inserts :
      (field id : Uuid) (name text : String) (x : World.Ext W)
      → ((g : SensorRow) → Has x g → g.1 ≢ id)
      → let (r, x') = World.answer W (exec (insert_sensor_by_field field id name text)) x in
        ((r ≡ none) × Plus (field, id, name, text) (Has x) (Has x'))
        ⊎ ((e : Error) × (r ≡ some e)
            × (Same (Has x) (Has x') ⊎ Plus (field, id, name, text) (Has x) (Has x')))
  pub updates :
      (user pass : String) (field id : Uuid) (name text : String) (x : World.Ext W)
      → Has x (field, id, name, text)
      → Same (Has x) (Has (World.answer W (exec (update_credentials user pass field id)) x).1)
  pub fresh : (x : World.Ext W) (g : SensorRow) → Has x g → g.1 ≢ (World.answer W new_uuid x).0
  pub closes :
      (field : Uuid) (x : World.Ext W)
      → Iter.close (World.answer W (iterate (sensors_of_field field)) x).0 ≡ none
  pub lists :
      (field id : Uuid) (name text : String) (x : World.Ext W)
      → Has x (field, id, name, text)
      → (field_name : String) × Memᴰ
          (id, name, text, field_name)
          (Iter.rows (World.answer W (iterate (sensors_of_field field)) x).0)
