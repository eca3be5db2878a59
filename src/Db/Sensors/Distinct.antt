-- ===== src/Db/Sensors/Distinct.antt =====
-- RegisterSensor on rows without a repeat (sensors.go).
use nostradamus_api.Prelude.{String, ◌≢◌, subst, inl, inr}
use nostradamus_api.Prelude.Int.{ℤ}
use nostradamus_api.Go.Fallible.{Result}
use nostradamus_api.Types.{Sensor}
use nostradamus_api.World.{World, State}
use nostradamus_api.World.Calls.{Uuid}
use nostradamus_api.Db.Rows.{Rows, Same, Plus, Tells, Same-Tells, Plus-Tells}
use nostradamus_api.Db.Sensors.{register_sensor}
use nostradamus_api.Db.Sensors.Store.{SensorRow, SensorStore}
use nostradamus_api.Db.Sensors.Refines.{
  Named, row_of, Stored, refused, stored, unsure, register_sensor-Stored,
}

-- The field and the name of a sensor, and its identifier.
abbrev name_key : SensorRow → Uuid × String
name_key g = (g.0, g.2)

abbrev id_key : SensorRow → Uuid
id_key g = g.1

-- No field has two sensors of one name, and no identifier stands in two rows.
pub record IsDistinct (R : Rows SensorRow) : Type 0 where
  pub one_of_name : Tells name_key R
  pub one_of_id : Tells id_key R

pub Same-IsDistinct : (R R' : Rows SensorRow) → Same R R' → IsDistinct R → IsDistinct R'
Same-IsDistinct R R' same d = record {
  one_of_name = Same-Tells name_key R R' same d.one_of_name;
  one_of_id = Same-Tells id_key R R' same d.one_of_id;
}

module _ (W : World) (db : SensorStore W) (field : Uuid) (name : String) (type : ℤ) where
  Plus-IsDistinct :
      (id : Uuid) (R R' : Rows SensorRow)
      → ((other : Uuid) → ¬ Named W db field name type R other)
      → ((g : SensorRow) → R g → g.1 ≢ id)
      → Plus (row_of W db field name type id) R R'
      → IsDistinct R
      → IsDistinct R'
  Plus-IsDistinct id R R' free new plus d = record {
    one_of_name =
        Plus-Tells name_key (row_of W db field name type id) R R'
          (λ g h e. free g.1 (g.3, subst (λ k. R (k.0, g.1, k.1, g.3)) e h)) plus d.one_of_name;
    one_of_id = Plus-Tells id_key (row_of W db field name type id) R R' new plus d.one_of_id;
  }

  Stored-IsDistinct :
      (R R' : Rows SensorRow) (r : Result Sensor)
      → Stored W db field name type R R' r
      → IsDistinct R
      → IsDistinct R'
  Stored-IsDistinct R R' _ (refused id h same) d = Same-IsDistinct R R' same d
  Stored-IsDistinct R R' _ (stored id free new plus) d = Plus-IsDistinct id R R' free new plus d
  Stored-IsDistinct R R' _ (unsure e id free new left) d = elim left [
    | inl same ↦ Same-IsDistinct R R' same d
    | inr plus ↦ Plus-IsDistinct id R R' free new plus d
  ]

  -- Whatever RegisterSensor answers, it leaves the names of each field's sensors and the identifiers
  -- without a repeat, where they had none.
  pub register_sensor-IsDistinct :
      (s : State W)
      → IsDistinct (db.Has s.ext)
      → IsDistinct (db.Has (register_sensor W field name type s).1.ext)
  register_sensor-IsDistinct s =
      Stored-IsDistinct _ _ _ (register_sensor-Stored W db field name type s)
