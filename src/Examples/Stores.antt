-- ===== src/Examples/Stores.antt =====
-- Registrations on the shelf, one after the other.
use nostradamus_api.Prelude.Int.{pos}
use nostradamus_api.Prelude.{◌≡◌, ◌≢◌, refl, some, arith}
use nostradamus_api.Prelude.Int.{negsuc}
use nostradamus_api.Go.Fallible.{ok}
use nostradamus_api.Types.{Field}
use nostradamus_api.World.{State, perform}
use nostradamus_api.Db.Fields.{
  get_fields_by_user_id, register_field, get_field_by_id, insert_new_field, any_field_named,
}
use nostradamus_api.Db.Fields.Laws.{added}
use nostradamus_api.Db.Fields.Store.{FieldStore}
use nostradamus_api.Db.Fields.Refines.{Stored, register_field-Stored}
use nostradamus_api.Db.Fields.Distinct.{
  IsDistinct, register_field-IsDistinct, get_field_by_id-register_field,
}
use nostradamus_api.Db.Fields.Race.{interleaved, interleaved-twice}
use nostradamus_api.Db.Sensors.{
  register_sensor, any_sensor_named, get_sensors_by_field_id, insert_new_sensor,
}
use nostradamus_api.Db.Sensors.Store.{SensorStore}
use nostradamus_api.Db.Sensors.Refines.{Stored as StoredSensor, register_sensor-Stored}
use nostradamus_api.Db.Fields.Listed.{OneMore, get_fields_by_user_id-register_field}
use nostradamus_api.Db.Sensors.Listed.{Lists, get_sensors_by_field_id-register_sensor, read_as}
use nostradamus_api.Examples.Shelf.{shelf, bare}
use nostradamus_api.Examples.Shelf.Fields.{shelf_fields}
use nostradamus_api.Examples.Shelf.Sensors.{shelf_sensors}

-- A user with one field.
abbrev one_field : State shelf
one_field = (register_field shelf 7 "North" bare).1

register_field-Stored_example :
    Stored shelf shelf_fields 7 "South"
      (FieldStore.Has shelf_fields one_field.ext)
      (FieldStore.Has shelf_fields (register_field shelf 7 "South" one_field).1.ext)
      (register_field shelf 7 "South" one_field).0
register_field-Stored_example = register_field-Stored shelf shelf_fields 7 "South" one_field

bare-IsDistinct : IsDistinct (FieldStore.Has shelf_fields bare.ext)
unfolding shelf_fields
bare-IsDistinct = record {
  one_of_name = λ g g' h. absurd (ground (arith, h));
  one_of_id = λ g h a b same. absurd (ground (arith, a));
}

register_field-IsDistinct_example :
    IsDistinct (FieldStore.Has shelf_fields (register_field shelf 7 "North" bare).1.ext)
register_field-IsDistinct_example =
    register_field-IsDistinct shelf shelf_fields 7 "North" bare bare-IsDistinct

abbrev north : Field
north = added shelf 7 "North" 0

get_field_by_id-register_field_example :
    (get_field_by_id shelf 0 (register_field shelf 7 "North" bare).1).0 ≡ ok (some north)
unfolding register_field any_field_named insert_new_field perform
get_field_by_id-register_field_example =
    get_field_by_id-register_field shelf shelf_fields 7 "North" bare north refl

get_fields_by_user_id-register_field_example :
    OneMore shelf shelf_fields 7 north
      (get_fields_by_user_id shelf 7 bare).0
      (get_fields_by_user_id shelf 7 (register_field shelf 7 "North" bare).1).0
unfolding register_field any_field_named insert_new_field perform
get_fields_by_user_id-register_field_example =
    get_fields_by_user_id-register_field shelf shelf_fields 7 "North" bare north refl

get_sensors_by_field_id-register_sensor_example :
    Lists shelf shelf_sensors 5 "probe"
      (negsuc 1)
      (read_as 0 "probe" (negsuc 1))
      (get_sensors_by_field_id shelf 5 (register_sensor shelf 5 "probe" (negsuc 1) bare).1).0
unfolding register_sensor insert_new_sensor any_sensor_named perform
get_sensors_by_field_id-register_sensor_example =
    get_sensors_by_field_id-register_sensor shelf shelf_sensors 5 "probe" (negsuc 1) bare
      (read_as 0 "probe" (negsuc 1)) (omega arith, omega arith) refl

-- A second registration of "North" between the check and the insert of the first.
interleaved-twice_example :
    let x = (interleaved shelf shelf_fields 7 "North" bare).1.ext in
    (added shelf 7 "North" 1).field_id ≢ (added shelf 7 "North" 0).field_id
    × FieldStore.Has shelf_fields x (7, 1, "North")
    × FieldStore.Has shelf_fields x (7, 0, "North")
unfolding register_field any_field_named insert_new_field perform
interleaved-twice_example =
    interleaved-twice shelf shelf_fields 7 "North" bare (added shelf 7 "North" 1) north refl

register_sensor-Stored_example :
    StoredSensor shelf shelf_sensors 7 "thermometer"
      (pos 0)
      (SensorStore.Has shelf_sensors bare.ext)
      (SensorStore.Has shelf_sensors (register_sensor shelf 7 "thermometer" (pos 0) bare).1.ext)
      (register_sensor shelf 7 "thermometer" (pos 0) bare).0
register_sensor-Stored_example =
    register_sensor-Stored shelf shelf_sensors 7 "thermometer" (pos 0) bare
