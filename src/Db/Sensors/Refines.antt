-- ===== src/Db/Sensors/Refines.antt =====
-- RegisterSensor and the set of rows (sensors.go).
use mathlib.Core.List.{Memᴰ}
use nostradamus_api.Prelude.{
  String, ◌≡◌, ◌≢◌, refl, ap, subst, ◌⊎◌, inl, inr, Bool, true, false, none, List, [], ◌∷◌, arith,
  if-cases, Option-cases,
}
use nostradamus_api.Prelude.Int.{ℤ}
use nostradamus_api.Errors.{Error, sensor_already_exists}
use nostradamus_api.Go.Fallible.{Result, ok, err}
use nostradamus_api.Go.Strconv.{decimal_ℤ}
use nostradamus_api.Types.{Sensor}
use nostradamus_api.World.{World, State, perform}
use nostradamus_api.World.Calls.{
  Uuid, iterate, scan_one, exec, new_uuid, insert_sensor_by_field, insert_sensor,
  sensor_ids_of_field, sensor_name_of,
}
use nostradamus_api.Db.Rows.{
  Rows, Same, Plus, Same-trans, Plus-Same, Same-Plus, none_of, reads_name_iff,
}
use nostradamus_api.Db.Sensors.{any_sensor_named, insert_new_sensor, register_sensor, is_named}
use nostradamus_api.Db.Sensors.Laws.{finish, added}
use nostradamus_api.Db.Sensors.Store.{SensorRow, SensorStore}

module _ (W : World) (db : SensorStore W) (field : Uuid) (name : String) (type : ℤ) where
  abbrev pub row_of : Uuid → SensorRow
  row_of id = (field, id, name, decimal_ℤ type)

  -- The field has a sensor of that name under the identifier.
  abbrev pub Named : Rows SensorRow → Uuid → Type 0
  Named R id = (text : String) × R (field, id, name, text)

  -- How a registration ends, and what becomes of the rows.
  pub data Stored (R R' : Rows SensorRow) : Result Sensor → Type 1 where
    refused : (id : Uuid) → Named R id → Same R R' → Stored R R' (err (sensor_already_exists name))
    stored :
        (id : Uuid)
        → ((other : Uuid) → ¬ Named R other)
        → ((g : SensorRow) → R g → g.1 ≢ id)
        → Plus (row_of id) R R'
        → Stored R R' (ok (added W field name type id))
    unsure :
        (e : Error) (id : Uuid)
        → ((other : Uuid) → ¬ Named R other)
        → ((g : SensorRow) → R g → g.1 ≢ id)
        → (Same R R' ⊎ Plus (row_of id) R R')
        → Stored R R' (err e)

  Same-Named : (R R' : Rows SensorRow) (id : Uuid) → Same R R' → Named R' id → Named R id
  Same-Named R R' id same (text, h) = (text, (same _).0 h)

  -- What the loop over the identifiers finds.
  record Looked (ids : List Uuid) (x : World.Ext W) (out : Bool × State W) : Type 0 where
    same : Same (db.Has x) (db.Has out.1.ext)
    taken : out.0 ≡ true → (id : Uuid) × Named (db.Has x) id
    free : out.0 ≡ false → (id : Uuid) → Memᴰ id ids → ¬ Named (db.Has x) id

  any_sensor_named-Looked :
      (ids : List Uuid) (s : State W) → Looked ids s.ext (any_sensor_named W field name ids s)
  unfolding any_sensor_named perform
  any_sensor_named-Looked [] s = record {
    same = λ g. (λ h. h, λ h. h);
    taken = λ e. absurd (ground (arith, e));
    free = λ e id m. elim m [ ];
  }
  any_sensor_named-Looked (id ∷ ids) s =
      let call = scan_one (sensor_name_of field id) in
      let (r, s') = perform W call s in
      let rest = any_sensor_named-Looked ids s' in
      let same = db.keeps call s.ext refl in
      let named = reads_name_iff name r in
      if-cases (Looked (id ∷ ids) s.ext) (is_named W name r)
        (λ q. record {
          same = same;
          taken = λ _. (id, (db.names field id name s.ext).1 (named.0 q));
          free = λ e. absurd (ground (arith, e));
        })
        (λ q. record {
          same = Same-trans same rest.same;
          taken = λ e. let (j, h) = rest.taken e in (j, Same-Named _ _ j same h);
          free = λ e.
              none_of {P = Named (db.Has s.ext)} id ids
                (λ h. absurd (ground (arith, q, named.1 ((db.names field id name s.ext).0 h))))
                (λ j m h. rest.free e j m (h.0, (same _).1 h.1));
        })

  -- What the inserts do, whatever names are there.
  data Added (R R' : Rows SensorRow) : Result Sensor → Type 1 where
    row :
        (id : Uuid)
        → ((g : SensorRow) → R g → g.1 ≢ id)
        → Plus (row_of id) R R'
        → Added R R' (ok (added W field name type id))
    lost :
        (e : Error) (id : Uuid)
        → ((g : SensorRow) → R g → g.1 ≢ id)
        → (Same R R' ⊎ Plus (row_of id) R R')
        → Added R R' (err e)

  insert_new_sensor-Added :
      (R : Rows SensorRow) (s : State W)
      → Same R (db.Has s.ext)
      → let (r, s') = insert_new_sensor W field name type s in Added R (db.Has s'.ext) r
  unfolding insert_new_sensor perform
  insert_new_sensor-Added R s same =
      let (id, s₁) = perform W new_uuid s in
      let first = exec (insert_sensor_by_field field id name (decimal_ℤ type)) in
      let second = exec (insert_sensor id name (decimal_ℤ type)) in
      let s₂ = (perform W first s₁).1 in
      let same₁ = Same-trans same (db.keeps new_uuid s.ext refl) in
      let new : (g : SensorRow) → R g → g.1 ≢ id = λ g h. db.fresh s.ext g ((same g).1 h) in
      let same₃ = db.keeps second s₂.ext refl in
      elim (db.inserts field id name (decimal_ℤ type) s₁.ext (λ g h. new g ((same₁ g).0 h))) [
        | inr (e, q, left) ↦
            rw (q, insert_new_sensor)
              (lost e id new
                (elim left [ inl h ↦ inl (Same-trans same₁ h) | inr h ↦ inr (Plus-Same same₁ h) ]))
        | inl (q, plus) ↦
            let plus' = Same-Plus (Plus-Same same₁ plus) same₃ in
            elim (Option-cases (perform W second s₂).0) [
              | inr (e, q') ↦ rw (q, q', insert_new_sensor) (lost e id new (inr plus'))
              | inl q' ↦ rw (q, q', insert_new_sensor) (row id new plus')
            ]
      ]

  Added-Stored :
      (R R' : Rows SensorRow) (r : Result Sensor)
      → ((other : Uuid) → ¬ Named R other)
      → Added R R' r
      → Stored R R' r
  Added-Stored R R' _ free (row id new plus) = stored id free new plus
  Added-Stored R R' _ free (lost e id new left) = unsure e id free new left

  finish-Stored :
      (R : Rows SensorRow) (found : Bool) (s : State W)
      → Same R (db.Has s.ext)
      → (found ≡ true → (id : Uuid) × Named R id)
      → (found ≡ false → (other : Uuid) → ¬ Named R other)
      → let out = finish W field name type found none s in Stored R (db.Has out.1.ext) out.0
  finish-Stored R true s same taken free = let (id, h) = taken refl in refused id h same
  finish-Stored R false s same taken free =
      Added-Stored R _ _ (free refl) (insert_new_sensor-Added R s same)

  -- RegisterSensor is an insert into the set of rows of `sensors_by_field`: it refuses a name exactly
  -- where the field has a sensor of that name, and then the rows stay as they are; otherwise a
  -- success adds exactly the row of the returned sensor with the decimal text of its type, under an
  -- identifier that no row had, and an error either adds that row or nothing.
  pub register_sensor-Stored :
      (s : State W)
      → Stored
          (db.Has s.ext)
          (db.Has (register_sensor W field name type s).1.ext)
          (register_sensor W field name type s).0
  unfolding register_sensor perform
  register_sensor-Stored s =
      let call = iterate (sensor_ids_of_field field) in
      let (iter, s₁) = perform W call s in
      let looked = any_sensor_named-Looked iter.rows s₁ in
      let (found, s₂) = any_sensor_named W field name iter.rows s₁ in
      let same = db.keeps call s.ext refl in
      rw (db.closes_ids field s.ext) (
        finish-Stored (db.Has s.ext) found s₂ (Same-trans same looked.same)
          (λ e. let (id, h) = looked.taken e in (id, Same-Named _ _ id same h))
          (λ e id h.
            looked.free e id (db.lists_ids field id name h.0 s.ext h.1) (h.0, (same _).1 h.1)))

  id_or : Uuid → Result Sensor → Uuid
  id_or d (ok sensor) = sensor.sensor_id
  id_or d (err e) = d

  -- The row of a sensor that was returned is there.
  pub Stored-Has :
      (R R' : Rows SensorRow) (r : Result Sensor) (sensor : Sensor)
      → Stored R R' r
      → r ≡ ok sensor
      → R' (row_of sensor.sensor_id)
  unfolding id_or
  Stored-Has R R' _ sensor (refused id h same) e = absurd (ground (arith, e))
  Stored-Has R R' _ sensor (unsure e' id free new left) e = absurd (ground (arith, e))
  Stored-Has R R' _ sensor (stored id free new plus) e =
      subst (λ i. R' (row_of i)) (ap (id_or id) e) ((plus _).1 (inr refl))
