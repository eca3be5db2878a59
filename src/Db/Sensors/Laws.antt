-- ===== src/Db/Sensors/Laws.antt =====
-- What `RegisterSensor` writes, and what `GetSensorCredentials` tells of an unknown sensor.
use nostradamus_api.Prelude.{
  String, ◌≡◌, refl, ap, inl, inr, Bool, true, false, Option, none, some, List, [], ◌∷◌,
  if◌then◌else◌, Bool-cases, Option-cases,
}
use nostradamus_api.Prelude.Int.{ℤ}
use nostradamus_api.Errors.{Error, sensor_already_exists}
use nostradamus_api.Go.Fallible.{Result, ok, err, lift, fail, result_of_error, ◌>>◌}
use nostradamus_api.Go.Strconv.{decimal_ℤ}
use nostradamus_api.Types.{Sensor}
use nostradamus_api.World.{World, State, perform}
use nostradamus_api.World.Calls.{
  Uuid, Statement, Iter, iterate, scan_one, exec, new_uuid, insert_sensor_by_field, insert_sensor,
  sensor_ids_of_field, sensor_name_of,
}
use nostradamus_api.World.Trace.{answered_writes}
use nostradamus_api.Db.Sensors.{any_sensor_named, insert_new_sensor, register_sensor, is_named}

module _ (W : World) (field : Uuid) (name : String) (type : ℤ) where
  answered_writes-any_sensor_named :
      (ids : List Uuid) (s : State W)
      → answered_writes (any_sensor_named W field name ids s).1.log ≡ answered_writes s.log
  unfolding any_sensor_named
  answered_writes-any_sensor_named [] s = refl
  answered_writes-any_sensor_named (id ∷ ids) s =
      let (r, s') = perform W (scan_one (sensor_name_of field id)) s in
      elim (Bool-cases (is_named W name r)) [
        | inl q ↦ rw (q, any_sensor_named) refl
        | inr q ↦ rw (q, any_sensor_named) (answered_writes-any_sensor_named ids s')
      ]

  abbrev pub added : Uuid → Sensor
  added id = record {
    sensor_id = id;
    sensor_name = name;
    sensor_type = type;
    field_id = none;
    field_name = "";
  }

  abbrev pub by_field : Uuid → Statement
  by_field id = insert_sensor_by_field field id name (decimal_ℤ type)

  abbrev pub by_id : Uuid → Statement
  by_id id = insert_sensor id name (decimal_ℤ type)

  -- How a registration ends, and which writes it sent. The last ending leaves the sensor in the table
  -- by field and not in the table of sensors.
  pub data Registered (found : Bool) (close : Option Error)
      (before after : List (Statement × Option Error)) : Result Sensor → Type 0 where
    inserted :
        (id : Uuid)
        → found ≡ false
        → close ≡ none
        → after ≡ (by_id id, none) ∷ (by_field id, none) ∷ before
        → Registered found close before after (ok (added id))
    refused :
        found ≡ true
        → after ≡ before
        → Registered found close before after (err (sensor_already_exists name))
    unread :
        (e : Error)
        → found ≡ false
        → close ≡ some e
        → after ≡ before
        → Registered found close before after (err e)
    unanswered :
        (e : Error) (id : Uuid)
        → found ≡ false
        → close ≡ none
        → after ≡ (by_field id, some e) ∷ before
        → Registered found close before after (err e)
    half :
        (e : Error) (id : Uuid)
        → found ≡ false
        → close ≡ none
        → after ≡ (by_id id, some e) ∷ (by_field id, none) ∷ before
        → Registered found close before after (err e)

  insert_new_sensor-Registered :
      (before : List (Statement × Option Error)) (s : State W)
      → answered_writes s.log ≡ before
      → Registered false none before
          (answered_writes (insert_new_sensor W field name type s).1.log)
          (insert_new_sensor W field name type s).0
  unfolding insert_new_sensor
  insert_new_sensor-Registered before s h =
      let id = (World.answer W new_uuid s.ext).0 in
      let (r, s₁) = perform W (exec (by_field id)) (perform W new_uuid s).1 in
      let (r', _) = perform W (exec (by_id id)) s₁ in
      elim (Option-cases r) [
        | inr (e, q) ↦
            rw (q, insert_new_sensor)
              (unanswered e id refl refl (ap (λ l. (by_field id, some e) ∷ l) h))
        | inl q ↦ elim (Option-cases r') [
          | inr (e, q') ↦
              rw (q, q', insert_new_sensor)
                (half e id refl refl (ap (λ l. (by_id id, some e) ∷ (by_field id, none) ∷ l) h))
          | inl q' ↦
              rw (q, q', insert_new_sensor)
                (inserted id refl refl (ap (λ l. (by_id id, none) ∷ (by_field id, none) ∷ l) h))
        ]
      ]

  -- What `RegisterSensor` does behind the loop.
  abbrev pub finish : Bool → Option Error → State W → Result Sensor × State W
  finish found close =
      if found
      then fail (sensor_already_exists name)
      else do lift (result_of_error close); insert_new_sensor W field name type

  finish-Registered :
      (found : Bool) (close : Option Error) (before : List (Statement × Option Error)) (s : State W)
      → answered_writes s.log ≡ before
      → Registered found close before
          (answered_writes (finish found close s).1.log)
          (finish found close s).0
  finish-Registered true close before s h = refused refl h
  finish-Registered false none before s h = insert_new_sensor-Registered before s h
  finish-Registered false (some e) before s h = unread e refl refl h

  -- What the loop finds, and what the closing of the iteration returns.
  abbrev pub is_taken : State W → Bool
  is_taken s =
      let (iter, s₁) = perform W (iterate (sensor_ids_of_field field)) s in
      (any_sensor_named W field name iter.rows s₁).0

  abbrev pub read_error : State W → Option Error
  read_error s = Iter.close (perform W (iterate (sensor_ids_of_field field)) s).0

  -- A registration that succeeds sent exactly two writes, to the table by field and then to the table
  -- of sensors, of one identifier, name and type, both answered without an error, and returns that
  -- sensor; a name that the loop finds taken is refused and a read that fails is reported, both
  -- without a write; otherwise the error that it returns is the answer of its last write, which is
  -- the first one, with no second behind it, or the second behind a first that was taken.
  pub register_sensor-Registered :
      (s : State W)
      → Registered
          (is_taken s)
          (read_error s)
          (answered_writes s.log)
          (answered_writes (register_sensor W field name type s).1.log)
          (register_sensor W field name type s).0
  unfolding register_sensor
  register_sensor-Registered s =
      let (iter, s₁) = perform W (iterate (sensor_ids_of_field field)) s in
      let (found, s₂) = any_sensor_named W field name iter.rows s₁ in
      finish-Registered found iter.close (answered_writes s.log) s₂
        (answered_writes-any_sensor_named iter.rows s₁)
