-- ===== src/System/Posts.antt =====
-- The calls of the requests that write (handlers.go, pipelines.go, internal/db, internal/emqx).
use nostradamus_api.Prelude.{
  String, ◌<>◌, ◌≡◌, refl, Bool, true, false, not, Option, none, some, List, [], ◌∷◌, ◌==◌,
}
use nostradamus_api.Prelude.Int.{ℤ}
use nostradamus_api.Errors.{Error, text}
use nostradamus_api.Go.Fallible.{wrap_result, result_of_error}
use nostradamus_api.Go.Strconv.{decimal_ℤ}
use nostradamus_api.World.{World, State, perform}
use nostradamus_api.World.Calls.{
  Uuid, Call, iterate, scan_one, exec, send, new_uuid, field_ids_of_user, field_name_of,
  insert_field, sensor_ids_of_field, sensor_name_of, insert_sensor_by_field, insert_sensor,
  update_credentials,
}
use nostradamus_api.World.Only.{
  is_plain, Only, only, still, once, behind, reply_to, and_then, and_require, Makes-wider, makes,
}
use nostradamus_api.Emqx.{EmqxClient, create_user, endpoint, user_request}
use nostradamus_api.Db.Fields.{any_field_named, insert_new_field, register_field}
use nostradamus_api.Db.Fields.Store.{writes_fields}
use nostradamus_api.Db.Sensors.Store.{writes_sensors}
use nostradamus_api.Db.Sensors.{
  any_sensor_named, insert_new_sensor, register_sensor, store_sensor_credentials,
}
use nostradamus_api.Db.Fields
use nostradamus_api.Db.Sensors
use nostradamus_api.Db.Fields.Laws.{finish}
use nostradamus_api.Db.Sensors.Laws.{finish as finish_sensor}
use nostradamus_api.Routes.Answered.Ready.{on_if}
use nostradamus_api.Routes.Quiet.Reads.{Quiet}

-- Any call but an insert into the table of fields.
abbrev pub keeps_fields : Call → Bool
keeps_fields c = not (writes_fields c)

plain-keeps_fields : (c : Call) → is_plain c ≡ true → keeps_fields c ≡ true
plain-keeps_fields (exec (insert_field _ _ _)) q = q
plain-keeps_fields (exec _) q = refl
plain-keeps_fields _ q = refl

-- Any call but a write to the table of the sensors of the fields.
abbrev pub keeps_sensors : Call → Bool
keeps_sensors c = not (writes_sensors c)

plain-keeps_sensors : (c : Call) → is_plain c ≡ true → keeps_sensors c ≡ true
plain-keeps_sensors (exec (insert_sensor_by_field _ _ _ _)) q = q
plain-keeps_sensors (exec (update_credentials _ _ _ _)) q = q
plain-keeps_sensors (exec _) q = refl
plain-keeps_sensors _ q = refl

module _ (W : World) where
  pub Quiet-keeps_fields :
      {A : Type 0} {s : State W} {out : A × State W} → Quiet W s out → Only W keeps_fields s out
  Quiet-keeps_fields h = only (Makes-wider W keeps_fields plain-keeps_fields (makes W h))

  pub Quiet-keeps_sensors :
      {A : Type 0} {s : State W} {out : A × State W} → Quiet W s out → Only W keeps_sensors s out
  Quiet-keeps_sensors h = only (Makes-wider W keeps_sensors plain-keeps_sensors (makes W h))

  any_field_named-Quiet :
      (user : Uuid) (name : String) (ids : List Uuid) (s : State W)
      → Quiet W s (any_field_named W user name ids s)
  unfolding any_field_named
  any_field_named-Quiet user name [] s = still W s
  any_field_named-Quiet user name (id ∷ ids) s =
      let call = scan_one (field_name_of user id) in
      let (r, s') = perform W call s in
      let read = once W call s refl in
      on_if (Quiet W s) (Fields.is_named W name r) (reply_to W _ read)
        (behind W read (any_field_named-Quiet user name ids s'))

  any_sensor_named-Quiet :
      (field : Uuid) (name : String) (ids : List Uuid) (s : State W)
      → Quiet W s (any_sensor_named W field name ids s)
  unfolding any_sensor_named
  any_sensor_named-Quiet field name [] s = still W s
  any_sensor_named-Quiet field name (id ∷ ids) s =
      let call = scan_one (sensor_name_of field id) in
      let (r, s') = perform W call s in
      let read = once W call s refl in
      on_if (Quiet W s) (Sensors.is_named W name r) (reply_to W _ read)
        (behind W read (any_sensor_named-Quiet field name ids s'))

  insert_new_field-Only :
      (user : Uuid) (name : String) (s : State W)
      → Only W keeps_sensors s (insert_new_field W user name s)
  unfolding insert_new_field
  insert_new_field-Only user name s =
      let (id, s₁) = perform W new_uuid s in
      let call = exec (insert_field user id name) in
      and_then W (result_of_error (perform W call s₁).0) _
        (behind W (once W new_uuid s refl) (once W call s₁ refl)) (λ _. still W _)

  finish-Only :
      (user : Uuid) (name : String) (found : Bool) (close : Option Error) (s : State W)
      → Only W keeps_sensors s (finish W user name found close s)
  finish-Only user name true close s = still W s
  finish-Only user name false none s = insert_new_field-Only user name s
  finish-Only user name false (some e) s = still W s

  pub register_field-Only :
      (user : Uuid) (name : String) (s : State W)
      → Only W keeps_sensors s (register_field W user name s)
  unfolding register_field
  register_field-Only user name s =
      let call = iterate (field_ids_of_user user) in
      let (iter, s₁) = perform W call s in
      let (found, s₂) = any_field_named W user name iter.rows s₁ in
      let looked =
        Quiet-keeps_sensors
          (behind W (once W call s refl) (any_field_named-Quiet user name iter.rows s₁)) in
      behind W looked (finish-Only user name found iter.close s₂)

  insert_new_sensor-Only :
      (field : Uuid) (name : String) (type : ℤ) (s : State W)
      → Only W keeps_fields s (insert_new_sensor W field name type s)
  unfolding insert_new_sensor
  insert_new_sensor-Only field name type s =
      let (id, s₁) = perform W new_uuid s in
      let first = exec (insert_sensor_by_field field id name (decimal_ℤ type)) in
      let second = exec (insert_sensor id name (decimal_ℤ type)) in
      let (r, s₂) = perform W first s₁ in
      and_then W (result_of_error r) _ (behind W (once W new_uuid s refl) (once W first s₁ refl))
        (λ _.
          and_then W (result_of_error (perform W second s₂).0) _ (once W second s₂ refl)
            (λ _. still W _))

  finish_sensor-Only :
      (field : Uuid) (name : String) (type : ℤ) (found : Bool) (close : Option Error) (s : State W)
      → Only W keeps_fields s (finish_sensor W field name type found close s)
  finish_sensor-Only field name type true close s = still W s
  finish_sensor-Only field name type false none s = insert_new_sensor-Only field name type s
  finish_sensor-Only field name type false (some e) s = still W s

  pub register_sensor-Only :
      (field : Uuid) (name : String) (type : ℤ) (s : State W)
      → Only W keeps_fields s (register_sensor W field name type s)
  unfolding register_sensor
  register_sensor-Only field name type s =
      let call = iterate (sensor_ids_of_field field) in
      let (iter, s₁) = perform W call s in
      let (found, s₂) = any_sensor_named W field name iter.rows s₁ in
      let looked =
        Quiet-keeps_fields
          (behind W (once W call s refl) (any_sensor_named-Quiet field name iter.rows s₁)) in
      behind W looked (finish_sensor-Only field name type found iter.close s₂)

  pub create_user-Quiet :
      (c : EmqxClient) (user pass : String) (super : Bool) (s : State W)
      → Quiet W s (create_user W c user pass super s)
  unfolding create_user
  create_user-Quiet c user pass super s =
      let address = result_of_error (World.url_error W (endpoint c)) in
      let call = send (user_request c user pass super) in
      let (r, s') = perform W call s in
      and_then W (wrap_result "failed to create EMQX request: " address) _ (still W {a = tt} s)
        (λ _. and_then W (wrap_result "failed to contact EMQX: " r) _ (once W call s refl) (λ resp.
          and_require W (resp.status_code == 201)
            (text ("emqx returned " <> resp.status <> ": " <> resp.body)) _ (still W {a = tt} s')
            (still W s')))
