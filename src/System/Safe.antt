-- ===== src/System/Safe.antt =====
-- What a request does to the log and to the rows of the fields and of the sensors (handlers.go,
-- internal/db).
use nostradamus_api.Prelude.{String, refl, false, str_eq, arith}
use nostradamus_api.Go.Http.{Request, Writer}
use nostradamus_api.World.{World, State, perform, decode_stream}
use nostradamus_api.World.Calls.{Uuid, exec, new_uuid, update_credentials}
use nostradamus_api.World.Trace.{Grows, Grows-trans, Grows-cons}
use nostradamus_api.World.Only.{Makes, nothing, next, still, once, behind, makes, Makes-Grows}
use nostradamus_api.Db.Fields.{register_field}
use nostradamus_api.Db.Fields.Store.{FieldStore}
use nostradamus_api.Db.Rows.{Same, Same-trans}
use nostradamus_api.Db.Fields.Distinct as Fields
use nostradamus_api.Db.Sensors.{register_sensor, store_sensor_credentials}
use nostradamus_api.Db.Sensors.Store.{SensorStore}
use nostradamus_api.Db.Sensors.Refines.{register_sensor-Stored, Stored-Has}
use nostradamus_api.Db.Sensors.Distinct as Sensors
use nostradamus_api.Emqx.{create_user}
use nostradamus_api.Go.Strconv.{decimal_ℤ}
use nostradamus_api.Types.{Sensor}
use nostradamus_api.Prelude.Int.{ℤ}
use nostradamus_api.Routes.Sensors.{
  provision, register_sensor_handler, decode_sensor_request, mqtt_username, mqtt_password,
}
use nostradamus_api.Routes.App.{App}
use nostradamus_api.Routes.Fields.{register_field_handler, decode_field_request}
use nostradamus_api.Routes.Answered.Ready.{on_if, on_result, on_result_eq}
use nostradamus_api.Routes.Quiet.Reads.{Quiet}
use nostradamus_api.System.Posts.{
  keeps_fields, keeps_sensors, Quiet-keeps_fields, Quiet-keeps_sensors, register_field-Only,
  register_sensor-Only, create_user-Quiet,
}

module _ (W : World) (fields_db : FieldStore W) (sensors_db : SensorStore W) where
  -- The log only grows, and the rows of the fields and of the sensors stay without a repeat.
  pub record Safe {A : Type 0} (s : State W) (out : A × State W) : Type 0 where
    pub grows : Grows s.log out.1.log
    pub fields :
        Fields.IsDistinct (fields_db.Has s.ext) → Fields.IsDistinct (fields_db.Has out.1.ext)
    pub sensors :
        Sensors.IsDistinct (sensors_db.Has s.ext) → Sensors.IsDistinct (sensors_db.Has out.1.ext)

  fields-Same :
      {s s' : State W}
      → Makes W keeps_fields s s'
      → Same (fields_db.Has s.ext) (fields_db.Has s'.ext)
  unfolding perform
  fields-Same nothing = λ g. (λ a. a, λ a. a)
  fields-Same (next {s'} c q h) =
      Same-trans (fields-Same h) (fields_db.keeps c s'.ext (ground arith))

  sensors-Same :
      {s s' : State W}
      → Makes W keeps_sensors s s'
      → Same (sensors_db.Has s.ext) (sensors_db.Has s'.ext)
  unfolding perform
  sensors-Same nothing = λ g. (λ a. a, λ a. a)
  sensors-Same (next {s'} c q h) =
      Same-trans (sensors-Same h) (sensors_db.keeps c s'.ext (ground arith))

  Quiet-Same :
      {A : Type 0} {s : State W} {out : A × State W}
      → Quiet W s out
      → Same (sensors_db.Has s.ext) (sensors_db.Has out.1.ext)
  Quiet-Same h = sensors-Same (makes W (Quiet-keeps_sensors W h))

  pub Quiet-Safe : {A : Type 0} {s : State W} {out : A × State W} → Quiet W s out → Safe s out
  Quiet-Safe h = record {
    grows = Makes-Grows W (makes W h);
    fields = Fields.Same-IsDistinct _ _ (fields-Same (makes W (Quiet-keeps_fields W h)));
    sensors = Sensors.Same-IsDistinct _ _ (Quiet-Same h);
  }

  register_field-Safe :
      (user : Uuid) (name : String) (s : State W) → Safe s (register_field W user name s)
  register_field-Safe user name s =
      let made = makes W (register_field-Only W user name s) in
      record {
        grows = Makes-Grows W made;
        fields = Fields.register_field-IsDistinct W fields_db user name s;
        sensors = Sensors.Same-IsDistinct _ _ (sensors-Same made);
      }

  register_sensor-Safe :
      (field : Uuid) (name : String) (type : ℤ) (s : State W)
      → Safe s (register_sensor W field name type s)
  register_sensor-Safe field name type s =
      let made = makes W (register_sensor-Only W field name type s) in
      record {
        grows = Makes-Grows W made;
        fields = Fields.Same-IsDistinct _ _ (fields-Same made);
        sensors = Sensors.register_sensor-IsDistinct W sensors_db field name type s;
      }

  ending : {A B : Type 0} {b : B} {s : State W} {out : A × State W} → Safe s out → Safe s (b, out.1)
  ending h = record { grows = h.grows; fields = h.fields; sensors = h.sensors }

  follow :
      {A B : Type 0} {s : State W} {out : A × State W} {out' : B × State W}
      → Safe s out
      → Safe out.1 out'
      → Safe s out'
  follow h k = record {
    grows = Grows-trans h.grows k.grows;
    fields = λ d. k.fields (h.fields d);
    sensors = λ d. k.sensors (h.sensors d);
  }

  -- The credentials go to a row that is there.
  store_sensor_credentials-Safe :
      (field id : Uuid) (user pass name text : String) (s : State W)
      → sensors_db.Has s.ext (field, id, name, text)
      → Safe s (store_sensor_credentials W field id user pass s)
  unfolding store_sensor_credentials perform
  store_sensor_credentials-Safe field id user pass name text s h =
      let call = exec (update_credentials user pass field id) in
      record {
        grows = Grows-cons _ _;
        fields = Fields.Same-IsDistinct _ _ (fields_db.keeps call s.ext refl);
        sensors =
            Sensors.Same-IsDistinct _ _ (sensors_db.updates user pass field id name text s.ext h);
      }

  module _ (r : Request) (w : Writer) (s : State W) where
    pub register_field_handler-Safe : Safe s (register_field_handler W r w s)
    unfolding register_field_handler
    register_field_handler-Safe =
        on_if (Safe s) (str_eq r.method "POST")
          (on_result (Safe s) (decode_stream W decode_field_request r.body) (λ e. stay)
            (λ req.
              on_result (Safe s) (World.parse_uuid W req.user_id) (λ e. stay)
                (λ user.
                  let out = register_field W user req.field_name s in
                  let added = register_field-Safe user req.field_name s in
                  on_result (Safe s) out.0 (λ e. ending added) (λ f. ending added))))
          stay
      where
        stay : {w : Writer} → Safe s (w, s)
        stay = Quiet-Safe (still W s)

    provision-Safe :
        (app : App W) (field : Uuid) (name : String) (sensor : Sensor) (text : String)
        → sensors_db.Has s.ext (field, sensor.sensor_id, name, text)
        → Safe s (provision W app field name sensor w s)
    unfolding provision
    provision-Safe app field name sensor text h =
        let (secret, s₁) = perform W new_uuid s in
        let user = mqtt_username W sensor.sensor_id name in
        let pass = mqtt_password W secret in
        let made =
          behind W (once W new_uuid s refl) (create_user-Quiet W app.emqx user pass false s₁) in
        let s₂ = (create_user W app.emqx user pass false s₁).1 in
        ending (
          follow (Quiet-Safe made) (
            store_sensor_credentials-Safe field sensor.sensor_id user pass name text s₂
              ((Quiet-Same made _).1 h)))

  module _ (app : App W) (r : Request) (w : Writer) (s : State W) where
    pub register_sensor_handler-Safe : Safe s (register_sensor_handler W app r w s)
    unfolding register_sensor_handler
    register_sensor_handler-Safe =
        on_if (Safe s) (str_eq r.method "POST")
          (on_result (Safe s) (decode_stream W decode_sensor_request r.body) (λ e. stay)
            (λ req.
              on_result (Safe s) (World.parse_uuid W req.field_id) (λ e. stay)
                (λ field.
                  let name = req.sensor_name in
                  let type = req.sensor_type in
                  let out = register_sensor W field name type s in
                  let added = register_sensor-Safe field name type s in
                  let stored = register_sensor-Stored W sensors_db field name type s in
                  on_result_eq (Safe s) out.0 (λ e. ending added)
                    (λ sensor q. follow added (
                      provision-Safe r w out.1 app field name sensor (decimal_ℤ type)
                        (Stored-Has W sensors_db field name type _ _ out.0 sensor stored q))))))
          stay
      where
        stay : {w : Writer} → Safe s (w, s)
        stay = Quiet-Safe (still W s)
