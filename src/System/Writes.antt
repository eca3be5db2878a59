-- ===== src/System/Writes.antt =====
-- How many writes to the database the requests send, and that nobody else sends one (mux.go,
-- handlers.go, watcher.go, supervisor.go).
use nostradamus_api.Prelude.{
  ℕ, ◌+◌, ◌≤◌, String, refl, Bool, false, Option, List, str_eq, arith, length,
}
use nostradamus_api.Prelude.Int.{ℤ}
use nostradamus_api.Errors.{Error}
use nostradamus_api.Go.Fallible.{Result}
use nostradamus_api.Go.Http.{Request, Writer}
use nostradamus_api.Types.{Field, Sensor}
use nostradamus_api.World.{World, State, perform, decode_stream}
use nostradamus_api.World.Calls.{Uuid, Statement, new_uuid}
use nostradamus_api.World.Trace.{writes, length-answered_writes}
use nostradamus_api.World.Only.{still, once, behind, makes, writes-Makes}
use nostradamus_api.Emqx.{create_user}
use nostradamus_api.Db.Fields.{register_field}
use nostradamus_api.Db.Fields.Laws as FieldLaws
use nostradamus_api.Db.Sensors.{register_sensor, store_sensor_credentials}
use nostradamus_api.Db.Sensors.Laws as SensorLaws
use nostradamus_api.Routes.App.{App}
use nostradamus_api.Routes.Fields.{register_field_handler, decode_field_request}
use nostradamus_api.Routes.Sensors.{
  provision, register_sensor_handler, decode_sensor_request, mqtt_username, mqtt_password,
}
use nostradamus_api.Routes.Answered.Ready.{on_if, on_result}
use nostradamus_api.Routes.Quiet.Reads.{Quiet}
use nostradamus_api.System.Posts.{create_user-Quiet}

module _ (W : World) (n : ℕ) where
  -- The action sends at most so many writes.
  pub data Within {A : Type 0} (s : State W) (out : A × State W) : Type 0 where
    within : length (writes out.1.log) ≤ n + length (writes s.log) → Within s out

  pub within_of :
      {A : Type 0} {s : State W} {out : A × State W}
      → Within s out
      → length (writes out.1.log) ≤ n + length (writes s.log)
  within_of (within h) = h

  pub Quiet-Within : {A : Type 0} {s : State W} {out : A × State W} → Quiet W s out → Within s out
  Quiet-Within h = within (rw (writes-Makes W (makes W h)) (omega arith))

module _ (W : World) where
  Registered-Within :
      (user : Uuid) (name : String) (found : Bool) (close : Option Error)
      (before after : List Statement) (r : Result Field)
      → FieldLaws.Registered W user name found close before after r
      → length after ≤ 1 + length before
  Registered-Within user name found close b a _ (FieldLaws.inserted id p q e) = rw e (omega arith)
  Registered-Within user name found close b a _ (FieldLaws.taken p e) = rw e (omega arith)
  Registered-Within user name found close b a _ (FieldLaws.unread e' p q e) = rw e (omega arith)
  Registered-Within user name found close b a _ (FieldLaws.unanswered e' id p q e) =
      rw e (omega arith)

  sensor-Registered-Within :
      (field : Uuid) (name : String) (type : ℤ) (found : Bool) (close : Option Error)
      (before after : List (Statement × Option Error)) (r : Result Sensor)
      → SensorLaws.Registered W field name type found close before after r
      → length after ≤ 2 + length before
  sensor-Registered-Within f n t found close b a _ (SensorLaws.inserted id p q e) =
      rw e (omega arith)
  sensor-Registered-Within f n t found close b a _ (SensorLaws.refused p e) = rw e (omega arith)
  sensor-Registered-Within f n t found close b a _ (SensorLaws.unread e' p q e) = rw e (omega arith)
  sensor-Registered-Within f n t found close b a _ (SensorLaws.unanswered e' id p q e) =
      rw e (omega arith)
  sensor-Registered-Within f n t found close b a _ (SensorLaws.half e' id p q e) =
      rw e (omega arith)

  register_sensor-Within :
      (field : Uuid) (name : String) (type : ℤ) (s : State W)
      → Within W 2 s (register_sensor W field name type s)
  register_sensor-Within field name type s =
      let out = register_sensor W field name type s in
      let counted =
        sensor-Registered-Within field name type _ _ _ _ _
          (SensorLaws.register_sensor-Registered W field name type s) in
      within
        (omega (arith, counted, length-answered_writes s.log, length-answered_writes out.1.log))

  wider :
      {A B : Type 0} {b : B} (m n : ℕ) {s : State W} {out : A × State W}
      → m ≤ n
      → Within W m s out
      → Within W n s (b, out.1)
  wider m n le (within h) = within (omega arith)

  follow :
      {A B : Type 0} (m n : ℕ) {s : State W} {out : A × State W} {out' : B × State W}
      → Within W m s out
      → Within W n out.1 out'
      → Within W (n + m) s out'
  follow m n (within h) (within k) = within (omega arith)

  provision-Within :
      (app : App W) (w : Writer) (field : Uuid) (name : String) (sensor : Sensor) (s : State W)
      → Within W 1 s (provision W app field name sensor w s)
  unfolding provision store_sensor_credentials perform
  provision-Within app w field name sensor s =
      let (secret, s₁) = perform W new_uuid s in
      let user = mqtt_username W sensor.sensor_id name in
      let pass = mqtt_password W secret in
      let s₂ = (create_user W app.emqx user pass false s₁).1 in
      let made =
        behind W (once W new_uuid s refl) (create_user-Quiet W app.emqx user pass false s₁) in
      within (rw (writes-Makes W (makes W made)) (omega arith))

  module _ (r : Request) (w : Writer) (s : State W) where
    pub register_field_handler-Within : Within W 3 s (register_field_handler W r w s)
    unfolding register_field_handler
    register_field_handler-Within =
        on_if (Within W 3 s) (str_eq r.method "POST")
          (on_result (Within W 3 s) (decode_stream W decode_field_request r.body) (λ e. stay)
            (λ req.
              on_result (Within W 3 s) (World.parse_uuid W req.user_id) (λ e. stay)
                (λ user.
                  let name = req.field_name in
                  let out = register_field W user name s in
                  let sent : Within W 1 s out = within (
                    Registered-Within user name _ _ _ _ _
                      (FieldLaws.register_field-Registered W user name s)) in
                  on_result (Within W 3 s) out.0 (λ e. wider 1 3 (omega arith) sent)
                    (λ f. wider 1 3 (omega arith) sent))))
          stay
      where
        stay : {w : Writer} → Within W 3 s (w, s)
        stay = Quiet-Within W 3 (still W s)

    pub register_sensor_handler-Within :
        (app : App W) → Within W 3 s (register_sensor_handler W app r w s)
    unfolding register_sensor_handler
    register_sensor_handler-Within app =
        on_if (Within W 3 s) (str_eq r.method "POST")
          (on_result (Within W 3 s) (decode_stream W decode_sensor_request r.body) (λ e. stay)
            (λ req.
              on_result (Within W 3 s) (World.parse_uuid W req.field_id) (λ e. stay)
                (λ field.
                  let name = req.sensor_name in
                  let type = req.sensor_type in
                  let out = register_sensor W field name type s in
                  let sent = register_sensor-Within field name type s in
                  on_result (Within W 3 s) out.0 (λ e. wider 2 3 (omega arith) sent)
                    (λ sensor. follow 2 1 sent (provision-Within app w field name sensor out.1)))))
          stay
      where
        stay : {w : Writer} → Within W 3 s (w, s)
        stay = Quiet-Within W 3 (still W s)
