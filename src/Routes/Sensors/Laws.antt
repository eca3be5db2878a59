-- ===== src/Routes/Sensors/Laws.antt =====
-- The credentials of a new sensor, from its registration to the request for them (handlers.go).
use nostradamus_api.Prelude.{
  String, ◌≡◌, ◌≢◌, refl, inl, inr, true, false, Option, none, some, arith, str_eq, eq_iff,
  Bool-cases,
}
use nostradamus_api.Errors.{Error}
use nostradamus_api.Go.Fallible.{ok, result_of_error}
use nostradamus_api.Go.Http.{Request, Writer, query_get}
use nostradamus_api.Go.Json.{Json, str, obj, field, end}
use nostradamus_api.Types.{Sensor}
use nostradamus_api.Utils.{reply_json, data_body}
use nostradamus_api.Wire.{sensor_json}
use nostradamus_api.World.{World, State, perform}
use nostradamus_api.World.Calls.{Uuid, exec, scan_one, new_uuid, update_credentials, credentials_of}
use nostradamus_api.Emqx.{create_user}
use nostradamus_api.Db.Sensors.{store_sensor_credentials, get_sensor_credentials}
use nostradamus_api.Routes.App.{App}
use nostradamus_api.Routes.Sensors.{
  provision, mqtt_username, mqtt_password, credentials_json, get_sensor_credentials_handler,
}

-- A database that answers the read of a sensor's credentials with those that it was told last and
-- that it answered without an error.
pub record KeepsCredentials (W : World) : Type 1 where
  pub Holds : World.Ext W → Uuid → String × String → Type 0
  pub updates :
      (user pass : String) (field_id sensor : Uuid) (x : World.Ext W)
      → (World.answer W (exec (update_credentials user pass field_id sensor)) x).0 ≡ none
      → Holds
          (World.answer W (exec (update_credentials user pass field_id sensor)) x).1
          sensor
          (user, pass)
  pub reads :
      (user pass : String) (sensor : Uuid) (x : World.Ext W)
      → Holds x sensor (user, pass)
      → (World.answer W (scan_one (credentials_of sensor)) x).0 ≡ ok (user, pass)

no_error : (o : Option Error) → result_of_error o ≡ ok tt → o ≡ none
no_error none h = refl
no_error (some e) h = absurd (ground (arith, h))

not_empty : (t : String) → t ≢ "" → str_eq t "" ≡ false
not_empty t ne = elim (Bool-cases (str_eq t "")) [
  | inl q ↦ absurd (ne ((eq_iff t "").0 q))
  | inr q ↦ q
]

-- The reply to a registration.
abbrev pub registered_json : World → String → String → Sensor → Json
registered_json W user pass sensor = obj (
    field "mqtt_pass" (str pass)
      (field "mqtt_user" (str user) (field "sensor" (sensor_json W sensor) end)))

module _ (W : World) (app : App W) (db : KeepsCredentials W) (field_id : Uuid) (name : String)
    (sensor : Sensor) (w : Writer) (s : State W) where
  abbrev pub new_user : String
  new_user = mqtt_username W sensor.sensor_id name

  abbrev pub new_pass : String
  new_pass = mqtt_password W (perform W new_uuid s).0

  -- Where the credentials are sent to the database, behind the request to EMQX.
  abbrev pub before_storing : State W
  before_storing = (create_user W app.emqx new_user new_pass false (perform W new_uuid s).1).1

  -- Whether EMQX took the user or not: where the database takes the credentials that a registration
  -- replies with, a later request for the credentials of that sensor is answered with the same user
  -- and the same password.
  pub get_sensor_credentials-provision :
      (store_sensor_credentials W field_id sensor.sensor_id new_user new_pass before_storing).0
        ≡ ok tt
      → (r : Request) (w' : Writer) → r.method ≡ "GET"
      → query_get r "sensor_id" ≢ ""
      → World.parse_uuid W (query_get r "sensor_id") ≡ ok sensor.sensor_id
      → let (w₁, s₁) = provision W app field_id name sensor w s in
        (w₁ ≡ reply_json 201 (data_body (registered_json W new_user new_pass sensor)) w)
        × ((get_sensor_credentials_handler W r w' s₁).0
            ≡ reply_json 200
                (data_body
                  (credentials_json (record { mqtt_user = new_user; mqtt_pass = new_pass })))
                w')
  unfolding provision get_sensor_credentials_handler get_sensor_credentials store_sensor_credentials
      perform
  get_sensor_credentials-provision stored r w' get given parsed =
      let call = exec (update_credentials new_user new_pass field_id sensor.sensor_id) in
      let answered : (World.answer W call before_storing.ext).0 ≡ none = no_error _ stored in
      let held =
        db.updates new_user new_pass field_id sensor.sensor_id before_storing.ext answered in
      let read = db.reads new_user new_pass sensor.sensor_id _ held in
      let is_get : str_eq r.method "GET" ≡ true = (eq_iff r.method "GET").1 get in
      let is_given : str_eq (query_get r "sensor_id") "" ≡ false =
        not_empty (query_get r "sensor_id") given in
      (refl, rw (is_get, is_given, parsed, read, get_sensor_credentials_handler) refl)
