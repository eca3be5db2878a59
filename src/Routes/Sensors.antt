-- ===== src/Routes/Sensors.antt =====
-- `sensorsHandler`, `registerSensorHandler` and `getSensorCredentialsHandler` (handlers.go).
pub mod Laws
use Prim.Native.String.{slice}
use nostradamus_api.Prelude.{String, ◌<>◌, none, some, false, str_eq, if◌then◌else◌}
use nostradamus_api.Prelude.Int.{ℤ}
use nostradamus_api.Errors.{
  Error, message, as_sensor_already_exists, sensor_exists_message, is_sensor_not_found,
}
use nostradamus_api.Go.Decode.{◌>>=◌, at}
use nostradamus_api.Go.Fallible.{Result, ok, err}
use nostradamus_api.Go.Http.{Request, Writer, query_get, http_error}
use nostradamus_api.Go.Io.{Io}
use nostradamus_api.Go.Json.{
  Json, str, arr, obj, end, field, items, object, string_value, int_value,
}
use nostradamus_api.Types.{Sensor}
use nostradamus_api.Utils.{reply_json, reply_method_not_allowed, error_body, data_body}
use nostradamus_api.Wire.{field_json, sensor_json}
use nostradamus_api.World.{World, State, perform, decode_stream}
use nostradamus_api.World.Calls.{Uuid, new_uuid}
use nostradamus_api.Emqx.{create_user}
use nostradamus_api.Db.Sensors.{
  SensorCredentials, get_sensors_by_field_id, register_sensor, store_sensor_credentials,
  get_sensor_credentials,
}
use nostradamus_api.Routes.App.{App}

pub record SensorRequest : Type 0 where
  pub field_id : String
  pub sensor_name : String
  pub sensor_type : ℤ

unfoldable pub decode_sensor_request : Json → Result SensorRequest
decode_sensor_request v = do
  fs ← object v
  field_id ← at string_value "field_id" fs
  sensor_name ← at string_value "sensor_name" fs
  sensor_type ← at int_value "sensor_type" fs
  ok (record { field_id = field_id; sensor_name = sensor_name; sensor_type = sensor_type })

unfoldable pub register_sensor_error : Error → Writer → Writer
register_sensor_error e w = elim (as_sensor_already_exists e) [
  | some name ↦ reply_json 400 (error_body (sensor_exists_message name)) w
  | none ↦ reply_json 500 (error_body (message e)) w
]

unfoldable pub credentials_json : SensorCredentials → Json
credentials_json c =
    obj (field "username" (str c.mqtt_user) (field "password" (str c.mqtt_pass) end))

-- The reply to an error of `GetSensorCredentials`.
unfoldable pub credentials_error : Error → Writer → Writer
credentials_error e w =
    if is_sensor_not_found e
    then reply_json 404 (error_body "sensor not found") w
    else reply_json 500 (error_body (message e)) w

module _ (W : World) where
  unfoldable pub sensors_handler : Request → Writer → Io (State W) Writer
  sensors_handler r w s =
      let id_text : String = query_get r "field_id" in
      if str_eq r.method "GET"
      then (if str_eq id_text ""
          then (http_error "missing field_id" 400 w, s)
          else elim (World.parse_uuid W id_text) [
            | err _ ↦ (http_error "invalid field_id" 400 w, s)
            | ok id ↦
                let (res, s') = get_sensors_by_field_id W id s in
                elim res [
                  | err e ↦ (http_error ("db error: " <> message e) 500 w, s')
                  | ok (sensors, f) ↦ (
                    reply_json 200
                        (obj (
                          field "data" (arr (items (sensor_json W) sensors))
                            (field "field" (field_json W f) end)))
                        w,
                    s',
                  )
                ]
          ])
      else (reply_method_not_allowed w, s)

  -- `sensor.SensorID.String()[:8] + "_" + req.SensorName`
  abbrev pub mqtt_username : Uuid → String → String
  mqtt_username id name = slice (World.uuid_text W id) 0 8 <> "_" <> name

  -- `uuid.NewString()[:12]`
  abbrev pub mqtt_password : Uuid → String
  mqtt_password id = slice (World.uuid_text W id) 0 12

  module _ (app : App W) where
    -- The part behind the registration: the credentials, whose errors are only logged.
    unfoldable pub provision : Uuid → String → Sensor → Writer → Io (State W) Writer
    provision field_id name sensor w s =
        let (secret, s₁) = perform W new_uuid s in
        let user : String = mqtt_username sensor.sensor_id name in
        let pass : String = mqtt_password secret in
        let (_, s₂) = create_user W app.emqx user pass false s₁ in
        let (_, s₃) = store_sensor_credentials W field_id sensor.sensor_id user pass s₂ in
        (
          reply_json 201
              (data_body (
                obj (
                  field "mqtt_pass" (str pass)
                    (field "mqtt_user" (str user) (field "sensor" (sensor_json W sensor) end)))))
              w,
          s₃,
        )

    unfoldable pub register_sensor_handler : Request → Writer → Io (State W) Writer
    register_sensor_handler r w s =
        if str_eq r.method "POST"
        then elim (decode_stream W decode_sensor_request r.body) [
          | err _ ↦ (reply_json 400 (error_body "invalid request body") w, s)
          | ok req ↦ elim (World.parse_uuid W req.field_id) [
            | err _ ↦ (reply_json 400 (error_body "invalid field UUID") w, s)
            | ok field_id ↦
                let (res, s') = register_sensor W field_id req.sensor_name req.sensor_type s in
                elim res [
                  | err e ↦ (register_sensor_error e w, s')
                  | ok sensor ↦ provision field_id req.sensor_name sensor w s'
                ]
          ]
        ]
        else (reply_method_not_allowed w, s)

  unfoldable pub get_sensor_credentials_handler : Request → Writer → Io (State W) Writer
  get_sensor_credentials_handler r w s =
      let id_text : String = query_get r "sensor_id" in
      if str_eq r.method "GET"
      then (if str_eq id_text ""
          then (reply_json 400 (error_body "missing sensor_id") w, s)
          else elim (World.parse_uuid W id_text) [
            | err _ ↦ (reply_json 400 (error_body "invalid sensor_id") w, s)
            | ok id ↦
                let (res, s') = get_sensor_credentials W id s in
                elim res [
                  | err e ↦ (credentials_error e w, s')
                  | ok creds ↦ (reply_json 200 (data_body (credentials_json creds)) w, s')
                ]
          ])
      else (reply_method_not_allowed w, s)
