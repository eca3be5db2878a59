-- ===== src/Routes/Fields.antt =====
-- `fieldsHandler`, `getFieldByIDHandler` and `registerFieldHandler` (handlers.go).
use nostradamus_api.Prelude.{String, ◌<>◌, none, some, str_eq, if◌then◌else◌}
use nostradamus_api.Errors.{Error, message, as_field_already_exists, field_exists_message}
use nostradamus_api.Go.Decode.{◌>>=◌, at}
use nostradamus_api.Go.Fallible.{Result, ok, err}
use nostradamus_api.Go.Http.{Request, Writer, query_get, http_error}
use nostradamus_api.Go.Io.{Io}
use nostradamus_api.Go.Json.{Json, null, slice_json, object, string_value}
use nostradamus_api.Utils.{reply_json, reply_method_not_allowed, error_body, data_body}
use nostradamus_api.Wire.{field_json}
use nostradamus_api.World.{World, State, decode_stream}
use nostradamus_api.Db.Fields.{get_fields_by_user_id, get_field_by_id, register_field}

-- The body of a registration.
pub record FieldRequest : Type 0 where
  pub user_id : String
  pub field_name : String

unfoldable pub decode_field_request : Json → Result FieldRequest
decode_field_request v = do
  fs ← object v
  user_id ← at string_value "user_id" fs
  field_name ← at string_value "field_name" fs
  ok (record { user_id = user_id; field_name = field_name })

-- The reply to an error of `RegisterField`.
unfoldable pub register_field_error : Error → Writer → Writer
register_field_error e w = elim (as_field_already_exists e) [
  | some name ↦ reply_json 400 (error_body (field_exists_message name)) w
  | none ↦ reply_json 500 (error_body (message e)) w
]

module _ (W : World) where
  unfoldable pub fields_handler : Request → Writer → Io (State W) Writer
  fields_handler r w s =
      let user_text : String = query_get r "user_id" in
      if str_eq r.method "GET"
      then (if str_eq user_text ""
          then (http_error "missing user_id" 400 w, s)
          else elim (World.parse_uuid W user_text) [
            | err _ ↦ (http_error "invalid user_id" 400 w, s)
            | ok user ↦
                let (res, s') = get_fields_by_user_id W user s in
                elim res [
                  | err e ↦ (http_error ("db error: " <> message e) 500 w, s')
                  | ok fields ↦
                      (reply_json 200 (data_body (slice_json (field_json W) fields)) w, s')
                ]
          ])
      else (reply_method_not_allowed w, s)

  unfoldable pub get_field_by_id_handler : Request → Writer → Io (State W) Writer
  get_field_by_id_handler r w s =
      let id_text : String = query_get r "field_id" in
      if str_eq r.method "GET"
      then (if str_eq id_text ""
          then (reply_json 400 (error_body "missing field_id") w, s)
          else elim (World.parse_uuid W id_text) [
            | err _ ↦ (reply_json 400 (error_body "invalid field_id") w, s)
            | ok id ↦
                let (res, s') = get_field_by_id W id s in
                elim res [
                  | err e ↦ (reply_json 500 (error_body (message e)) w, s')
                  | ok found ↦ elim found [
                    | none ↦ (reply_json 404 (data_body null) w, s')
                    | some f ↦ (reply_json 200 (data_body (field_json W f)) w, s')
                  ]
                ]
          ])
      else (reply_method_not_allowed w, s)

  unfoldable pub register_field_handler : Request → Writer → Io (State W) Writer
  register_field_handler r w s =
      if str_eq r.method "POST"
      then elim (decode_stream W decode_field_request r.body) [
        | err _ ↦ (reply_json 400 (error_body "invalid request body") w, s)
        | ok req ↦ elim (World.parse_uuid W req.user_id) [
          | err _ ↦ (reply_json 400 (error_body "invalid user_id") w, s)
          | ok user ↦
              let (res, s') = register_field W user req.field_name s in
              elim res [
                | err e ↦ (register_field_error e w, s')
                | ok f ↦ (reply_json 201 (data_body (field_json W f)) w, s')
              ]
        ]
      ]
      else (reply_method_not_allowed w, s)
