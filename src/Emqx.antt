-- ===== src/Emqx.antt =====
-- internal/emqx/emqx.go: the client that creates the MQTT users.
use nostradamus_api.Prelude.{String, ◌<>◌, Bool, ◌||◌, Option, none, some, [], ◌∷◌, str_eq, ◌==◌}
use nostradamus_api.Prelude.{if◌then◌else◌}
use nostradamus_api.Errors.{text}
use nostradamus_api.Go.Decode
use nostradamus_api.Go.Decode.{require, at}
use nostradamus_api.Go.Fallible.{Result, ok, Fallible, lift, result_of_error, wrapping, ◌>>=◌, ◌>>◌}
use nostradamus_api.Go.Io.{Io}
use nostradamus_api.Go.Json.{
  Json, str, bool, obj, end, field, marshal, object, string_value, bool_value,
}
use nostradamus_api.World.{World, State, perform, decode_stream}
use nostradamus_api.World.Calls.{HttpRequest, send, getenv}

pub record EmqxClient : Type 0 where
  pub base_url : String
  pub api_key : String
  pub api_secret : String

pub record CreateUserResponse : Type 0 where
  pub user_id : String
  pub is_superuser : Bool

unfoldable pub decode_user : Json → Result CreateUserResponse
decode_user v = Decode.◌>>=◌ (object v) λ fs. Decode.◌>>=◌ (at string_value "user_id" fs) λ user_id.
    Decode.◌>>=◌ (at bool_value "is_superuser" fs)
      λ is_superuser. ok (record { user_id = user_id; is_superuser = is_superuser })

-- The client of three settings; `none` is the panic where one is missing.
unfoldable pub client_of : String → String → String → Option EmqxClient
client_of url key secret =
    if str_eq url "" || str_eq key "" || str_eq secret ""
    then none
    else some (record { base_url = url; api_key = key; api_secret = secret })

abbrev pub endpoint : EmqxClient → String
endpoint c =
    "http://" <> c.base_url <> "/api/v5/authentication/password_based%3Abuilt_in_database/users"

-- The keys in the order in which `json.Marshal` writes a map.
abbrev pub user_payload : String → String → Bool → Json
user_payload user_id password is_superuser = obj (
    field "is_superuser" (bool is_superuser)
      (field "password" (str password) (field "user_id" (str user_id) end)))

abbrev pub user_request : EmqxClient → String → String → Bool → HttpRequest
user_request c user_id password is_superuser = record {
  method = "POST";
  url = endpoint c;
  headers = ("Content-Type", "application/json") ∷ [];
  basic_auth = some (c.api_key, c.api_secret);
  body = some (user_payload user_id password is_superuser);
}

module _ (W : World) where
  -- `New`
  unfoldable pub new : Io (State W) (Option EmqxClient)
  unfolding perform client_of
  new s =
      let (url, s₁) = perform W (getenv "EMQX_URL") s in
      let (key, s₂) = perform W (getenv "EMQX_API_KEY") s₁ in
      let (secret, s₃) = perform W (getenv "EMQX_API_SECRET") s₂ in (client_of url key secret, s₃)

  -- `CreateUser`
  unfoldable pub create_user :
      EmqxClient → String → String → Bool → Fallible (State W) CreateUserResponse
  unfolding perform marshal decode_user
  create_user c user_id password is_superuser = do
    wrapping "failed to encode EMQX payload: "
        (lift (marshal (user_payload user_id password is_superuser)))
    wrapping "failed to create EMQX request: "
        (lift (result_of_error (World.url_error W (endpoint c))))
    resp ←
        wrapping "failed to contact EMQX: "
          (perform W (send (user_request c user_id password is_superuser)))
    require (resp.status_code == 201) (text ("emqx returned " <> resp.status <> ": " <> resp.body))
    wrapping "invalid emqx response: " (lift (decode_stream W decode_user resp.body))
