-- ===== src/Arroyo/Client.antt =====
-- `ArroyoClient` with `Get`, `Post` and `Delete` (internal/arroyo/arroyo.go).
use nostradamus_api.Prelude.{String, ◌<>◌, Option, none, some, [], ◌∷◌}
use nostradamus_api.Go.Fallible.{Result, ok, Fallible, lift, ◌>>=◌, ◌>>◌}
use nostradamus_api.Go.Fallible.{result_of_error}
use nostradamus_api.Go.Json.{Json, marshal}
use nostradamus_api.Go.Decode
use nostradamus_api.World.{World, State, perform}
use nostradamus_api.World.Calls.{HttpRequest, HttpResponse, send}

pub record ArroyoClient : Type 0 where
  pub base_url : String

abbrev pub get_request : ArroyoClient → String → HttpRequest
get_request ac path = record {
  method = "GET";
  url = "http://" <> ac.base_url <> path;
  headers = [];
  basic_auth = none;
  body = none;
}

-- A POST or a DELETE of the client.
abbrev pub json_request : String → ArroyoClient → String → Option Json → HttpRequest
json_request method ac path body = record {
  method = method;
  url = "http://" <> ac.base_url <> path;
  headers = ("Content-Type", "application/json") ∷ [];
  basic_auth = none;
  body = body;
}

abbrev pub marshal_body : Option Json → Result (Option Json)
marshal_body none = ok none
marshal_body (some v) = Decode.◌>>=◌ (marshal v) (λ doc. ok (some doc))

module _ (W : World) (ac : ArroyoClient) where
  unfoldable pub get : String → Fallible (State W) HttpResponse
  unfolding perform
  get path = perform W (send (get_request ac path))

  unfoldable pub post : String → Option Json → Fallible (State W) HttpResponse
  unfolding perform marshal
  post path body = do
    doc ← lift (marshal_body body)
    lift (result_of_error (World.url_error W ("http://" <> ac.base_url <> path)))
    perform W (send (json_request "POST" ac path doc))

  unfoldable pub delete : String → Option Json → Fallible (State W) HttpResponse
  unfolding perform marshal
  delete path body = do
    doc ← lift (marshal_body body)
    lift (result_of_error (World.url_error W ("http://" <> ac.base_url <> path)))
    perform W (send (json_request "DELETE" ac path doc))
