-- ===== src/Utils.antt =====
-- pkg/utils: the replies that the handlers send (json.go) and the CORS wrapper (middleware.go).
pub mod Laws
use nostradamus_api.Prelude.{ℕ, String, str_eq, if◌then◌else◌}
use nostradamus_api.Go.Io.{Io}
use nostradamus_api.Go.Json.{Json, obj, field, str, end}
use nostradamus_api.Go.Http.{Request, Writer, add_header, write_header, encode, set_header}

-- `ReplyJSON`. Its error is ignored by every caller.
unfoldable pub reply_json : ℕ → Json → Writer → Writer
unfolding add_header write_header encode
reply_json status body w =
    encode body (write_header status (add_header "Content-Type" "application/json" w))

-- `Body{"error": message}`
abbrev pub error_body : String → Json
error_body m = obj (field "error" (str m) end)

-- `Body{"data": v}`
abbrev pub data_body : Json → Json
data_body v = obj (field "data" v end)

unfoldable pub reply_method_not_allowed : Writer → Writer
reply_method_not_allowed w = reply_json 405 (error_body "Method Not Allowed") w

unfoldable pub reply_bad_request : String → Writer → Writer
reply_bad_request e w = reply_json 400 (error_body e) w

unfoldable pub reply_internal_server_error : String → Writer → Writer
reply_internal_server_error e w = reply_json 500 (error_body e) w

unfoldable pub reply_not_found : String → Writer → Writer
reply_not_found e w = reply_json 404 (error_body e) w

unfoldable pub reply_unavailable : String → Writer → Writer
reply_unavailable e w = reply_json 503 (error_body e) w

-- `WithCORS`, of a handler over any state.
unfoldable pub with_cors :
    {S : Type 0} → (Request → Writer → Io S Writer) → Request → Writer → Io S Writer
unfolding set_header write_header
with_cors handler r w s =
    let w' = set_header "Access-Control-Allow-Headers" "Content-Type" (
      set_header "Access-Control-Allow-Methods" "GET, OPTIONS"
        (set_header "Access-Control-Allow-Origin" "*" w)) in
    if str_eq r.method "OPTIONS" then (write_header 204 w', s) else handler r w' s
