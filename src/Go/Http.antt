-- ===== src/Go/Http.antt =====
-- `net/http`: the request as a handler reads it, and the response writer.
use nostradamus_api.Prelude.{
  ℕ, String, true, false, Option, none, some, List, [], ◌∷◌, ◌++◌, lookup, str_eq, if◌then◌else◌,
}
use nostradamus_api.Go.Json.{Json, marshal}
use nostradamus_api.Go.Fallible.{ok, err}

-- The path is `r.URL.EscapedPath()`.
pub record Request : Type 0 where
  pub method : String
  pub path : String
  pub query : List (String × String)
  pub body : String

-- `r.URL.Query().Get(key)`: "" where the key is missing.
unfoldable pub query_get : Request → String → String
query_get r key = elim (lookup key r.query) [ none ↦ "" | some v ↦ v ]

-- What is written to the body: one JSON document and a newline, a line of text, or the note of
-- `http.Redirect` with a link to the address.
pub data Chunk : Type 0 where
  document : Json → Chunk
  line : String → Chunk
  link : String → Chunk

abbrev pub Header : Type 0
Header = List (String × String)

-- `sent` is the status line with the header as it was when it went out; nothing changes it later.
pub record Writer : Type 0 where
  pub header : Header
  pub sent : Option (ℕ × Header)
  pub body : List Chunk

abbrev pub new_writer : Writer
new_writer = record { header = []; sent = none; body = [] }

abbrev pub without : String → Header → Header
without k [] = []
without k ((j, v) ∷ h) = elim (str_eq j k) [ true ↦ without k h | false ↦ (j, v) ∷ without k h ]

-- `w.Header().Set(key, value)`
unfoldable pub set_header : String → String → Writer → Writer
set_header k v w = record w { header = without k w.header ++ ((k, v) ∷ []) }

-- `w.Header().Add(key, value)`
unfoldable pub add_header : String → String → Writer → Writer
add_header k v w = record w { header = w.header ++ ((k, v) ∷ []) }

-- `w.WriteHeader(status)`: only the first call counts.
unfoldable pub write_header : ℕ → Writer → Writer
write_header status w = record w {
  sent = elim w.sent [ none ↦ some (status, w.header) | some first ↦ some first ];
}

-- `w.Write`: sends status 200 first, if no status went out.
unfoldable pub write : Chunk → Writer → Writer
unfolding write_header
write c w = let w' = write_header 200 w in record w' { body = w'.body ++ (c ∷ []) }

-- `json.NewEncoder(w).Encode(v)`: nothing is written where the value has no encoding.
unfoldable pub encode : Json → Writer → Writer
unfolding write marshal
encode v w = elim (marshal v) [ ok doc ↦ write (document doc) w | err _ ↦ w ]

-- `http.Error(w, message, code)`
unfoldable pub http_error : String → ℕ → Writer → Writer
unfolding set_header write_header write
http_error msg code w = write (line msg) (
    write_header code (
      set_header "X-Content-Type-Options" "nosniff"
        (set_header "Content-Type" "text/plain; charset=utf-8" w)))

-- `http.Redirect(w, r, url, code)`, behind the computing of the location: only where no type of the
-- content is set, GET and HEAD are answered with one, and GET with a note.
unfoldable pub redirect : Request → String → ℕ → Writer → Writer
unfolding set_header write_header write
redirect r location code w =
    let w₁ = set_header "Location" location w in
    elim (lookup "Content-Type" w.header) [
      | some _ ↦ write_header code w₁
      | none ↦
          let typed = set_header "Content-Type" "text/html; charset=utf-8" w₁ in
          if str_eq r.method "GET"
          then write (link location) (write_header code typed)
          else if str_eq r.method "HEAD"
          then write_header code typed
          else write_header code w₁
    ]
