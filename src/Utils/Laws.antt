-- ===== src/Utils/Laws.antt =====
-- What a reply puts on the wire.
use nostradamus_api.Prelude.{ℕ, ◌≡◌, true, none, some, [], ◌∷◌, ◌++◌, arith}
use nostradamus_api.Go.Json.{Json, encodable}
use nostradamus_api.Go.Http.{document, Writer}
use nostradamus_api.Utils.{reply_json}

-- A response on which nothing was sent before.
abbrev pub IsFresh : Writer → Type 0
IsFresh w = w.sent ≡ none

-- Exactly this status went out, and exactly this document.
pub record Replied (status : ℕ) (body : Json) (w w' : Writer) : Type 0 where
  pub status_sent : w'.sent ≡ some (status, w.header ++ (("Content-Type", "application/json") ∷ []))
  pub body_sent : w'.body ≡ w.body ++ (document body ∷ [])

-- On a response on which nothing was sent, `ReplyJSON` of a value that JSON can encode sends exactly
-- the given status, with the content type added to the header, and exactly the one document.
pub reply_json-Replied :
    (status : ℕ) (body : Json) (w : Writer)
    → IsFresh w
    → encodable body ≡ true
    → Replied status body w (reply_json status body w)
unfolding reply_json
reply_json-Replied status body w fresh ok = ground arith
