-- ===== src/Routes/Answered/Ready.antt =====
-- A response writer on which nothing was sent and whose header allows every origin, and the replies
-- to it (pkg/utils/json.go, `http.Error`).
use nostradamus_api.Prelude.{
  ℕ, any, ◌==◌, ◌&&◌, List, String, ◌≡◌, refl, ◌∙◌, inl, inr, Bool, true, false, Option, none, some,
  [], ◌∷◌, ◌++◌, lookup, str_eq, arith, eq_iff, Bool-cases, if◌then◌else◌,
}
use nostradamus_api.Errors.{Error}
use nostradamus_api.Go.Fallible.{Result, ok, err}
use nostradamus_api.Go.Json.{Json}
use nostradamus_api.Go.Http.{
  Request, Chunk, link, Writer, Header, without, set_header, write_header, write, redirect,
  http_error,
}
use nostradamus_api.Utils.{reply_json}

abbrev pub allow_origin : String
allow_origin = "Access-Control-Allow-Origin"

abbrev pub IsAllowed : Header → Type 0
IsAllowed h = lookup allow_origin h ≡ some "*"

-- Nothing was sent, and the header allows every origin.
abbrev pub IsOpen : Writer → Type 0
IsOpen w = (w.sent ≡ none) × IsAllowed w.header

-- One of these statuses.
abbrev pub one_of : List ℕ → ℕ → Bool
one_of statuses status = any (λ n. n == status) statuses

-- Did a status go out that may go out, with a header that allows every origin?
abbrev pub answers : (ℕ → Bool) → Writer → Bool
answers may w = elim w.sent [
  | none ↦ false
  | some (status, h) ↦
      may status && elim (lookup allow_origin h) [ none ↦ false | some v ↦ str_eq v "*" ]
]

lookup-append : (k v : String) (h g : Header) → lookup k h ≡ some v → lookup k (h ++ g) ≡ some v
lookup-append k v [] g e = cc
lookup-append k v ((j, u) ∷ h) g e = elim (Bool-cases (str_eq j k)) [
  | inl q ↦ ground (arith, q)
  | inr q ↦ rw (q, lookup) (lookup-append k v h g (ground (arith, q)))
]

lookup-without :
    (k j : String) (h : Header) → str_eq j k ≡ false → lookup k (without j h) ≡ lookup k h
lookup-without k j [] e = refl
lookup-without k j ((i, u) ∷ h) e = elim (Bool-cases (str_eq i j)) [
  | inl q ↦
      let same : i ≡ j = (eq_iff i j).0 q in
      let other : str_eq i k ≡ false = rw same e in
      rw (q, other, without, lookup) (lookup-without k j h e)
  | inr q ↦ elim (Bool-cases (str_eq i k)) [
    | inl q' ↦ rw (q, q', without, lookup) refl
    | inr q' ↦ rw (q, q', without, lookup) (lookup-without k j h e)
  ]
]

set_header-IsAllowed :
    (k v : String) (w : Writer)
    → str_eq k allow_origin ≡ false
    → IsAllowed w.header
    → IsAllowed (set_header k v w).header
unfolding set_header
set_header-IsAllowed k v w other h =
    lookup-append allow_origin "*" (without k w.header) _
      (lookup-without allow_origin k w.header other ∙ h)

-- The headers that the two ways to reply send.
abbrev pub json_header : Writer → Header
json_header w = w.header ++ (("Content-Type", "application/json") ∷ [])

abbrev pub plain_header : Writer → Header
plain_header w =
    without "X-Content-Type-Options"
      (without "Content-Type" w.header ++ (("Content-Type", "text/plain; charset=utf-8") ∷ []))
    ++ (("X-Content-Type-Options", "nosniff") ∷ [])

-- A writer on which nothing was sent, and either reply to which will allow every origin.
pub record IsReady (w : Writer) : Type 0 where
  pub fresh : w.sent ≡ none
  pub allowed : IsAllowed w.header
  pub json : IsAllowed (json_header w)
  pub plain : IsAllowed (plain_header w)

pub IsOpen-IsReady : (w : Writer) → IsOpen w → IsReady w
unfolding set_header
IsOpen-IsReady w (fresh, allowed) =
    let w₁ = set_header "Content-Type" "text/plain; charset=utf-8" w in
    record {
      fresh = fresh;
      allowed = allowed;
      json = lookup-append allow_origin "*" w.header _ allowed;
      plain =
          set_header-IsAllowed "X-Content-Type-Options" "nosniff" w₁ refl
            (set_header-IsAllowed "Content-Type" "text/plain; charset=utf-8" w refl allowed);
    }

-- A writer that answers, and a result whose writer answers.
pub record Says (may : ℕ → Bool) (w : Writer) : Type 0 where
  pub said : answers may w ≡ true

pub record Ends {S : Type 0} (may : ℕ → Bool) (out : Writer × S) : Type 0 where
  pub ended : answers may out.0 ≡ true

module _ {may : ℕ → Bool} where
  pub ends : {S : Type 0} (w : Writer) (s : S) → Says may w → Ends may (w, s)
  ends w s h = record { ended = h.said }

-- A property of what a branching expression gives, from those of its branches.
module _ {Out : Type 0} (P : Out → Type 0) where
  pub on_if : (b : Bool) {x y : Out} → P x → P y → P (if b then x else y)
  on_if true h k = h
  on_if false h k = k

  pub on_option :
      {A : Type 0} (o : Option A) {x : Out} {f : A → Out}
      → P x
      → ((a : A) → P (f a))
      → P (elim o [ none ↦ x | some a ↦ f a ])
  on_option none h k = h
  on_option (some a) h k = k a

  pub on_result :
      {A : Type 0} (res : Result A) {f : Error → Out} {g : A → Out}
      → ((e : Error) → P (f e))
      → ((a : A) → P (g a))
      → P (elim res [ err e ↦ f e | ok a ↦ g a ])
  on_result (ok a) h k = k a
  on_result (err e) h k = h e

  -- The same, with what the result is.
  pub on_result_eq :
      {A : Type 0} (res : Result A) {f : Error → Out} {g : A → Out}
      → ((e : Error) → P (f e))
      → ((a : A) → res ≡ ok a → P (g a))
      → P (elim res [ err e ↦ f e | ok a ↦ g a ])
  on_result_eq (ok a) h k = k a refl
  on_result_eq (err e) h k = h e

pub set_header-IsOpen :
    (k v : String) (w : Writer)
    → str_eq k allow_origin ≡ false
    → IsOpen w
    → IsOpen (set_header k v w)
unfolding set_header
set_header-IsOpen k v w other (fresh, allowed) = (fresh, set_header-IsAllowed k v w other allowed)

pub lookup-add : (k v : String) (h : Header) → lookup k (without k h ++ ((k, v) ∷ [])) ≡ some v
lookup-add k v [] = ground (arith, eq_iff k k)
lookup-add k v ((j, u) ∷ h) = elim (Bool-cases (str_eq j k)) [
  | inl q ↦ rw (q, without) (lookup-add k v h)
  | inr q ↦ rw (q, without, q, lookup) (lookup-add k v h)
]

pub write_header-answers :
    (may : ℕ → Bool) (status : ℕ) (w : Writer)
    → may status ≡ true
    → IsOpen w
    → answers may (write_header status w) ≡ true
unfolding write_header
write_header-answers may status w fits (fresh, allowed) = ground arith

module _ {may : ℕ → Bool} (w : Writer) (o : IsReady w) where
  pub reply_json-Says :
      (status : ℕ) (v : Json) → may status ≡ true → Says may (reply_json status v w)
  unfolding reply_json
  reply_json-Says status v fits =
      let fresh = o.fresh in let json = o.json in record { said = ground arith }

  pub http_error-Says :
      (m : String) (status : ℕ) → may status ≡ true → Says may (http_error m status w)
  unfolding http_error
  http_error-Says m status fits =
      let fresh = o.fresh in let plain = o.plain in record { said = ground arith }

module _ {may : ℕ → Bool} (w : Writer) (o : IsReady w) where
  pub malformed-Says :
      may 400 ≡ true → Says may (write_header 400 (set_header "Connection" "close" w))
  malformed-Says fits = record {
    said =
        write_header-answers may 400 _ fits
          (set_header-IsOpen "Connection" "close" w refl (o.fresh, o.allowed));
  }

  -- A body behind the status leaves the status and its header as they are.
  write-Says : (c : Chunk) (w' : Writer) → Says may w' → Says may (write c w')
  unfolding write write_header
  write-Says c w' h = let said = h.said in record { said = ground arith }

  pub redirect-Says :
      (r : Request) (to : String) (status : ℕ)
      → may status ≡ true
      → Says may (redirect r to status w)
  unfolding redirect
  redirect-Says r to status fits =
      let w₁ = set_header "Location" to w in
      let open₁ : IsOpen w₁ = set_header-IsOpen "Location" to w refl (o.fresh, o.allowed) in
      let plain : Says may (write_header status w₁) = record {
        said = write_header-answers may status w₁ fits open₁;
      } in
      let typed = set_header "Content-Type" "text/html; charset=utf-8" w₁ in
      let open₂ : IsOpen typed = set_header-IsOpen "Content-Type" _ w₁ refl open₁ in
      let html : Says may (write_header status typed) = record {
        said = write_header-answers may status typed fits open₂;
      } in
      on_option_writer (lookup "Content-Type" w.header) (λ v. plain)
        (on_if (Says may) (str_eq r.method "GET") (write-Says (link to) _ html)
          (on_if (Says may) (str_eq r.method "HEAD") html plain))
    where
      on_option_writer :
          {f : String → Writer} {y : Writer} (found : Option String)
          → ((v : String) → Says may (f v))
          → Says may y
          → Says may (elim found [ some v ↦ f v | none ↦ y ])
      on_option_writer (some v) h k = h v
      on_option_writer none h k = k

-- A second reply leaves the status and the header of the first as they are.
pub reply_json-again :
    {may : ℕ → Bool} (status : ℕ) (v : Json) (w : Writer)
    → Says may w
    → Says may (reply_json status v w)
unfolding reply_json
reply_json-again status v w h = let said = h.said in record { said = ground arith }
