-- ===== src/Go/ServeMux/Laws.antt =====
-- A path of two segments.
use Prim.Native.Char.{Char, code}
use text.Mathlib.TextLemmas.{nil-append, cons-append}
use text.Mathlib.TextEquality.{Char-path}
use nostradamus_api.Prelude.{
  String, ◌<>◌, ◌≡◌, refl, ap, sym, subst, ◌∙◌, inl, inr, Bool, true, false, List, [], ◌∷◌, arith,
  ==_iff, ◌&&◌, not, Bool-cases,
}
use nostradamus_api.Go.ServeMux.{is_slash, prepend, split_slash}

-- Has the text no slash?
abbrev pub is_plain : String → Bool
is_plain String.[] = true
is_plain (String.◌∷◌ c s) = not (is_slash c) && is_plain s

are_plain : List String → Bool
are_plain [] = true
are_plain (p ∷ ps) = is_plain p && are_plain ps

glue : List String → String
glue [] = ""
glue (p ∷ []) = p
glue (p ∷ q ∷ ps) = p <> ("/" <> glue (q ∷ ps))

is_cons : List String → Bool
is_cons [] = false
is_cons (_ ∷ _) = true

abbrev slash : Char
slash = "/"

slash-append : (c : Char) (s : String) → is_slash c ≡ true → "/" <> s ≡ String.◌∷◌ c s
slash-append c s h =
    let same : c ≡ slash = Char-path c slash ((==_iff (code c) (code slash)).0 h) in
    cons-append slash "" s
    ∙ ap (λ t. String.◌∷◌ slash t) (nil-append s)
    ∙ ap (λ d. String.◌∷◌ d s) (sym same)

prepend-is_cons : (c : Char) (ps : List String) → is_cons (prepend c ps) ≡ true
unfolding is_cons
prepend-is_cons c [] = refl
prepend-is_cons c (p ∷ ps) = refl

split_slash-is_cons : (s : String) → is_cons (split_slash s) ≡ true
unfolding split_slash is_cons
split_slash-is_cons String.[] = refl
split_slash-is_cons (String.◌∷◌ c s) = elim (Bool-cases (is_slash c)) [
  | inl q ↦ rw (q, split_slash) refl
  | inr q ↦ rw (q, split_slash) (prepend-is_cons c (split_slash s))
]

glue-prepend : (c : Char) (ps : List String) → glue (prepend c ps) ≡ String.◌∷◌ c (glue ps)
unfolding glue
glue-prepend c [] = refl
glue-prepend c (p ∷ []) = refl
glue-prepend c (p ∷ q ∷ ps) = cons-append c p ("/" <> glue (q ∷ ps))

glue-empty : (ps : List String) → is_cons ps ≡ true → glue ("" ∷ ps) ≡ "/" <> glue ps
unfolding glue is_cons
glue-empty [] h = absurd (ground (arith, h))
glue-empty (p ∷ ps) h = nil-append ("/" <> glue (p ∷ ps))

glue-split_slash : (s : String) → glue (split_slash s) ≡ s
unfolding split_slash glue
glue-split_slash String.[] = refl
glue-split_slash (String.◌∷◌ c s) = elim (Bool-cases (is_slash c)) [
  | inl q ↦
      rw (q, split_slash)
        (glue-empty (split_slash s) (split_slash-is_cons s)
          ∙ ap (λ t. "/" <> t) (glue-split_slash s)
          ∙ slash-append c s q)
  | inr q ↦
      rw (q, split_slash)
        (glue-prepend c (split_slash s) ∙ ap (λ t. String.◌∷◌ c t) (glue-split_slash s))
]

prepend-are_plain :
    (c : Char) (ps : List String)
    → is_slash c ≡ false
    → are_plain ps ≡ true
    → are_plain (prepend c ps) ≡ true
unfolding are_plain
prepend-are_plain c [] q h = ground (arith, q)
prepend-are_plain c (p ∷ ps) q h = ground (arith, q, h)

split_slash-are_plain : (s : String) → are_plain (split_slash s) ≡ true
unfolding split_slash are_plain
split_slash-are_plain String.[] = refl
split_slash-are_plain (String.◌∷◌ c s) = elim (Bool-cases (is_slash c)) [
  | inl q ↦ rw (q, split_slash, are_plain) (split_slash-are_plain s)
  | inr q ↦ rw (q, split_slash) (prepend-are_plain c (split_slash s) q (split_slash-are_plain s))
]

-- What splits into two parts has one slash, between them.
pub split_slash_sound :
    (s a b : String)
    → split_slash s ≡ a ∷ b ∷ []
    → (s ≡ a <> ("/" <> b)) × (is_plain a ≡ true) × (is_plain b ≡ true)
unfolding glue are_plain
split_slash_sound s a b h =
    let plain : are_plain (a ∷ b ∷ []) ≡ true =
      subst (λ ps. are_plain ps ≡ true) h (split_slash-are_plain s) in
    (sym (glue-split_slash s) ∙ ap glue h, ground (arith, plain), ground (arith, plain))

split_slash-plain : (b : String) → is_plain b ≡ true → split_slash b ≡ b ∷ []
unfolding split_slash
split_slash-plain String.[] h = refl
split_slash-plain (String.◌∷◌ c s) h =
    let q : is_slash c ≡ false = ground (arith, h) in
    rw (q, split_slash) (ap (prepend c) (split_slash-plain s (ground (arith, h))))

pub split_slash_complete :
    (a b : String)
    → is_plain a ≡ true
    → is_plain b ≡ true
    → split_slash (a <> ("/" <> b)) ≡ a ∷ b ∷ []
unfolding split_slash
split_slash_complete String.[] b p q =
    ap split_slash (nil-append ("/" <> b) ∙ slash-append slash b refl)
    ∙ ap (λ ps. "" ∷ ps) (split_slash-plain b q)
split_slash_complete (String.◌∷◌ c s) b p q =
    let other : is_slash c ≡ false = ground (arith, p) in
    ap split_slash (cons-append c s ("/" <> b))
    ∙ rw (other, split_slash) (ap (prepend c) (split_slash_complete s b (ground (arith, p)) q))
