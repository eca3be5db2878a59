-- ===== src/Go/ServeMux.antt =====
-- What `http.ServeMux` does with the path of a request before it looks at its patterns (Go 1.24): the
-- canonical form of the path, to which it redirects, and the segments that it matches.
pub mod Laws
use Prim.Native.Char.{Char, code}
use nostradamus_api.Prelude.{
  String, ◌<>◌, Bool, false, List, [], ◌∷◌, str_eq, ◌==◌, ◌&&◌, not, if◌then◌else◌,
}

abbrev pub is_slash : Char → Bool
is_slash c = code c == b'/'

abbrev pub prepend : Char → List String → List String
prepend c [] = String.◌∷◌ c "" ∷ []
prepend c (p ∷ ps) = String.◌∷◌ c p ∷ ps

-- The parts between the slashes; a text without a slash is one part.
unfoldable pub split_slash : String → List String
split_slash String.[] = "" ∷ []
split_slash (String.◌∷◌ c s) =
    let rest = split_slash s in if is_slash c then "" ∷ rest else prepend c rest

unfoldable pub rooted : List String → String
rooted [] = ""
rooted (p ∷ ps) = "/" <> p <> rooted ps

abbrev pub parent : List String → List String
parent [] = []
parent (_ ∷ up) = up

-- One part of a path, for the parts so far, the last one first.
unfoldable pub resolve : List String → String → List String
resolve stack part =
    if str_eq part ""
    then stack
    else if str_eq part "."
    then stack
    else if str_eq part ".."
    then parent stack
    else part ∷ stack

unfoldable pub resolve_all : List String → List String → List String
unfolding resolve
resolve_all stack [] = stack
resolve_all stack (part ∷ parts) = resolve_all (resolve stack part) parts

abbrev pub reversed : List String → List String → List String
reversed out [] = out
reversed out (p ∷ ps) = reversed (p ∷ out) ps

-- `path.Clean` of a path with a slash in front.
unfoldable pub clean : String → String
unfolding split_slash rooted resolve_all
clean path =
    let cleaned = rooted (reversed [] (resolve_all [] (split_slash path))) in
    if str_eq cleaned "" then "/" else cleaned

unfoldable pub ends_in_slash : String → Bool
ends_in_slash String.[] = false
ends_in_slash (String.◌∷◌ c String.[]) = is_slash c
ends_in_slash (String.◌∷◌ c (String.◌∷◌ d s)) = ends_in_slash (String.◌∷◌ d s)

abbrev pub with_slash : String → String
with_slash String.[] = "/"
with_slash (String.◌∷◌ c s) = if is_slash c then String.◌∷◌ c s else "/" <> String.◌∷◌ c s

-- `cleanPath`: a slash in front, `path.Clean`, and the slash at the end put back.
unfoldable pub clean_path : String → String
unfolding clean ends_in_slash
clean_path p =
    let path = with_slash p in
    let cleaned = clean path in
    if ends_in_slash path && not (str_eq cleaned "/") then cleaned <> "/" else cleaned

module _ (unescape : String → String) where
  -- `firstSegment`, again and again: an empty part at the end is the segment "/".
  unfoldable pub read_parts : List String → List String
  read_parts [] = []
  read_parts (p ∷ []) = (if str_eq p "" then "/" else unescape p) ∷ []
  read_parts (p ∷ q ∷ ps) = unescape p ∷ read_parts (q ∷ ps)

  -- The segments of a path, its first character left out.
  unfoldable pub segments : String → List String
  unfolding split_slash read_parts
  segments String.[] = []
  segments (String.◌∷◌ c s) = read_parts (split_slash s)
