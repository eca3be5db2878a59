-- ===== src/Go/Json.antt =====
-- `encoding/json` on values: what `json.Marshal` writes, and how `json.Unmarshal` fills the fields of
-- a struct. The step between a text and its value is a parameter of the model (World.antt).
-- Keys are matched exactly (Go also accepts another case); the text of a type error names only the
-- wanted type.
use nostradamus_api.Prelude.{
  suc, ◌^◌, String, ◌<>◌, Bool, true, false, ◌&&◌, Option, none, some, List, [], ◌∷◌, str_eq, ltb,
  if◌then◌else◌,
}
use nostradamus_api.Prelude.Int.{ℤ, pos, pos_part, neg_part}
use nostradamus_api.Errors.{Error, text}
use nostradamus_api.Go.Fallible.{Result, ok, err}
use nostradamus_api.Go.Float64.{Float64, is_finite}

mutual
  pub data Json : Type 0 where
    null : Json
    bool : Bool → Json
    int : ℤ → Json
    real : Float64 → Json
    str : String → Json
    arr : Items → Json
    obj : Fields → Json

  pub data Items : Type 0 where
    nil : Items
    cons : Json → Items → Items

  pub data Fields : Type 0 where
    end : Fields
    field : String → Json → Fields → Fields

-- Does `json.Marshal` accept the value? It refuses NaN and the infinities.
unfoldable mutual
  pub encodable : Json → Bool
  encodable (real x) = is_finite x
  encodable (arr xs) = encodable_items xs
  encodable (obj fs) = encodable_fields fs
  encodable _ = true

  pub encodable_items : Items → Bool
  encodable_items nil = true
  encodable_items (cons x xs) = encodable x && encodable_items xs

  pub encodable_fields : Fields → Bool
  encodable_fields end = true
  encodable_fields (field _ v fs) = encodable v && encodable_fields fs

unfoldable pub marshal : Json → Result Json
unfolding encodable
marshal v = if encodable v then ok v else err (text "json: unsupported value")

-- An array of the values that `f` gives.
abbrev pub items {ℓ} : {A : Type ℓ} → (A → Json) → List A → Items
items f [] = nil
items f (x ∷ xs) = cons (f x) (items f xs)

abbrev pub elems : Items → List Json
elems nil = []
elems (cons v vs) = v ∷ elems vs

-- The value of a key, the last one where it is repeated; `null` where it is missing. Both leave the
-- field of a struct at its zero value.
abbrev pub get_from : Json → String → Fields → Json
get_from v k end = v
get_from v k (field j w fs) = get_from (if str_eq j k then w else v) k fs

abbrev pub type_error : String → Error
type_error wanted = text ("json: cannot unmarshal into Go value of type " <> wanted)

-- The fields of a struct: `null` leaves every field at its zero value.
abbrev pub object : Json → Result Fields
object null = ok end
object (obj fs) = ok fs
object _ = err (type_error "struct")

abbrev pub string_value : Json → Result String
string_value null = ok ""
string_value (str s) = ok s
string_value _ = err (type_error "string")

abbrev pub bool_value : Json → Result Bool
bool_value null = ok false
bool_value (bool b) = ok b
bool_value _ = err (type_error "bool")

-- An `int` or an `int64`.
abbrev pub int_value : Json → Result ℤ
int_value null = ok (pos 0)
int_value (int n) =
    if ltb (pos_part n) (2 ^ 63) && ltb (neg_part n) (suc (2 ^ 63))
    then ok n
    else err (type_error "int")
int_value _ = err (type_error "int")

-- A `*int`: `null` and a missing key give nil.
abbrev pub int_pointer : Json → Result (Option ℤ)
int_pointer null = ok none
int_pointer (int n) =
    if ltb (pos_part n) (2 ^ 63) && ltb (neg_part n) (suc (2 ^ 63))
    then ok (some n)
    else err (type_error "int")
int_pointer _ = err (type_error "int")

module _ {A : Type 0} (value : Json → Result A) where
  abbrev add : Result A → Result (List A) → Result (List A)
  add (ok a) (ok as') = ok (a ∷ as')
  add (ok a) (err e) = err e
  add (err e) _ = err e

  abbrev pub list_items : Items → Result (List A)
  list_items nil = ok []
  list_items (cons v vs) = add (value v) (list_items vs)

  abbrev present : Result (List A) → Result (Option (List A))
  present (ok vs) = ok (some vs)
  present (err e) = err e

  -- A slice: `null` and a missing key give nil.
  abbrev pub slice_value : Json → Result (Option (List A))
  slice_value null = ok none
  slice_value (arr vs) = present (list_items vs)
  slice_value _ = err (type_error "slice")

-- The elements that `range` visits; nil has none.
abbrev pub slice_elems {ℓ} : {A : Type ℓ} → Option (List A) → List A
slice_elems none = []
slice_elems (some vs) = vs

-- A nil slice is written as `null`.
abbrev pub slice_json {ℓ} : {A : Type ℓ} → (A → Json) → Option (List A) → Json
slice_json f none = null
slice_json f (some vs) = arr (items f vs)

-- The slice that a run of `append` makes of a nil slice.
abbrev pub appended {ℓ} : {A : Type ℓ} → List A → Option (List A)
appended [] = none
appended (v ∷ vs) = some (v ∷ vs)
