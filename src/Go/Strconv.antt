-- ===== src/Go/Strconv.antt =====
-- `strconv.Atoi` and the printing of decimal numbers (`%d`).
pub mod Laws
use Prim.Native.Char.{code}
use nostradamus_api.Prelude.{
  ℕ, zero, suc, ◌+◌, ◌-◌, ◌*◌, ◌/◌, ◌%◌, ◌^◌, String, ◌<>◌, ◌&&◌, true, false, Option, none, some,
  ltb, leb, ◌==◌, if◌then◌else◌,
}
use nostradamus_api.Prelude.Int.{ℤ, pos, negsuc, sub_ℕ}
use nostradamus_api.Errors.{text}
use nostradamus_api.Go.Fallible.{Result, ok, err}

-- The number of a run of decimal digits; `none` at any other character.
abbrev pub digits : ℕ → String → Option ℕ
digits n String.[] = some n
digits n (String.◌∷◌ c s) = elim (leb b'0' (code c) && leb (code c) b'9') [
  | true ↦ digits (n * 10 + (code c - b'0')) s
  | false ↦ none
]

unfoldable pub unsigned : String → Option ℕ
unsigned String.[] = none
unsigned (String.◌∷◌ c s) = digits 0 (String.◌∷◌ c s)

-- An optional sign, then digits; `true` for a minus.
abbrev in_range_pos : String → Option ℕ → Result ℤ
in_range_pos s none = err (text ("strconv.Atoi: parsing \"" <> s <> "\": invalid syntax"))
in_range_pos s (some n) =
    if ltb n (2 ^ 63)
    then ok (pos n)
    else err (text ("strconv.Atoi: parsing \"" <> s <> "\": value out of range"))

abbrev in_range_neg : String → Option ℕ → Result ℤ
in_range_neg s none = err (text ("strconv.Atoi: parsing \"" <> s <> "\": invalid syntax"))
in_range_neg s (some n) =
    if leb n (2 ^ 63)
    then ok (sub_ℕ 0 n)
    else err (text ("strconv.Atoi: parsing \"" <> s <> "\": value out of range"))

unfoldable pub atoi : String → Result ℤ
unfolding unsigned
atoi String.[] = err (text "strconv.Atoi: parsing \"\": invalid syntax")
atoi (String.◌∷◌ c s) =
    if code c == b'-'
    then in_range_neg (String.◌∷◌ c s) (unsigned s)
    else if code c == b'+'
    then in_range_pos (String.◌∷◌ c s) (unsigned s)
    else in_range_pos (String.◌∷◌ c s) (unsigned (String.◌∷◌ c s))

abbrev pub digit_text : ℕ → String
digit_text zero = "0"
digit_text (suc zero) = "1"
digit_text (suc (suc zero)) = "2"
digit_text (suc (suc (suc zero))) = "3"
digit_text (suc (suc (suc (suc zero)))) = "4"
digit_text (suc (suc (suc (suc (suc zero))))) = "5"
digit_text (suc (suc (suc (suc (suc (suc zero)))))) = "6"
digit_text (suc (suc (suc (suc (suc (suc (suc zero))))))) = "7"
digit_text (suc (suc (suc (suc (suc (suc (suc (suc zero)))))))) = "8"
digit_text n = "9"

-- The last `width` decimal digits, with leading zeros.
unfoldable pub padded : ℕ → ℕ → String
padded zero n = ""
padded (suc width) n = padded width (n / 10) <> digit_text (n % 10)

-- The number of digits, at most `fuel`.
unfoldable pub width_of : ℕ → ℕ → ℕ
width_of zero n = 1
width_of (suc fuel) n = let more = suc (width_of fuel (n / 10)) in if ltb n 10 then 1 else more

-- `%d` of a number below 10 ^ 20, which holds of every 64-bit integer.
unfoldable pub decimal : ℕ → String
unfolding padded width_of
decimal n = padded (width_of 20 n) n

unfoldable pub decimal_ℤ : ℤ → String
unfolding decimal
decimal_ℤ (pos n) = decimal n
decimal_ℤ (negsuc n) = "-" <> decimal (suc n)
