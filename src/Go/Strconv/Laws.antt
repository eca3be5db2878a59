-- ===== src/Go/Strconv/Laws.antt =====
-- Decimal texts: printing and `strconv.Atoi`.
use Prim.Native.Char.{code}
use Prim.Native.String.{count}
use text.Mathlib.TextLemmas.{length-append, length-nil, nil-append, cons-append}
use nostradamus_api.Prelude.{
  ℕ, zero, suc, ◌+◌, ◌-◌, ◌*◌, ◌/◌, ◌%◌, ◌^◌, ◌≤◌, ◌<◌, String, ◌<>◌, ◌≡◌, refl, inl, inr, some,
  none, arith, Bool-cases, ltb, leb, ◌&&◌, ap, ◌∙◌,
}
use nostradamus_api.Prelude.Int.{ℤ, pos, negsuc, pos_part, neg_part}
use nostradamus_api.Go.Fallible.{ok}
use nostradamus_api.Go.Strconv.{
  digits, unsigned, atoi, digit_text, padded, width_of, decimal, decimal_ℤ,
}

pub count-digit_text : (n : ℕ) → count (digit_text n) ≡ 1
count-digit_text zero = refl
count-digit_text (suc zero) = refl
count-digit_text (suc (suc zero)) = refl
count-digit_text (suc (suc (suc zero))) = refl
count-digit_text (suc (suc (suc (suc zero)))) = refl
count-digit_text (suc (suc (suc (suc (suc zero))))) = refl
count-digit_text (suc (suc (suc (suc (suc (suc zero)))))) = refl
count-digit_text (suc (suc (suc (suc (suc (suc (suc zero))))))) = refl
count-digit_text (suc (suc (suc (suc (suc (suc (suc (suc zero)))))))) = refl
count-digit_text (suc (suc (suc (suc (suc (suc (suc (suc (suc n))))))))) = refl

pub count-padded : (width n : ℕ) → count (padded width n) ≡ width
unfolding padded
count-padded zero n = refl
count-padded (suc width) n = omega (
  arith,
  length-append (padded width (n / 10)) (digit_text (n % 10)),
  count-padded width (n / 10),
  count-digit_text (n % 10),
)

digits-digit_text : (m d : ℕ) → d < 10 → digits m (digit_text d) ≡ some (m * 10 + d)
digits-digit_text m zero h = refl
digits-digit_text m (suc zero) h = refl
digits-digit_text m (suc (suc zero)) h = refl
digits-digit_text m (suc (suc (suc zero))) h = refl
digits-digit_text m (suc (suc (suc (suc zero)))) h = refl
digits-digit_text m (suc (suc (suc (suc (suc zero))))) h = refl
digits-digit_text m (suc (suc (suc (suc (suc (suc zero)))))) h = refl
digits-digit_text m (suc (suc (suc (suc (suc (suc (suc zero))))))) h = refl
digits-digit_text m (suc (suc (suc (suc (suc (suc (suc (suc zero)))))))) h = refl
digits-digit_text m (suc (suc (suc (suc (suc (suc (suc (suc (suc zero))))))))) h = refl
digits-digit_text m (suc (suc (suc (suc (suc (suc (suc (suc (suc (suc n)))))))))) h =
    absurd (omega arith)

-- Reading goes on behind a text of digits.
digits-append : (m k : ℕ) (a b : String) → digits m a ≡ some k → digits m (a <> b) ≡ digits k b
digits-append m k String.[] b h =
    ap (digits m) (nil-append b) ∙ ap (λ o. elim o [ none ↦ none | some j ↦ digits j b ]) h
digits-append m k (String.◌∷◌ c a) b h =
    ap (digits m) (cons-append c a b) ∙ elim (Bool-cases (leb b'0' (code c) && leb (code c) b'9')) [
      | inl q ↦ rw (q, digits) (digits-append (m * 10 + (code c - b'0')) k a b (ground (arith, q)))
      | inr q ↦ absurd (ground (arith, q))
    ]

digits-padded : (width n : ℕ) → n < 10 ^ width → digits 0 (padded width n) ≡ some n
unfolding padded
digits-padded zero n h = ground arith
digits-padded (suc width) n h =
    digits-append 0 (n / 10) (padded width (n / 10)) (digit_text (n % 10))
      (digits-padded width (n / 10) (omega arith))
    ∙ digits-digit_text (n / 10) (n % 10) (omega arith)
    ∙ ap some (omega arith)

pow_suc : (k : ℕ) → 10 ^ suc k ≡ 10 * 10 ^ k
pow_suc k = omega arith

width_of-lt : (fuel n : ℕ) → n < 10 ^ suc fuel → n < 10 ^ width_of fuel n
unfolding width_of
width_of-lt zero n h = omega arith
width_of-lt (suc fuel) n h = elim (Bool-cases (ltb n 10)) [
  | inl q ↦ rw (q, width_of) (ground (arith, q))
  | inr q ↦
      rw (q, width_of)
        (omega (
          arith,
          pow_suc (width_of fuel (n / 10)),
          width_of-lt fuel (n / 10) (omega (arith, pow_suc (suc fuel))),
        ))
]

width_of-pos : (fuel n : ℕ) → 0 < width_of fuel n
unfolding width_of
width_of-pos zero n = omega arith
width_of-pos (suc fuel) n = ground arith

digits-decimal : (n : ℕ) → n < 10 ^ 21 → digits 0 (decimal n) ≡ some n
unfolding decimal
digits-decimal n h = digits-padded (width_of 20 n) n (width_of-lt 20 n h)

count-decimal : (n : ℕ) → 0 < count (decimal n)
unfolding decimal
count-decimal n = omega (arith, count-padded (width_of 20 n) n, width_of-pos 20 n)

-- A text that starts with a digit has no sign.
first_digit :
    (n : ℕ) (s : String)
    → 0 < count s
    → digits 0 s ≡ some n
    → (unsigned s ≡ some n) × (n < 2 ^ 63 → atoi s ≡ ok (pos n))
unfolding unsigned atoi
first_digit n String.[] p h = absurd (omega (arith, length-nil, p))
first_digit n (String.◌∷◌ c s) p h = elim (Bool-cases (leb b'0' (code c) && leb (code c) b'9')) [
  | inl q ↦ (h, λ small. ground (arith, q, h))
  | inr q ↦ absurd (ground (arith, q, h))
]

-- The integers of 64 bits.
abbrev pub IsInt64 : ℤ → Type 0
IsInt64 n = (pos_part n < 2 ^ 63) × (neg_part n ≤ 2 ^ 63)

minus : (s : String) → "-" <> s ≡ String.◌∷◌ "-" s
minus s = cons-append "-" "" s ∙ ap (String.◌∷◌ "-") (nil-append s)

atoi_minus :
    (n : ℕ) (s : String)
    → unsigned s ≡ some (suc n)
    → n < 2 ^ 63
    → atoi (String.◌∷◌ "-" s) ≡ ok (negsuc n)
unfolding atoi
atoi_minus n s h small = ground (arith, h)

-- A 64-bit integer is read back from its decimal text.
pub atoi-decimal_ℤ : (n : ℤ) → IsInt64 n → atoi (decimal_ℤ n) ≡ ok n
unfolding decimal_ℤ
atoi-decimal_ℤ (pos n) (small, _) =
    (first_digit n (decimal n) (count-decimal n) (digits-decimal n (omega arith))).1 small
atoi-decimal_ℤ (negsuc n) (_, small) =
    let read =
      (first_digit (suc n) (decimal (suc n)) (count-decimal (suc n))
        (digits-decimal (suc n) (omega arith))).0 in
    ap atoi (minus (decimal (suc n))) ∙ atoi_minus n (decimal (suc n)) read (omega arith)

-- What is read is a 64-bit integer.
pub atoi-IsInt64 : (s : String) (n : ℤ) → atoi s ≡ ok n → IsInt64 n
unfolding atoi
atoi-IsInt64 String.[] n h = ground arith
atoi-IsInt64 (String.◌∷◌ c s) n h = ground arith
