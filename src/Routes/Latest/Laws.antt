-- ===== src/Routes/Latest/Laws.antt =====
-- The two cache keys of `latestHandler`.
use Prim.Native.String.{count}
use text.Mathlib.TextLemmas.{length-append}
use nostradamus_api.Prelude.{ℕ, ◌+◌, ◌/◌, String, ◌<>◌, ◌≡◌, ◌≢◌, ap, arith}
use nostradamus_api.Go.Strconv.Laws.{count-padded}
use nostradamus_api.Go.Time.{Time, format_date, date_text, midnight_text, day}
use nostradamus_api.Routes.Latest.{fetch_key, store_key, fixed_sensor}

count-dashed :
    (a b c : String) → count (a <> "-" <> b <> "-" <> c) ≡ count a + count b + count c + 2
count-dashed a b c = omega (
  arith,
  length-append a ("-" <> b <> "-" <> c),
  length-append "-" (b <> "-" <> c),
  length-append b ("-" <> c),
  length-append "-" c,
)

count-date_text : (n : ℕ) → count (date_text n) ≡ 10
unfolding date_text
count-date_text n =
    let y = count-padded 4 in let m = count-padded 2 in omega (arith, count-dashed, y, m)

count-keyed :
    (a b c d : String)
    → count (a <> b <> c <> b <> d) ≡ count a + count b + count c + count b + count d
count-keyed a b c d = omega (
  arith,
  length-append a (b <> c <> b <> d),
  length-append b (c <> b <> d),
  length-append c (b <> d),
  length-append b d,
)

-- No value is ever stored under a key that is fetched, whatever the two days are: the key to store to
-- has the time of day in it.
pub fetch_key-ne-store_key : (t u : Time) → fetch_key t ≢ store_key u
unfolding fetch_key store_key format_date midnight_text
fetch_key-ne-store_key t u e =
    let day_t = date_text (t / day) in
    let day_u = date_text (u / day) in
    let same = ap count e in
    let short = count-keyed "sensor" ":" fixed_sensor day_t in
    let long = count-keyed "sensor" ":" fixed_sensor (day_u <> " 00:00:00 +0000 UTC") in
    omega (
      arith,
      length-append day_u " 00:00:00 +0000 UTC",
      count-date_text (t / day),
      count-date_text (u / day),
    )
