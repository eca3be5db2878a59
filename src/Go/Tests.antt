-- ===== src/Go/Tests.antt =====
-- Runs of the functions of the standard library.
use nostradamus_api.Prelude.{◌≡◌, refl, ◌+◌, ◌*◌, true, false}
use nostradamus_api.Prelude.Int.{pos, negsuc}
use nostradamus_api.Go.Fallible.{ok}
use nostradamus_api.Go.Float64.{less, is_nan, order_key}
use nostradamus_api.Go.Strconv.{atoi, padded, decimal_ℤ}
use nostradamus_api.Go.ServeMux.{
  clean_path, clean, ends_in_slash, split_slash, rooted, resolve_all, resolve,
}
use nostradamus_api.Go.Time.{format_date, date_text, day, unix_epoch}

atoi_runs : (atoi "-12" ≡ ok (negsuc 11)) × (atoi "+7" ≡ ok (pos 7)) × (atoi "2" ≡ ok (pos 2))
unfolding atoi
atoi_runs = (refl, refl, refl)

decimal_runs : (decimal_ℤ (negsuc 99) ≡ "-100") × (decimal_ℤ (pos 0) ≡ "0")
unfolding decimal_ℤ
decimal_runs = (refl, refl)

date_runs :
    (format_date unix_epoch ≡ "1970-01-01")
    × (format_date (unix_epoch + 59 * day) ≡ "1970-03-01")
    × (format_date (unix_epoch + 11016 * day) ≡ "2000-02-29")
    × (format_date (unix_epoch + 20453 * day) ≡ "2025-12-31")
    × (format_date 0 ≡ "0001-01-01")
unfolding format_date date_text padded
date_runs = (refl, refl, refl, refl, refl)

less_runs :
    (less (record { bits = 0x3ff0000000000000 }) (record { bits = 0x4000000000000000 }) ≡ true)
    × (less (record { bits = 0xbff0000000000000 }) (record { bits = 0x3ff0000000000000 }) ≡ true)
    × (less (record { bits = 0xbff0000000000000 }) (record { bits = 0xc000000000000000 }) ≡ false)
    × (less (record { bits = 0x7ff8000000000000 }) (record { bits = 0x3ff0000000000000 }) ≡ false)
    × (less (record { bits = 0x8000000000000000 }) (record { bits = 0 }) ≡ false)
unfolding less is_nan order_key
less_runs = (refl, refl, refl, refl, refl)

clean_path_runs :
    (clean_path "" ≡ "/")
    × (clean_path "//healthz" ≡ "/healthz")
    × (clean_path "/jobs/." ≡ "/jobs")
    × (clean_path "/jobs/.." ≡ "/")
    × (clean_path "/a//b/../c/" ≡ "/a/c/")
    × (clean_path "/jobs/a%2Fb" ≡ "/jobs/a%2Fb")
unfolding clean_path clean ends_in_slash split_slash rooted resolve_all resolve
clean_path_runs = (refl, refl, refl, refl, refl, refl)
