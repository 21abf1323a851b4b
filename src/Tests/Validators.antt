-- ===== src/Tests/Validators.antt =====
-- The checks of numbers at concrete inputs.
use alfa_hackaton.Prelude.{ℕ, ◌-◌, ◌&&◌, ◌≡◌, ◌≢◌, refl, true, [], arith, codes, leb, if◌then◌else◌}
use alfa_hackaton.Core.Errors.{Result, ok, err, value_error}
use alfa_hackaton.Masking.Chars.{latin}
use alfa_hackaton.Detection.Validators.{digits, luhn, inn_checksum}
use alfa_hackaton.Detection.Validators.Typos.{luhn-typo}

abbrev int_of : ℕ → Result ℕ
int_of c = if leb b'0' c && leb c b'9' then ok (c - b'0') else err value_error

luhn_passes : luhn latin.is_digit int_of (codes "4111 1111 1111 1111") ≡ ok true
unfolding luhn
luhn_passes = refl

inn_passes :
    (inn_checksum latin.is_digit int_of (codes "7707083893") ≡ ok true)
    × (inn_checksum latin.is_digit int_of (codes "500100732259") ≡ ok true)
unfolding inn_checksum
inn_passes = (refl, refl)

luhn-typo_example : luhn latin.is_digit int_of (codes "4111 1111 1111 1112") ≢ ok true
unfolding digits
luhn-typo_example =
    luhn-typo latin.is_digit int_of (codes "4111 1111 1111 1111") (codes "4111 1111 1111 1112")
      (codes "411111111111111") [] b'1' b'2' 1 2 refl refl refl refl (omega arith) (omega arith)
      (λ e. absurd (omega arith)) luhn_passes
