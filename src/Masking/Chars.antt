-- ===== src/Masking/Chars.antt =====
-- The character classes of Python's `re` and `str`, which the program takes from the interpreter's
-- Unicode tables: a parameter, with what the code relies on.
use alfa_hackaton.Prelude.{ℕ, ◌≡◌, refl, Bool, true, false, not, ◌&&◌, ◌||◌, arith, leb, ◌==◌}

abbrev pub star : ℕ
star = b'*'

pub record CharClass : Type 0 where
  -- `\w`
  pub is_word : ℕ → Bool
  -- `\d`, the decimal digits of every script
  pub is_decimal : ℕ → Bool
  -- `ch.isdigit()`, which also takes superscripts and other digit forms
  pub is_digit : ℕ → Bool
  pub star_not_word : is_word star ≡ false
  pub star_not_digit : is_digit star ≡ false
  pub decimal_digit : (c : ℕ) → is_decimal c ≡ true → is_digit c ≡ true

-- `[^\W_]`: a word character other than the underscore
abbrev pub is_alnum : CharClass → ℕ → Bool
is_alnum cc c = cc.is_word c && not (c == b'_')

-- The classes on ASCII, with the superscript two (178) as a digit that is not decimal.
abbrev ascii_decimal : ℕ → Bool
ascii_decimal c = leb b'0' c && leb c b'9'

abbrev ascii_digit : ℕ → Bool
ascii_digit c = ascii_decimal c || c == 178

abbrev ascii_word : ℕ → Bool
ascii_word c =
    ascii_digit c || (leb b'a' c && leb c b'z') || (leb b'A' c && leb c b'Z') || c == b'_'

pub decimal_digit_ascii : (c : ℕ) → ascii_decimal c ≡ true → ascii_digit c ≡ true
decimal_digit_ascii c h = ground arith

abbrev pub latin : CharClass
latin = record {
  is_word = ascii_word;
  is_decimal = ascii_decimal;
  is_digit = ascii_digit;
  star_not_word = refl;
  star_not_digit = refl;
  decimal_digit = decimal_digit_ascii;
}
