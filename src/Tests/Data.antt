-- ===== src/Tests/Data.antt =====
-- The texts and entities of the tests.
use alfa_hackaton.Prelude.{ℕ, Text, codes}
use alfa_hackaton.Prelude.Int.{pos}
use alfa_hackaton.Core.Enums.{PiiType, address, phone, inn, email, pin}
use alfa_hackaton.Core.Models.{PiiEntity}

abbrev pub entity : PiiType → Text → ℕ → ℕ → PiiEntity
entity t v i j = record {
  type = t;
  value = v;
  start = pos i;
  end = pos j;
  confidence = 1000;
  detector = codes "regex";
}

-- an address, a phone that overlaps it, and a taxpayer number that overlaps the phone
abbrev pub chain_a : PiiEntity
chain_a = entity address (codes "0123456789") 0 10

abbrev pub chain_b : PiiEntity
chain_b = entity phone (codes "5678901234") 5 15

abbrev pub chain_c : PiiEntity
chain_c = entity inn (codes "2345678901") 12 22

-- a text with an address of electronic mail and a code
abbrev pub letter : Text
letter = codes "to ab@c.de 1234"

abbrev pub mail : PiiEntity
mail = entity email (codes "ab@c.de") 3 10

abbrev pub code_pin : PiiEntity
code_pin = entity pin (codes "1234") 11 15

-- two overlapping spans of the text, the later one longer
abbrev pub short : PiiEntity
short = entity pin (codes "to ab") 0 5

abbrev pub long : PiiEntity
long = entity email (codes "ab@c.de 1234") 3 15
