-- ===== src/Tests/Score.antt =====
-- The theorems on benchmarks/score.py at concrete inputs.
use alfa_hackaton.Prelude.{ℕ, ◌*◌, ◌+◌, ◌≤◌, inl, inr, In, [], ◌∷◌, List, Text, codes, arith}
use alfa_hackaton.Prelude.Int.{pos}
use alfa_hackaton.Core.Enums.{pin}
use alfa_hackaton.Core.Errors.{Result, ok}
use alfa_hackaton.Core.Models.{PiiEntity}
use alfa_hackaton.Score.{Case, Tally, total}
use alfa_hackaton.Tests.Data.{entity}

-- the engine finds a code of four digits in every text
abbrev engine : Text → Result (List PiiEntity)
engine s = ok (entity pin (codes "1234") 3 7 ∷ [])

abbrev cases : List Case
cases =
    record {
      id = codes "a";
      text = codes "id 1234";
      expected = ((codes "PIN", pos 3, pos 7), codes "1234") ∷ [];
    }
    ∷ []

abbrev tally : Tally
tally = record { tp = (codes "PIN", 1) ∷ []; fp = []; fn = []; false_positives = [] }
