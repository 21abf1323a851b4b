-- ===== src/Score/Gate.antt =====
-- What a passed gate says of the detector.
use alfa_hackaton.Prelude.{
  ℕ, ◌+◌, ◌*◌, ◌≤◌, ◌≡◌, sym, ap, Bool, true, not, ◌||◌, Option, none, some, List, [], Text, ltb,
  ◌==◌,
}
use alfa_hackaton.Core.Errors.{Result}
use alfa_hackaton.Core.Models.{PiiEntity}
use alfa_hackaton.Score.{Case, Tally, count_of, total}
use alfa_hackaton.Score.Tallies.{expected_count, found_count}

abbrev pub empty_tally : Tally
empty_tally = record { tp = []; fp = []; fn = []; false_positives = [] }

-- At least half of the expected spans of the type are found.
abbrev pub Reaches : List Case → Tally → Text → Type 0
Reaches cs t type = expected_count type cs ≤ 2 * count_of type t.tp

-- Recall and F1 score over all types are at least four fifths, and some span is rightly found.
abbrev pub IsBounded : Tally → Type 0
IsBounded t =
    (1 ≤ total t.tp)
    × (4 * (total t.tp + total t.fn) ≤ 5 * total t.tp)
    × (4 * (2 * total t.tp + total t.fp + total t.fn) ≤ 5 * (2 * total t.tp))

-- The tally of a run from nothing.
pub record Measures (engine : Text → Result (List PiiEntity)) (cs : List Case) (t : Tally)
    : Type 0 where
  -- Every expected span counts once, as found or as missed, and every found one once.
  pub expected : (type : Text) → count_of type t.tp + count_of type t.fn ≡ expected_count type cs
  pub found : (type : Text) → count_of type t.tp + count_of type t.fp ≡ found_count type engine cs
