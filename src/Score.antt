-- ===== src/Score.antt =====
-- benchmarks/score.py: the score of a detector on a dataset, and the gate on its quality. Ratios are
-- compared as exact fractions, by their numerators and denominators.
pub mod Common
pub mod Spans
pub mod Tallies
pub mod Gate
use alfa_hackaton.Prelude.{
  ℕ, suc, ◌+◌, ◌*◌, ◌≡◌, Bool, true, false, not, ◌&&◌, ◌||◌, Option, none, some, List, [], ◌∷◌,
  ◌++◌, Text, codes, text_eq, ltb, ◌==◌, if◌then◌else◌,
}
use alfa_hackaton.Prelude.Dict.{lookup, insert}
use alfa_hackaton.Prelude.Int.{ℤ, eq_ℤ}
use alfa_hackaton.Core.Enums.{value}
use alfa_hackaton.Core.Errors.{Result, ok, ◌>>=◌}
use alfa_hackaton.Core.Models.{PiiEntity}

-- `_span_key`
abbrev pub SpanKey : Type 0
SpanKey = Text × ℤ × ℤ

unfoldable pub span_key_eq : SpanKey → SpanKey → Bool
span_key_eq a b = text_eq a.0 b.0 && (eq_ℤ a.1 b.1 && eq_ℤ a.2 b.2)

abbrev pub Spans : Type 0
Spans = List (SpanKey × Text)

-- a case of the dataset
pub record Case : Type 0 where
  pub id : Text
  pub text : Text
  pub expected : Spans

-- a `defaultdict(int)` by type
abbrev pub Counts : Type 0
Counts = List (Text × ℕ)

pub record Tally : Type 0 where
  pub tp : Counts
  pub fp : Counts
  pub fn : Counts
  pub false_positives : List (Text × Text × Text)

unfoldable pub count_of : Text → Counts → ℕ
count_of t d = elim (lookup text_eq t d) [ none ↦ 0 | some n ↦ n ]

-- d[t] += 1
unfoldable pub increment : Text → Counts → Counts
increment t d = insert text_eq t (suc (count_of t d)) d

-- the dictionary of a list of spans
unfoldable pub spans_of : Spans → Spans → Spans
spans_of [] d = d
spans_of ((k, v) ∷ l) d = spans_of l (insert span_key_eq k v d)

unfoldable pub found_spans : List PiiEntity → Spans
found_spans [] = []
found_spans (e ∷ es) = ((value e.type, e.start, e.end), e.value) ∷ found_spans es

-- k in d
unfoldable pub contains : SpanKey → Spans → Bool
contains k d = elim (lookup span_key_eq k d) [ none ↦ false | some v ↦ true ]

unfoldable pub is_empty : Spans → Bool
is_empty [] = true
is_empty (_ ∷ _) = false

-- the step of the loop over the found spans
unfoldable pub score_found : (case_id : Text) (expected : Spans) → SpanKey → Text → Tally → Tally
score_found case_id expected key v t =
    if contains key expected then record t { tp = increment key.0 t.tp } else record t {
      fp = increment key.0 t.fp;
      false_positives =
          if is_empty expected
          then t.false_positives ++ (case_id, key.0, v) ∷ []
          else t.false_positives;
    }

unfoldable pub score_all_found : (case_id : Text) (expected : Spans) → Spans → Tally → Tally
score_all_found case_id expected [] t = t
score_all_found case_id expected ((k, v) ∷ l) t =
    score_all_found case_id expected l (score_found case_id expected k v t)

-- the loop over the expected spans
unfoldable pub score_all_expected : (found : Spans) → Spans → Tally → Tally
score_all_expected found [] t = t
score_all_expected found ((k, v) ∷ l) t =
    score_all_expected found l
      (if contains k found then t else record t { fn = increment k.0 t.fn })

-- a case with the entities that the engine found
unfoldable pub score_case : Case → List PiiEntity → Tally → Tally
score_case c entities t =
    let found = spans_of (found_spans entities) [] in
    let expected = spans_of c.expected [] in
    score_all_expected found expected (score_all_found c.id expected found t)

-- `_score`
unfoldable pub score : (engine : Text → Result (List PiiEntity)) → List Case → Tally → Result Tally
score engine [] t = ok t
score engine (c ∷ cs) t = do entities ← engine c.text; score engine cs (score_case c entities t)

-- sum(d.values())
unfoldable pub total : Counts → ℕ
total [] = 0
total ((_, n) ∷ d) = n + total d

abbrev pub required_types : List Text
required_types =
    codes "PERSON_NAME"
    ∷ codes "BIRTH_DATE"
    ∷ codes "BIRTH_PLACE"
    ∷ codes "PASSPORT_NUMBER"
    ∷ codes "CITIZENSHIP"
    ∷ codes "PASSPORT_ISSUER"
    ∷ codes "PASSPORT_DIVISION_CODE"
    ∷ codes "PASSPORT_ISSUE_DATE"
    ∷ codes "DRIVER_LICENSE"
    ∷ codes "ADDRESS"
    ∷ codes "COUNTRY"
    ∷ codes "POSTAL_CODE"
    ∷ codes "CITY"
    ∷ codes "STREET"
    ∷ codes "HOUSE"
    ∷ codes "APARTMENT"
    ∷ codes "EMAIL"
    ∷ codes "PHONE"
    ∷ codes "INN"
    ∷ codes "BANK_CARD"
    ∷ codes "CVV"
    ∷ codes "PIN"
    ∷ codes "CARDHOLDER_NAME"
    ∷ []

-- a type with examples whose recall is zero or under one half
unfoldable pub violates : Tally → Text → Bool
violates t type =
    let hits = count_of type t.tp in
    let examples = hits + count_of type t.fn in
    not (examples == 0) && (hits == 0 || ltb (2 * hits) examples)

unfoldable pub any_violates : Tally → List Text → Bool
any_violates t [] = false
any_violates t (type ∷ types) = violates t type || any_violates t types

-- recall < 0.8, where the recall of no examples is 0
unfoldable pub is_low_recall : (tp fn : ℕ) → Bool
is_low_recall tp fn = tp + fn == 0 || ltb (5 * tp) (4 * (tp + fn))

-- f1 < 0.8, where f1 = 2 tp / (2 tp + fp + fn), and 0 without a true positive
unfoldable pub is_low_f1 : (tp fp fn : ℕ) → Bool
is_low_f1 tp fp fn = tp == 0 || ltb (5 * (2 * tp)) (4 * (2 * tp + fp + fn))

-- the exit code of `_main`
unfoldable pub exit_code : Tally → ℕ
exit_code t =
    if any_violates t required_types
      || is_low_recall (total t.tp) (total t.fn)
      || is_low_f1 (total t.tp) (total t.fp) (total t.fn)
    then 1
    else 0
