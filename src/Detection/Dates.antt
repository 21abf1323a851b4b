-- ===== src/Detection/Dates.antt =====
-- app/detection/validators.py: dates. `strptime`, `int` and the classes of characters of `str` are
-- parameters; `today` is `date.today()`.
pub mod Ages
use alfa_hackaton.Prelude.{
  ℕ, ◌+◌, ◌-◌, ◌%◌, Bool, true, false, ◌&&◌, ◌||◌, Option, none, some, List, [], ◌∷◌, Text, codes,
  text_eq, ltb, leb, ◌==◌, if◌then◌else◌,
}
use alfa_hackaton.Prelude.Dict.{lookup}
use alfa_hackaton.Prelude.Words.{strip, split}

pub record Date : Type 0 where
  pub year : ℕ
  pub month : ℕ
  pub day : ℕ

-- d < e
unfoldable pub is_before : Date → Date → Bool
is_before d e =
    ltb d.year e.year
    || (d.year == e.year && (ltb d.month e.month || (d.month == e.month && ltb d.day e.day)))

-- What the dates use of `datetime` and `str`. `none` is ValueError.
pub record Calendar : Type 0 where
  -- strptime with a format, and date(y, m, d)
  pub strptime : Text → Text → Option Date
  pub date_of : ℕ → ℕ → ℕ → Option Date
  -- `int`, where a negative number, of which `date` makes no date, is `none` too
  pub int_of_text : Text → Option ℕ
  pub lower : Text → Text
  pub is_space : ℕ → Bool

abbrev pub formats : List Text
formats = codes "%d.%m.%Y" ∷ codes "%d/%m/%Y" ∷ codes "%Y-%m-%d" ∷ []

unfoldable pub months : List (Text × ℕ)
months =
    (codes "января", 1)
    ∷ (codes "февраля", 2)
    ∷ (codes "марта", 3)
    ∷ (codes "апреля", 4)
    ∷ (codes "мая", 5)
    ∷ (codes "июня", 6)
    ∷ (codes "июля", 7)
    ∷ (codes "августа", 8)
    ∷ (codes "сентября", 9)
    ∷ (codes "октября", 10)
    ∷ (codes "ноября", 11)
    ∷ (codes "декабря", 12)
    ∷ []

module _ (c : Calendar) where
  -- the loop over the formats
  unfoldable pub parse_formats : Text → List Text → Option Date
  parse_formats text [] = none
  parse_formats text (fmt ∷ fmts) =
      let rest = parse_formats text fmts in
      elim (c.strptime fmt text) [ some d ↦ some d | none ↦ rest ]

  unfoldable pub parse_parts : List Text → Option Date
  unfolding months
  parse_parts (day ∷ month_name ∷ year ∷ []) = elim (lookup text_eq (c.lower month_name) months) [
    | none ↦ none
    | some month ↦ elim (c.int_of_text year) [
      | none ↦ none
      | some y ↦ elim (c.int_of_text day) [ none ↦ none | some d ↦ c.date_of y month d ]
    ]
  ]
  parse_parts _ = none

  -- `parse_date`
  unfoldable pub parse_date : Text → Option Date
  unfolding parse_formats parse_parts
  parse_date s =
      let text = strip c.is_space s in
      elim (parse_formats text formats) [
        | some d ↦ some d
        | none ↦ parse_parts (split c.is_space text)
      ]

  -- The age in full years; the date lies before today, so no subtraction stops at 0.
  unfoldable pub age_at : Date → Date → ℕ
  age_at today d =
      today.year
      - d.year
      - (if ltb today.month d.month || (today.month == d.month && ltb today.day d.day)
          then 1
          else 0)

  -- `is_birth_date`
  unfoldable pub is_birth_date : Date → Text → Bool
  unfolding is_before age_at
  is_birth_date today s = elim (parse_date s) [
    | none ↦ false
    | some d ↦ if is_before d today then leb (age_at today d) 120 else false
  ]
