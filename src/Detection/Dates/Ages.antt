-- ===== src/Detection/Dates/Ages.antt =====
-- What `is_birth_date` accepts.
use alfa_hackaton.Prelude.{
  ℕ, ◌+◌, ◌≡◌, ◌≢◌, ◌↔◌, refl, sym, if◌then◌else◌, Option, leb, true, false, inl, inr, none, some,
  Text, arith, Bool-cases, some_injective,
}
use alfa_hackaton.Detection.Dates.{Date, Calendar, is_before, parse_date, age_at, is_birth_date}

-- A date so many years later; the day may not exist, but the order of dates is kept.
abbrev pub years_later : ℕ → Date → Date
years_later n d = record d { year = d.year + n }

false_ne_true : false ≢ true
false_ne_true q = ground arith

module _ (c : Calendar) where
  age_of_past :
      (today d : Date)
      → is_before d today ≡ true
      → (leb (age_at c today d) 120 ≡ true) ↔ (is_before today (years_later 121 d) ≡ true)
  unfolding is_before age_at
  age_of_past today d h = ground arith

  some_ne_none : {A : Type 0} {a : A} → some a ≢ none
  some_ne_none e = ground arith

  accepts :
      (today : Date) (o : Option Date)
      → ((elim o [
        | none ↦ false
        | some d ↦ if is_before d today then leb (age_at c today d) 120 else false
      ])
          ≡ true)
        ↔ ((d : Date) × (o ≡ some d)
            × (is_before d today ≡ true)
            × (is_before today (years_later 121 d) ≡ true))
  accepts today none = (λ h. absurd (ground arith), λ (d, e, _, _). absurd (some_ne_none (sym e)))
  accepts today (some d) = (
    λ h. elim (Bool-cases (is_before d today)) [
      | inl past ↦ (d, refl, past, (age_of_past today d past).0 (simp past at h))
      | inr future ↦ absurd (false_ne_true (simp future at h))
    ],
    λ (d', e, past, recent).
        let same = some_injective e in rw same (simp past ((age_of_past today d' past).1 recent)),
  )

  -- `is_birth_date` accepts exactly what parses as a date before today of which 121 years have not
  -- passed: the upper end is the last day before the birthday.
  pub is_birth_date-Ages :
      (today : Date) (s : Text)
      → (is_birth_date c today s ≡ true) ↔ (
          (d : Date) × (parse_date c s ≡ some d)
          × (is_before d today ≡ true)
          × (is_before today (years_later 121 d) ≡ true))
  unfolding is_birth_date
  is_birth_date-Ages today s = accepts today (parse_date c s)
