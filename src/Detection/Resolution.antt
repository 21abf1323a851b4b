-- ===== src/Detection/Resolution.antt =====
-- app/detection/resolution.py: from candidate entities to spans that do not overlap.
pub mod Spans
pub mod Disjoint
pub mod Ranks
pub mod Kept
use alfa_hackaton.Prelude.{
  ℕ, Bool, true, false, ◌&&◌, ◌||◌, not, none, some, List, [], ◌∷◌, map, ltb, ◌==◌, if◌then◌else◌,
}
use alfa_hackaton.Prelude.Dict.{lookup, insert}
use alfa_hackaton.Prelude.Int.{ℤ, ltb_ℤ, leb_ℤ, eq_ℤ, ◌-ℤ◌}
use alfa_hackaton.Prelude.Sort.{sort_by}
use alfa_hackaton.Core.Enums.{
  PiiType, type_eq, bank_card, inn, passport_number, passport_division_code, driver_license, phone,
  email, address, person_name, cardholder_name, birth_place, citizenship, country, city, street,
  postal_code, passport_issuer, passport_issue_date, cvv, pin, house, apartment,
}
use alfa_hackaton.Core.Models.{PiiEntity}

abbrev default_priority : ℕ
default_priority = 50

-- `_PRIORITIES.get(t, _DEFAULT_PRIORITY)`
unfoldable pub priority : PiiType → ℕ
priority bank_card = 90
priority inn = 90
priority passport_number = 90
priority passport_division_code = 90
priority driver_license = 90
priority phone = 80
priority email = 80
priority address = 70
priority person_name = 60
priority cardholder_name = 60
priority birth_place = 60
priority citizenship = 60
priority country = 60
priority city = 60
priority street = 60
priority postal_code = 60
priority passport_issuer = 60
priority passport_issue_date = 60
priority cvv = 30
priority pin = 30
priority house = 30
priority apartment = 30
priority _ = default_priority

unfoldable pub overlaps : PiiEntity → PiiEntity → Bool
overlaps a b = ltb_ℤ a.start b.end && ltb_ℤ b.start a.end

unfoldable pub better : PiiEntity → PiiEntity → PiiEntity
unfolding ◌-ℤ◌
better a b =
    let pa = priority a.type in
    let pb = priority b.type in
    if not (pa == pb)
    then (if ltb pb pa then a else b)
    else if not (a.confidence == b.confidence)
    then (if ltb b.confidence a.confidence then a else b)
    else if leb_ℤ (b.end -ℤ b.start) (a.end -ℤ a.start)
    then a
    else b

-- the key `(entity.type, entity.start, entity.end)`
abbrev pub Key : Type 0
Key = PiiType × ℤ × ℤ

abbrev pub key : PiiEntity → Key
key e = (e.type, e.start, e.end)

unfoldable pub key_eq : Key → Key → Bool
key_eq a b = type_eq a.0 b.0 && (eq_ℤ a.1 b.1 && eq_ℤ a.2 b.2)

-- one round of the first loop: `best` after an entity
unfoldable pub keep_best : List (Key × PiiEntity) → PiiEntity → List (Key × PiiEntity)
keep_best best entity = elim (lookup key_eq (key entity) best) [
  | none ↦ insert key_eq (key entity) entity best
  | some current ↦
      if ltb current.confidence entity.confidence
      then insert key_eq (key entity) entity best
      else best
]

unfoldable pub best_of : List (Key × PiiEntity) → List PiiEntity → List (Key × PiiEntity)
best_of best [] = best
best_of best (e ∷ es) = best_of (keep_best best e) es

-- the order of `(e.start, e.end)`
unfoldable pub span_le : PiiEntity → PiiEntity → Bool
span_le a b = ltb_ℤ a.start b.start || (eq_ℤ a.start b.start && leb_ℤ a.end b.end)

-- The second loop. `last` is `resolved[-1]`; what stands before it does not change any more.
unfoldable pub resolve_from : PiiEntity → List PiiEntity → List PiiEntity
resolve_from last [] = last ∷ []
resolve_from last (e ∷ es) = elim (overlaps last e) [
  | true ↦ resolve_from (better last e) es
  | false ↦ last ∷ resolve_from e es
]

unfoldable pub resolve_sorted : List PiiEntity → List PiiEntity
resolve_sorted [] = []
resolve_sorted (e ∷ es) = resolve_from e es

unfoldable pub resolve_spans : List PiiEntity → List PiiEntity
resolve_spans entities = resolve_sorted (sort_by span_le (map (λ kv. kv.1) (best_of [] entities)))
