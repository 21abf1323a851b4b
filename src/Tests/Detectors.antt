-- ===== src/Tests/Detectors.antt =====
-- The theorems on the detectors and the dates at concrete inputs.
use alfa_hackaton.Prelude.{
  ℕ, ◌+◌, ◌-◌, ◌*◌, ◌≡◌, refl, Bool, true, false, Option, none, some, List, [], ◌∷◌, All, Text,
  codes, length, text_eq, ◌==◌, leb, arith, ◌&&◌, if◌then◌else◌,
}
use alfa_hackaton.Core.Enums.{email}
use alfa_hackaton.Core.Errors.{ok}
use alfa_hackaton.Core.Models.{PiiEntity, DetectionContext}
use alfa_hackaton.Core.Yaml
use alfa_hackaton.Core.Yaml.{Yaml}
use alfa_hackaton.Detection.Dates.{Date, Calendar, is_before, parse_date}
use alfa_hackaton.Detection.Dates.Ages.{is_birth_date-Ages, years_later}
use alfa_hackaton.Detection.Regex.{Match, IsMatch, Libraries}
use alfa_hackaton.Detection.Regex
use alfa_hackaton.Detection.Regex.Patterns.{email_re}
use alfa_hackaton.Detection.Regex.Reported.{IsReported, detect-IsReported}
use alfa_hackaton.Detection.Llm
use alfa_hackaton.Detection.Llm.Found.{IsAnswer, Reports, detect-Reports}
use alfa_hackaton.Tests.Data.{entity}

abbrev is_decimal : ℕ → Bool
is_decimal c = leb b'0' c && leb c b'9'

abbrev number_from : ℕ → Text → Option ℕ
number_from n [] = some n
number_from n (c ∷ s) = if is_decimal c then number_from (n * 10 + (c - b'0')) s else none

-- Dates are read as a day, a month's name and a year, and every day is taken as one.
abbrev pub calendar : Calendar
calendar = record {
  strptime = λ fmt s. none;
  date_of = λ y m d. some (record { year = y; month = m; day = d });
  int_of_text = number_from 0;
  lower = λ s. s;
  is_space = λ c. c == b' ';
}

abbrev today : Date
today = record { year = 2024; month = 6; day = 1 }

is_birth_date-Ages_example :
    (d : Date) × (parse_date calendar (codes "5 мая 1990") ≡ some d)
    × (is_before d today ≡ true)
    × (is_before today (years_later 121 d) ≡ true)
unfolding alfa_hackaton.Detection.Dates.is_birth_date parse_date alfa_hackaton.Prelude.Words.split
    alfa_hackaton.Prelude.Words.strip alfa_hackaton.Prelude.Dict.lookup text_eq
is_birth_date-Ages_example = (is_birth_date-Ages calendar today (codes "5 мая 1990")).0 refl

-- The pattern of addresses matches a whole text that is not empty, and the others match nothing.
abbrev whole : Text → List Match
whole [] = []
whole (c ∷ s) =
    record { start = 0; end = length (c ∷ s); group_start = 0; group_end = length (c ∷ s) } ∷ []

abbrev finditer : Text → Text → List Match
finditer pattern s = if text_eq pattern email_re then whole s else []

whole-IsMatch : (s : Text) → All (IsMatch s) (whole s)
whole-IsMatch [] = tt
whole-IsMatch (c ∷ s) = (
  record {
    ordered = omega arith;
    inside = omega arith;
    group_ordered = omega arith;
    group_inside = omega arith;
  },
  tt,
)

matches_if : (b : Bool) (s : Text) → All (IsMatch s) (if b then whole s else [])
matches_if true s = whole-IsMatch s
matches_if false s = tt

abbrev libraries : Libraries
libraries = record {
  finditer = finditer;
  finditer-IsMatch = λ pattern s. matches_if (text_eq pattern email_re) s;
  search = λ p s. none;
  matches = λ p s. false;
  full_matches = λ p s. false;
  calendar = calendar;
  is_digit = is_decimal;
  int_of = λ c. ok (c - b'0');
}

abbrev context : DetectionContext
context = record { consumer_id = codes "c"; language = codes "ru" }

reports :
    Regex.detect libraries today (codes "a@b.ru") context
    ≡ ok (entity email (codes "a@b.ru") 0 6 ∷ [])
unfolding alfa_hackaton.Detection.Regex.detect text_eq alfa_hackaton.Core.Enums.type_eq
    alfa_hackaton.Core.Enums.type_index email_re alfa_hackaton.Detection.Regex.Patterns.phone_re
    alfa_hackaton.Detection.Regex.Patterns.bank_card_re
    alfa_hackaton.Detection.Regex.Patterns.inn_re
    alfa_hackaton.Detection.Regex.Patterns.passport_number_re
    alfa_hackaton.Detection.Regex.Patterns.passport_division_code_re
    alfa_hackaton.Detection.Regex.Patterns.birth_date_re
    alfa_hackaton.Detection.Regex.Patterns.cvv_re alfa_hackaton.Detection.Regex.Patterns.pin_re
    alfa_hackaton.Detection.Regex.Patterns.person_name_re
    alfa_hackaton.Detection.Regex.Patterns.birth_place_re
    alfa_hackaton.Detection.Regex.Patterns.citizenship_re
    alfa_hackaton.Detection.Regex.Patterns.passport_issuer_re
    alfa_hackaton.Detection.Regex.Patterns.passport_issue_date_re
    alfa_hackaton.Detection.Regex.Patterns.driver_license_re
    alfa_hackaton.Detection.Regex.Patterns.address_re
    alfa_hackaton.Detection.Regex.Patterns.country_re
    alfa_hackaton.Detection.Regex.Patterns.postal_code_re
    alfa_hackaton.Detection.Regex.Patterns.city_re alfa_hackaton.Detection.Regex.Patterns.street_re
    alfa_hackaton.Detection.Regex.Patterns.house_re
    alfa_hackaton.Detection.Regex.Patterns.apartment_re
    alfa_hackaton.Detection.Regex.Patterns.cardholder_name_re Regex.apply_rules Regex.report_all
    Regex.report Regex.span_of Regex.report_span Regex.passes Regex.is_kept Regex.entity_of
    Regex.is_among Regex.is_name_among alfa_hackaton.Prelude.slice
    alfa_hackaton.Detection.Regex.Tables.rules alfa_hackaton.Detection.Regex.Tables.grouped_types
    alfa_hackaton.Detection.Regex.Tables.markers_of
    alfa_hackaton.Detection.Regex.Tables.country_names
    alfa_hackaton.Detection.Regex.Tables.address_component_types
reports = refl

detect-IsReported_example :
    All (IsReported libraries today (codes "a@b.ru")) (entity email (codes "a@b.ru") 0 6 ∷ [])
detect-IsReported_example =
    detect-IsReported libraries today (codes "a@b.ru") context
      (entity email (codes "a@b.ru") 0 6 ∷ []) reports

-- The model names an address that stands twice in the text, a type that is not known, and an
-- address that does not stand in the text.
abbrev item : Text → Text → Yaml
item kind needle = Yaml.mapping (
    Yaml.field (codes "type") (Yaml.text kind)
      (Yaml.field (codes "text") (Yaml.text needle) Yaml.end))

abbrev listed : List (Text × Text) → Yaml.Items
listed [] = Yaml.nil
listed ((kind, needle) ∷ l) = Yaml.cons (item kind needle) (listed l)

abbrev named : List (Text × Text)
named =
    (codes "EMAIL", codes "a@b") ∷ (codes "COLOUR", codes "a@b") ∷ (codes "EMAIL", codes "c@d") ∷ []

abbrev loads : Text → Option Yaml
loads s =
    some (Yaml.mapping (Yaml.field (codes "entities") (Yaml.sequence (listed named)) Yaml.end))

is_answer : IsAnswer loads (codes "a@b a@b") named
unfolding Llm.get_item Yaml.get text_eq Llm.iterate
is_answer = record {
  payload = _;
  entities = _;
  items = listed named;
  read = refl;
  listed = refl;
  iterated = refl;
  are_items = ((refl, refl), ((refl, refl), ((refl, refl), tt)));
}

detect-Reports_example :
    (es : List PiiEntity) × (Llm.detect loads (λ s. ok s) true (codes "a@b a@b") context ≡ ok es)
    × Reports (codes "a@b a@b") named es
detect-Reports_example =
    detect-Reports (codes "a@b a@b") loads (λ s. ok s) context (codes "a@b a@b") named refl
      is_answer
