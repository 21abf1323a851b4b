-- ===== src/Detection/Regex.antt =====
-- app/detection/regex/detector.py: `RegexDetector`. The engine of `re` is a parameter; the patterns
-- that it runs are the program's.
pub mod Patterns
pub mod Tables
pub mod Spanned
pub mod Reported
use alfa_hackaton.Prelude.{
  ℕ, ◌+◌, ◌-◌, ◌≤◌, ◌≡◌, Bool, true, false, not, ◌&&◌, ◌||◌, Option, none, some, List, [], ◌∷◌,
  ◌++◌, Text, codes, text_eq, slice, length, take, leb, ◌==◌, All, if◌then◌else◌,
}
use alfa_hackaton.Prelude.Int.{pos}
use alfa_hackaton.Prelude.Words.{rstrip, split}
use alfa_hackaton.Prelude.Search.{any_in}
use alfa_hackaton.Core.Enums.{
  PiiType, type_eq, bank_card, inn, birth_date, person_name, citizenship, passport_issuer, address,
}
use alfa_hackaton.Core.Errors.{Result, ok, err, ◌>>=◌}
use alfa_hackaton.Core.Models.{PiiEntity, DetectionContext}
use alfa_hackaton.Detection.Dates.{Calendar, Date, is_birth_date}
use alfa_hackaton.Detection.Validators.{luhn, inn_checksum}
use alfa_hackaton.Detection.Regex.Tables.{
  rules, grouped_types, marker_window, markers_of, country_names, address_component_types,
  bank_words, personal_words,
}

-- A match, with the span of its first group where the pattern has one.
pub record Match : Type 0 where
  pub start : ℕ
  pub end : ℕ
  pub group_start : ℕ
  pub group_end : ℕ

pub record IsMatch (text : Text) (m : Match) : Type 0 where
  pub ordered : m.start ≤ m.end
  pub inside : m.end ≤ length text
  pub group_ordered : m.group_start ≤ m.group_end
  pub group_inside : m.group_end ≤ length text

-- What the detector uses of `re`, `str` and `datetime`.
pub record Libraries : Type 0 where
  pub finditer : Text → Text → List Match
  -- A match lies in the text.
  pub finditer-IsMatch : (pattern text : Text) → All (IsMatch text) (finditer pattern text)
  -- `re.search`, the place where the match starts
  pub search : Text → Text → Option ℕ
  -- `re.match` and `re.fullmatch`, whether there is a match
  pub matches : Text → Text → Bool
  pub full_matches : Text → Text → Bool
  pub calendar : Calendar
  pub is_digit : ℕ → Bool
  pub int_of : ℕ → Result ℕ

-- t in types
unfoldable pub is_among : List PiiType → PiiType → Bool
is_among [] t = false
is_among (u ∷ us) t = type_eq u t || is_among us t

unfoldable pub is_name_among : List Text → Text → Bool
is_name_among [] s = false
is_name_among (t ∷ ts) s = text_eq t s || is_name_among ts s

-- ch in ".,;!? "
unfoldable pub is_trailing : ℕ → Bool
is_trailing c = c == b'.' || c == b',' || c == b';' || c == b'!' || c == b'?' || c == b' '

-- A value with its start and end.
abbrev pub Span : Type 0
Span = Text × (ℕ × ℕ)

-- The loop that strips the end of a value; the value has `end - start` characters, so the loop ends
-- with the value.
unfoldable pub strip_end : Text → ℕ → Span
unfolding is_trailing
strip_end value start = let v = rstrip is_trailing value in (v, (start, start + length v))

module _ (lib : Libraries) where
  open lib use {calendar}

  -- `_has_marker`
  unfoldable pub has_marker : Text → ℕ → ℕ → List Text → Bool
  has_marker text start end markers =
      any_in markers (calendar.lower (slice text (start - marker_window) (end + marker_window)))

  -- `_is_bank_context`
  unfoldable pub is_bank_context : Text → ℕ → Bool
  unfolding bank_words personal_words
  is_bank_context text start =
      let window = calendar.lower (slice text (start - 80) (start + 20)) in
      if not (any_in bank_words window) then false else not (any_in personal_words window)

  -- `_is_full_address`
  unfoldable pub is_full_address : Text → Bool
  is_full_address value =
      elim (lib.search (codes "\\d{6}|ул\\.|улица|д\\.|дом|кв\\.|квартира|г\\.|город") value) [
        | some _ ↦ true
        | none ↦ leb 3 (length (split calendar.is_space value))
      ]

  -- value.isdigit()
  unfoldable pub all_digits : Text → Bool
  all_digits [] = true
  all_digits (c ∷ s) = lib.is_digit c && all_digits s

  unfoldable pub is_number : Text → Bool
  unfolding all_digits
  is_number [] = false
  is_number (c ∷ s) = all_digits (c ∷ s)

  -- The first step of `_clean_issuer`: a date behind the value.
  unfoldable pub before_date : Text → Text → ℕ → ℕ → Span
  before_date text value start end =
      let v = rstrip calendar.is_space value in
      if lib.matches (codes "\\s*\\d{2}[./]\\d{2}[./]\\d{4}|\\s*\\d{4}-\\d{2}-\\d{2}")
        (slice text end (end + 12))
      then (v, (start, start + length v))
      else (value, (start, end))

  -- The second step: the start of a date at the end of the value.
  unfoldable pub before_fragment : Span → Span
  before_fragment (value, (start, end)) = elim (lib.search (codes "\\s+\\d{1,2}$") value) [
    | none ↦ (value, (start, end))
    | some i ↦ let v = rstrip calendar.is_space (take i value) in (v, (start, start + length v))
  ]

  -- The last step: a value that is no authority.
  unfoldable pub drop_numbers : Span → Span
  unfolding is_number
  drop_numbers (value, (start, end)) =
      if text_eq value [] || is_number value
      then ([], (start, start))
      else if lib.full_matches (codes "в\\s+\\d{4}\\s+году") value
      then ([], (start, start))
      else (value, (start, end))

  -- `_clean_issuer`
  unfoldable pub clean_issuer : Text → Text → ℕ → ℕ → Span
  unfolding before_date before_fragment drop_numbers
  clean_issuer text value start end =
      drop_numbers (before_fragment (before_date text value start end))

  -- `continue` on an empty value
  unfoldable pub unless_empty : Span → Option Span
  unless_empty ([], _) = none
  unless_empty (c ∷ s, p) = some (c ∷ s, p)

  -- The value of a match with its span; `none` is the `continue` on an issuer.
  unfoldable pub span_of : Text → PiiType → Match → Option Span
  unfolding strip_end clean_issuer unless_empty is_among grouped_types
  span_of text t m =
      let (value, (start, end)) = strip_end (slice text m.group_start m.group_end) m.group_start in
      let cleaned = unless_empty (clean_issuer text value start end) in
      if is_among grouped_types t
      then (if type_eq t passport_issuer then cleaned else some (value, (start, end)))
      else some (slice text m.start m.end, (m.start, m.end))

  -- `_VALIDATORS`: what the validator of the type says of a value, if there is one
  unfoldable pub passes : Date → PiiType → Text → Result Bool
  unfolding luhn inn_checksum
  passes today bank_card value = luhn lib.is_digit lib.int_of value
  passes today inn value = inn_checksum lib.is_digit lib.int_of value
  passes today birth_date value = ok (is_birth_date calendar today value)
  passes today _ value = ok true

  -- the tests behind the validator
  unfoldable pub is_kept : Text → PiiType → Span → Bool
  unfolding is_name_among is_full_address is_bank_context has_marker address_component_types
  is_kept text t (value, (start, end)) =
      let name = is_name_among country_names (calendar.lower value) in
      if type_eq t person_name && name
      then false
      else if type_eq t citizenship && not name
      then false
      else if type_eq t address && not (is_full_address value)
      then false
      else if is_among address_component_types t && is_bank_context text start
      then false
      else (elim (markers_of t) [ none ↦ true | some markers ↦ has_marker text start end markers ])

  unfoldable pub entity_of : PiiType → Span → PiiEntity
  entity_of t (value, (start, end)) = record {
    type = t;
    value = value;
    start = pos start;
    end = pos end;
    confidence = 1000;
    detector = codes "regex";
  }

  -- The body of the loop, on what the match gives: no entity or one.
  unfoldable pub report_span : Date → Text → PiiType → Span → Result (List PiiEntity)
  unfolding passes is_kept entity_of
  report_span today text t span = do
    valid ← passes today t span.0
    ok (if valid && is_kept text t span then entity_of t span ∷ [] else [])

  unfoldable pub report : Date → Text → PiiType → Match → Result (List PiiEntity)
  unfolding span_of report_span
  report today text t m = elim (span_of text t m) [
    | none ↦ ok []
    | some span ↦ report_span today text t span
  ]

  unfoldable pub report_all : Date → Text → PiiType → List Match → Result (List PiiEntity)
  unfolding report
  report_all today text t [] = ok []
  report_all today text t (m ∷ ms) = do
    found ← report today text t m
    rest ← report_all today text t ms
    ok (found ++ rest)

  unfoldable pub apply_rules : Date → Text → List (PiiType × Text) → Result (List PiiEntity)
  unfolding report_all
  apply_rules today text [] = ok []
  apply_rules today text ((t, pattern) ∷ rs) = do
    found ← report_all today text t (lib.finditer pattern text)
    rest ← apply_rules today text rs
    ok (found ++ rest)

  -- `detect`
  unfoldable pub detect : Date → Text → DetectionContext → Result (List PiiEntity)
  unfolding apply_rules rules
  detect today text context = apply_rules today text rules
