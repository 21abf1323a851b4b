-- ===== src/Masking/Strategies.antt =====
-- app/masking/strategies/impl.py: the replacement for one value.
pub mod Hiding
pub mod Edges
pub mod Email
use alfa_hackaton.Prelude.{
  ℕ, suc, ◌+◌, ◌-◌, ◌≡◌, Bool, true, false, ◌||◌, Option, none, some, List, [], ◌∷◌, ◌++◌, map,
  Text, codes, length, get_elem?, ltb, leb, ◌==◌, if◌then◌else◌,
}
use alfa_hackaton.Core.Enums.{
  PiiType, MaskingStrategy, type_eq, value, person_name, cardholder_name, passport_number,
  bank_card, inn, driver_license, phone, passport_division_code, email, full_mask, partial_mask,
  tokenize, synthetic,
}
use alfa_hackaton.Core.Errors.{Result, ok, err, index_error, ◌>>=◌}
use alfa_hackaton.Core.Models.{PiiEntity}
use alfa_hackaton.Masking.Chars.{CharClass, is_alnum, star}

abbrev pub numeric_visible_edge : ℕ
numeric_visible_edge = 2

abbrev pub numeric_min_digits : ℕ
numeric_min_digits = 4

-- `t in types`, for the sets of types
unfoldable pub one_of : PiiType → List PiiType → Bool
one_of t [] = false
one_of t (s ∷ l) = type_eq s t || one_of t l

abbrev pub initials_types : List PiiType
initials_types = person_name ∷ cardholder_name ∷ []

abbrev pub numeric_edge_types : List PiiType
numeric_edge_types = passport_number ∷ bank_card ∷ inn ∷ driver_license ∷ phone ∷ []

abbrev pub digits_only_types : List PiiType
digits_only_types = passport_division_code ∷ []

abbrev pub email_types : List PiiType
email_types = email ∷ []

-- `pattern.sub("*", s)` for a pattern that takes one character
unfoldable pub substitute : (ℕ → Bool) → Text → Text
substitute p [] = []
substitute p (c ∷ s) = (if p c then star else c) ∷ substitute p s

-- `pattern.findall(s)` for a pattern that takes one character
unfoldable pub find_all : (ℕ → Bool) → Text → Text
find_all p [] = []
find_all p (c ∷ s) = let rest = find_all p s in if p c then c ∷ rest else rest

-- `value.partition("@")`: the login and the domain, if there is an "@"
unfoldable pub partition_at : Text → Option (Text × Text)
partition_at [] = none
partition_at (c ∷ s) =
    let rest = partition_at s in
    if c == b'@'
    then some ([], s)
    else elim rest [ none ↦ none | some (login, domain) ↦ some (c ∷ login, domain) ]

unfoldable pub mask_email_parts : Text → Text → Text
mask_email_parts [] domain = star ∷ b'@' ∷ domain
mask_email_parts (c ∷ login) domain = c ∷ star ∷ star ∷ star ∷ b'@' ∷ domain

-- " ".join(f"{word[0]}." for word in words)
unfoldable pub join_initials : List ℕ → Text
join_initials [] = []
join_initials (c ∷ []) = c ∷ b'.' ∷ []
join_initials (c ∷ d ∷ l) = c ∷ b'.' ∷ b' ' ∷ join_initials (d ∷ l)

module _ (chars : CharClass) where
  unfoldable pub mask_all_alnum : Text → Text
  unfolding substitute
  mask_all_alnum = substitute (is_alnum chars)

  unfoldable pub mask_digits : Text → Text
  unfolding substitute
  mask_digits = substitute chars.is_decimal

  -- The loop of `_mask_numeric_edges`; `i` is `digit_index`.
  unfoldable pub edges_from : Text → ℕ → Text → Result Text
  edges_from digits i [] = ok []
  edges_from digits i (c ∷ s) =
      let rest = edges_from digits (if chars.is_digit c then i + 1 else i) s in
      if chars.is_digit c
      then (if ltb i numeric_visible_edge || leb (length digits - numeric_visible_edge) i
          then (elim (get_elem? digits i) [
            | none ↦ err index_error
            | some d ↦ (do r ← rest; ok (d ∷ r))
          ])
          else (do r ← rest; ok (star ∷ r)))
      else (do r ← rest; ok (c ∷ r))

  unfoldable pub mask_numeric_edges : Text → Result Text
  unfolding find_all mask_digits edges_from
  mask_numeric_edges v =
      let digits = find_all chars.is_decimal v in
      if leb (length digits) numeric_min_digits then ok (mask_digits v) else edges_from digits 0 v

  -- The first character of each match of `\w+`; `inside` says that a word is under way.
  unfoldable pub word_heads : Bool → Text → List ℕ
  word_heads inside [] = []
  word_heads inside (c ∷ s) =
      let rest = word_heads (chars.is_word c) s in
      if chars.is_word c then (if inside then rest else c ∷ rest) else rest

  unfoldable pub mask_initials : Text → Text
  unfolding word_heads join_initials
  mask_initials v = elim (word_heads false v) [ [] ↦ v | c ∷ l ↦ join_initials (c ∷ l) ]

  unfoldable pub mask_email : Text → Text
  unfolding partition_at mask_email_parts mask_all_alnum
  mask_email v = elim (partition_at v) [
    | none ↦ mask_all_alnum v
    | some (login, domain) ↦ mask_email_parts login domain
  ]

  -- `PartialMaskStrategy.mask`
  unfoldable pub partial_mask_of : PiiEntity → Result Text
  unfolding one_of mask_initials mask_numeric_edges mask_digits mask_email mask_all_alnum
  partial_mask_of e =
      if one_of e.type initials_types
      then ok (mask_initials e.value)
      else if one_of e.type numeric_edge_types
      then mask_numeric_edges e.value
      else if one_of e.type digits_only_types
      then ok (mask_digits e.value)
      else if one_of e.type email_types
      then ok (mask_email e.value)
      else ok (mask_all_alnum e.value)

  -- `get_strategy(strategy).mask(e)`. `token` is what `secrets.token_hex(8)` returns in this call;
  -- the strategies that draw none leave it unused.
  unfoldable pub apply_strategy : MaskingStrategy → Text → PiiEntity → Result Text
  unfolding partial_mask_of mask_all_alnum value
  apply_strategy full_mask token e = ok (mask_all_alnum e.value)
  apply_strategy partial_mask token e = partial_mask_of e
  apply_strategy tokenize token e =
      ok (codes "<TOKEN:" ++ (value e.type ++ (codes ":" ++ (token ++ codes ">"))))
  apply_strategy synthetic token e =
      ok (codes "<SYNTHETIC:" ++ (value e.type ++ (codes ":" ++ (token ++ codes ">"))))
