-- ===== src/Masking/Engine/Pieces.antt =====
-- The pieces that a masked text is made of, and what a strategy gives for one.
use alfa_hackaton.Prelude.{
  ℕ, ◌+◌, ◌≡◌, refl, slice, Bool, true, false, List, [], ◌∷◌, ◌++◌, All, Text, if◌then◌else◌,
}
use alfa_hackaton.Prelude.Int.{pos_part}
use alfa_hackaton.Core.Enums.{
  PiiType, MaskingStrategy, full_mask, partial_mask, tokenize, synthetic,
}
use alfa_hackaton.Core.Errors.{Result, ok}
use alfa_hackaton.Core.Models.{PiiEntity}
use alfa_hackaton.Masking.Chars.{CharClass}
use alfa_hackaton.Masking.Context.{Rules, context_allows}
use alfa_hackaton.Masking.Strategies.{
  apply_strategy, partial_mask_of, one_of, numeric_edge_types, initials_types, digits_only_types,
  email_types, mask_initials, mask_digits, mask_email, mask_all_alnum,
}
use alfa_hackaton.Masking.Strategies.Edges.{mask_numeric_edges-shown}
use alfa_hackaton.Masking.Engine.{strategy_of}

-- One masked entity: the text before it since the last one, its value, its replacement.
pub record Piece : Type 0 where
  pub gap : Text
  pub original : Text
  pub replacement : Text

-- The gaps with the originals in between, and what follows the last.
abbrev pub originals : List Piece → Text → Text
originals [] tail = tail
originals (p ∷ ps) tail = p.gap ++ (p.original ++ originals ps tail)

-- The same with the replacements in the place of the originals.
abbrev pub replacements : List Piece → Text → Text
replacements [] tail = tail
replacements (p ∷ ps) tail = p.gap ++ (p.replacement ++ replacements ps tail)

-- The entities that the context rules allow to be masked.
abbrev pub allowed : List PiiType → Rules → List PiiEntity → List PiiEntity
allowed present rules [] = []
allowed present rules (e ∷ es) =
    let rest = allowed present rules es in
    if context_allows e.type present rules then e ∷ rest else rest

-- Every digit of the value is a decimal digit.
abbrev pub HasDecimals : CharClass → PiiEntity → Type 0
HasDecimals chars e = All (λ c. chars.is_digit c ≡ chars.is_decimal c) e.value

if_total :
    (b : Bool) (x y : Result Text)
    → ((r : Text) × (x ≡ ok r))
    → ((r : Text) × (y ≡ ok r))
    → (r : Text) × ((if b then x else y) ≡ ok r)
if_total true x y p q = p
if_total false x y p q = q

module _ (chars : CharClass) where
  partial_mask_of_total :
      (e : PiiEntity) → HasDecimals chars e → (r : Text) × (partial_mask_of chars e ≡ ok r)
  unfolding partial_mask_of
  partial_mask_of_total e h =
      let (r, edges, _, _) = mask_numeric_edges-shown chars e.value h in
      let v = e.value in
      if_total (one_of e.type initials_types) _ _ (mask_initials chars v, refl)
        (if_total (one_of e.type numeric_edge_types) _ _ (r, edges)
          (if_total (one_of e.type digits_only_types) _ _ (mask_digits chars v, refl)
            (if_total (one_of e.type email_types) _ _ (mask_email chars v, refl)
              (mask_all_alnum chars v, refl))))

  -- No strategy fails on a value whose digits are decimal.
  pub apply_strategy_total :
      (s : MaskingStrategy) (token : Text) (e : PiiEntity)
      → HasDecimals chars e
      → (r : Text) × (apply_strategy chars s token e ≡ ok r)
  unfolding apply_strategy
  apply_strategy_total full_mask token e h = (_, refl)
  apply_strategy_total partial_mask token e h = partial_mask_of_total e h
  apply_strategy_total tokenize token e h = (_, refl)
  apply_strategy_total synthetic token e h = (_, refl)

-- The pieces are those of the entities, one for one and in order, from a cursor and a number of
-- masked entities on: the gap is the text between the cursor and the entity, the original is its
-- value, and the replacement is what the strategy for its type gives for it.
abbrev pub AreApplied :
    CharClass
    → (ℕ → Text)
    → List (PiiType × MaskingStrategy)
    → Text
    → ℕ
    → ℕ
    → List PiiEntity
    → List Piece
    → Type 0
AreApplied chars tokens by_type text n cursor [] [] = Unit
AreApplied chars tokens by_type text n cursor (e ∷ es) (p ∷ ps) =
    (p.gap ≡ slice text cursor (pos_part e.start))
    × (p.original ≡ e.value)
    × (apply_strategy chars (strategy_of by_type e.type) (tokens n) e ≡ ok p.replacement)
    × AreApplied chars tokens by_type text (n + 1) (pos_part e.end) es ps
AreApplied chars tokens by_type text n cursor _ _ = ⊥
