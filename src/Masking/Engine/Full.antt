-- ===== src/Masking/Engine/Full.antt =====
-- A text under the full mask.
use alfa_hackaton.Prelude.{ℕ, ◌+◌, ◌≡◌, refl, false, Option, List, [], ◌∷◌, All, Text, map, slice}
use alfa_hackaton.Prelude.Int.{pos_part}
use alfa_hackaton.Core.Enums.{PiiType, MaskingStrategy, full_mask}
use alfa_hackaton.Core.Errors.{ok, ok_injective}
use alfa_hackaton.Core.Models.{PiiEntity}
use alfa_hackaton.Core.Yaml.{Fields}
use alfa_hackaton.Masking.Chars.{CharClass, is_alnum}
use alfa_hackaton.Masking.Context.{Rules, resolve_context_rules}
use alfa_hackaton.Masking.Strategies.{apply_strategy, mask_all_alnum}
use alfa_hackaton.Masking.Strategies.Hiding.{
  IsStarred, substitute-Starred, substitute-hides, star_not_alnum,
}
use alfa_hackaton.Masking.Engine.{MaskingResult, select_spans, strategy_of, mask}
use alfa_hackaton.Masking.Engine.Weave.{mask-IsWoven}
use alfa_hackaton.Masking.Engine.Pieces.{
  Piece, originals, replacements, allowed, HasDecimals, AreApplied,
}

-- Every type has the full mask.
abbrev pub IsFull : List (PiiType × MaskingStrategy) → Type 0
IsFull by_type = (t : PiiType) → strategy_of by_type t ≡ full_mask

-- The entities that `mask` replaces: the selected ones that the context rules allow.
abbrev pub masked_of : Text → List PiiEntity → Rules → List PiiEntity
masked_of text es rules =
    let selected = select_spans text es in
    allowed (map (λ (e : PiiEntity). e.type) selected) rules selected

-- The pieces are those of the entities, one for one and in order, from a cursor on. Each replacement
-- has no letter or digit: it is the value with stars in their place.
abbrev pub AreHidden : CharClass → Text → ℕ → List PiiEntity → List Piece → Type 0
AreHidden chars text cursor [] [] = Unit
AreHidden chars text cursor (e ∷ es) (p ∷ ps) =
    (p.gap ≡ slice text cursor (pos_part e.start))
    × (p.original ≡ e.value)
    × IsStarred (is_alnum chars) e.value p.replacement
    × All (λ c. is_alnum chars c ≡ false) p.replacement
    × AreHidden chars text (pos_part e.end) es ps
AreHidden chars text cursor _ _ = ⊥

-- The second text is the first with the values of the entities hidden, and otherwise the same.
pub record IsHidden (chars : CharClass) (text : Text) (es : List PiiEntity) (out : Text)
    : Type 0 where
  pub pieces : List Piece
  pub tail : Text
  pub original : text ≡ originals pieces tail
  pub replaced : out ≡ replacements pieces tail
  pub hidden : AreHidden chars text 0 es pieces

module _ (chars : CharClass) (tokens : ℕ → Text) where
  -- The full mask of a value.
  replacement_full :
      (e : PiiEntity) (token : Text) (r : Text)
      → apply_strategy chars full_mask token e ≡ ok r
      → IsStarred (is_alnum chars) e.value r × All (λ c. is_alnum chars c ≡ false) r
  unfolding apply_strategy mask_all_alnum
  replacement_full e token r h = rw (← ok_injective h) (
    substitute-Starred (is_alnum chars) e.value,
    substitute-hides (is_alnum chars) e.value (star_not_alnum chars),
  )

  AreHidden-AreApplied :
      (by_type : List (PiiType × MaskingStrategy)) (text : Text) (n cursor : ℕ)
      (es : List PiiEntity) (ps : List Piece)
      → IsFull by_type
      → AreApplied chars tokens by_type text n cursor es ps
      → AreHidden chars text cursor es ps
  AreHidden-AreApplied by_type text n cursor [] [] full h = tt
  AreHidden-AreApplied by_type text n cursor [] (p ∷ ps) full h = elim h [ ]
  AreHidden-AreApplied by_type text n cursor (e ∷ es) [] full h = elim h [ ]
  AreHidden-AreApplied by_type text n cursor (e ∷ es) (p ∷ ps) full (gap, same, applied, h) =
      let (starred, hides) =
        replacement_full e (tokens n) p.replacement (rw (full e.type) at applied) in
      (
        gap,
        same,
        starred,
        hides,
        AreHidden-AreApplied by_type text (n + 1) (pos_part e.end) es ps full h,
      )

  -- Under the full mask of every type, on entities whose digits are decimal, the masked text is the
  -- original with the value of each selected entity that the context rules allow, at its place,
  -- replaced by a text without letters and digits: the value with stars in their place. Everything
  -- else is the same.
  pub mask_full :
      (text : Text) (es : List PiiEntity) (by_type : List (PiiType × MaskingStrategy))
      (context_rules : Option (List Fields))
      → IsFull by_type
      → All (HasDecimals chars) es
      → (r : MaskingResult) × (mask chars tokens text es by_type context_rules ≡ ok r)
        × IsHidden chars text
            (masked_of text es (resolve_context_rules context_rules))
            r.masked_text
  mask_full text es by_type context_rules full h =
      let w = mask-IsWoven chars tokens text es by_type context_rules h in
      (
        _,
        w.result,
        record {
          pieces = w.pieces;
          tail = w.tail;
          original = w.original;
          replaced = refl;
          hidden = AreHidden-AreApplied by_type text 0 0 _ w.pieces full w.applied;
        },
      )
