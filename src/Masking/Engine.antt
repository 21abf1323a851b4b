-- ===== src/Masking/Engine.antt =====
-- app/masking/engine.py: `MaskingEngine`.
pub mod Placed
pub mod Coverage
pub mod Selection
pub mod Overlap
pub mod Pieces
pub mod Weave
pub mod Full
use alfa_hackaton.Prelude.{
  ℕ, ◌+◌, ◌≡◌, Bool, true, false, not, ◌&&◌, ◌||◌, Option, none, some, List, [], ◌∷◌, ◌++◌, map,
  Text, text_eq, slice, drop, length, if◌then◌else◌,
}
use alfa_hackaton.Prelude.Dict.{lookup}
use alfa_hackaton.Prelude.Int.{ℤ, pos, pos_part, ltb_ℤ, leb_ℤ, eq_ℤ, ◌-ℤ◌}
use alfa_hackaton.Prelude.Sort.{sort_by}
use alfa_hackaton.Core.Enums.{PiiType, MaskingStrategy, full_mask, type_eq}
use alfa_hackaton.Core.Errors.{Result, ok, err, ◌>>=◌}
use alfa_hackaton.Core.Models.{PiiEntity}
use alfa_hackaton.Core.Yaml.{Fields}
use alfa_hackaton.Masking.Chars.{CharClass}
use alfa_hackaton.Masking.Context.{Rules, resolve_context_rules, context_allows}
use alfa_hackaton.Masking.Strategies.{apply_strategy}

-- `MaskingResult`, without the processing time.
pub record MaskingResult : Type 0 where
  pub masked_text : Text
  pub entities : List PiiEntity
  pub mappings : List (Text × Text)

-- The two tests of the first loop of `_select_spans`. The slice is taken of a span inside the text.
unfoldable pub is_valid : Text → PiiEntity → Bool
is_valid text e =
    if ltb_ℤ e.start (pos 0) || ltb_ℤ (pos (length text)) e.end || leb_ℤ e.end e.start
    then false
    else text_eq (slice text (pos_part e.start) (pos_part e.end)) e.value

unfoldable pub valid_of : Text → List PiiEntity → List PiiEntity
valid_of text [] = []
valid_of text (e ∷ es) = let rest = valid_of text es in if is_valid text e then e ∷ rest else rest

-- the order of `(e.start, -(e.end - e.start))`
unfoldable pub longest_first : PiiEntity → PiiEntity → Bool
unfolding ◌-ℤ◌
longest_first a b =
    ltb_ℤ a.start b.start || (eq_ℤ a.start b.start && leb_ℤ (b.end -ℤ b.start) (a.end -ℤ a.start))

-- `selected and entity.start < selected[-1].end`
unfoldable pub is_blocked : Option PiiEntity → PiiEntity → Bool
is_blocked none e = false
is_blocked (some last) e = ltb_ℤ e.start last.end

-- The second loop; `last` is `selected[-1]`, if there is one.
unfoldable pub select_from : Option PiiEntity → List PiiEntity → List PiiEntity
unfolding is_blocked
select_from last [] = []
select_from last (e ∷ es) = elim (is_blocked last e) [
  | true ↦ select_from last es
  | false ↦ e ∷ select_from (some e) es
]

unfoldable pub select_spans : Text → List PiiEntity → List PiiEntity
unfolding select_from
select_spans text es = select_from none (sort_by longest_first (valid_of text es))

-- the order of `e.start`
unfoldable pub start_le : PiiEntity → PiiEntity → Bool
start_le a b = leb_ℤ a.start b.start

-- `strategy_by_type.get(t, FULL_MASK)`
unfoldable pub strategy_of : List (PiiType × MaskingStrategy) → PiiType → MaskingStrategy
strategy_of by_type t = elim (lookup type_eq t by_type) [ none ↦ full_mask | some s ↦ s ]

module _ (chars : CharClass) (tokens : ℕ → Text) where
  -- The loop of `mask`: the joined pieces and the mappings. `n` counts the masked entities, and
  -- `tokens n` is what `secrets.token_hex` gives to the n-th.
  unfoldable pub mask_from :
      Text
      → List (PiiType × MaskingStrategy)
      → List PiiType
      → Rules
      → ℕ
      → ℕ
      → List PiiEntity
      → Result (Text × List (Text × Text))
  mask_from text by_type present rules n cursor [] = ok (drop cursor text, [])
  mask_from text by_type present rules n cursor (e ∷ es) =
      elim (context_allows e.type present rules) [
        | false ↦ mask_from text by_type present rules n cursor es
        | true ↦ apply_strategy chars (strategy_of by_type e.type) (tokens n) e >>= λ replacement.
            mask_from text by_type present rules (n + 1) (pos_part e.end) es >>= λ rest. ok (
              slice text cursor (pos_part e.start) ++ (replacement ++ rest.0),
              (replacement, e.value) ∷ rest.1,
            )
      ]

  -- `MaskingEngine.mask`
  unfoldable pub mask :
      Text
      → List PiiEntity
      → List (PiiType × MaskingStrategy)
      → Option (List Fields)
      → Result MaskingResult
  unfolding mask_from
  mask text entities by_type context_rules =
      let valid = select_spans text entities in
      let rules = resolve_context_rules context_rules in
      let present = map (λ (e : PiiEntity). e.type) valid in
      mask_from text by_type present rules 0 0 (sort_by start_le valid) >>= λ r.
      ok (record { masked_text = r.0; entities = valid; mappings = r.1 })
