-- ===== src/Masking/Engine/Weave.antt =====
-- app/masking/engine.py, `mask`: the masked text against the original, in pieces.
use alfa_hackaton.Prelude.{
  ℕ, ◌+◌, ◌≡◌, refl, sym, ◌∙◌, inl, inr, true, Option, List, [], ◌∷◌, ◌++◌, map, arith, All, Text,
  slice, drop, slice-append-drop, Bool-cases,
}
use alfa_hackaton.Prelude.Int.{pos, pos_part, neg_part_nonneg, ◌≤ℤ◌, ◌<ℤ◌}
use alfa_hackaton.Prelude.Sort.{sort_by, IsSorted, sort_by_sorted}
use alfa_hackaton.Core.Enums.{PiiType, MaskingStrategy}
use alfa_hackaton.Core.Errors.{Result, ok}
use alfa_hackaton.Core.Models.{PiiEntity}
use alfa_hackaton.Core.Spans.{IsBefore, AreDisjoint}
use alfa_hackaton.Core.Yaml.{Fields}
use alfa_hackaton.Masking.Chars.{CharClass}
use alfa_hackaton.Masking.Context.{Rules, resolve_context_rules, context_allows}
use alfa_hackaton.Masking.Engine.{
  MaskingResult, select_spans, start_le, strategy_of, mask_from, mask,
}
use alfa_hackaton.Masking.Engine.Selection.{ArePlaced, select_spans-IsPlaced}
use alfa_hackaton.Masking.Engine.Placed.{IsPlaced, All-select_spans}
use alfa_hackaton.Masking.Engine.Pieces.{
  originals, replacements, allowed, HasDecimals, apply_strategy_total, AreApplied, Piece,
}

-- What a run of the loop gives: the text from `cursor` on, in pieces, after `n` masked entities.
pub record Woven (chars : CharClass) (tokens : ℕ → Text)
    (by_type : List (PiiType × MaskingStrategy)) (text : Text) (n cursor : ℕ) (es : List PiiEntity)
    (out : Result (Text × List (Text × Text))) : Type 0 where
  pub pieces : List Piece
  pub tail : Text
  pub original : drop cursor text ≡ originals pieces tail
  pub result :
      out ≡ ok (replacements pieces tail, map (λ (p : Piece). (p.replacement, p.original)) pieces)
  pub applied : AreApplied chars tokens by_type text n cursor es pieces

-- The entity stands behind the cursor.
abbrev pub After : ℕ → PiiEntity → Type 0
After cursor e = pos cursor ≤ℤ e.start

-- The text from the cursor on is the gap, the value and the text behind the entity.
cut :
    (text : Text) (cursor : ℕ) (e : PiiEntity)
    → IsPlaced text e
    → After cursor e
    → drop cursor text
      ≡ slice text cursor (pos_part e.start) ++ (e.value ++ drop (pos_part e.end) text)
cut text cursor e (p, q, r, s) a =
    let ns = neg_part_nonneg e.start p in
    let ne = neg_part_nonneg e.end (omega arith) in
    rw (← s) (
      rw (slice-append-drop text (pos_part e.start) (pos_part e.end) (omega (arith, ns, ne)))
        (sym (slice-append-drop text cursor (pos_part e.start) (omega (arith, ns)))))

-- The entities lie in the text behind the cursor, one behind the other.
abbrev pub Ready : Text → ℕ → List PiiEntity → Type 0
Ready text cursor es = ArePlaced text es × All (After cursor) es × AreDisjoint es

All-After :
    (text : Text) (e : PiiEntity) (es : List PiiEntity)
    → IsPlaced text e
    → All (IsBefore e) es
    → All (After (pos_part e.end)) es
All-After text e [] p h = tt
All-After text e (f ∷ es) p (b, h) =
    (omega (arith, neg_part_nonneg e.end (omega arith)), All-After text e es p h)

module _ (chars : CharClass) (tokens : ℕ → Text) where
  module _ (text : Text) (by_type : List (PiiType × MaskingStrategy)) (present : List PiiType)
      (rules : Rules) where
    mask_from-Woven :
        (n cursor : ℕ) (es : List PiiEntity)
        → Ready text cursor es
        → All (HasDecimals chars) es
        → Woven chars tokens by_type text n cursor
            (allowed present rules es)
            (mask_from chars tokens text by_type present rules n cursor es)
    unfolding mask_from
    mask_from-Woven n cursor [] h d = record {
      pieces = [];
      tail = drop cursor text;
      original = refl;
      result = refl;
      applied = tt;
    }
    mask_from-Woven n cursor (e ∷ es) ((p, ps), (a, later), (b, ds)) (d, dds) =
        elim (Bool-cases (context_allows e.type present rules)) [
          | inl open_ ↦
              let (r, replaced) =
                apply_strategy_total chars (strategy_of by_type e.type) (tokens n) e d in
              let w =
                mask_from-Woven (n + 1) (pos_part e.end) es (ps, All-After text e es p b, ds) dds in
              rw (open_, mask_from)
                (record {
                  pieces =
                      record {
                        gap = slice text cursor (pos_part e.start);
                        original = e.value;
                        replacement = r;
                      }
                      ∷ w.pieces;
                  tail = w.tail;
                  original = cut text cursor e p a ∙ rw (w.original);
                  result = rw (replaced) (rw (w.result));
                  applied = (refl, refl, replaced, w.applied);
                })
          | inr closed_ ↦ rw (closed_, mask_from) (mask_from-Woven n cursor es (ps, later, ds) dds)
        ]

start_le_of_before :
    (e : PiiEntity) (f : PiiEntity) → e.start <ℤ e.end → IsBefore e f → start_le e f ≡ true
unfolding start_le
start_le_of_before e f p b = ground arith

starts_sorted :
    (text : Text) (e : PiiEntity) (es : List PiiEntity)
    → IsPlaced text e
    → All (IsBefore e) es
    → All (λ f. start_le e f ≡ true) es
starts_sorted text e [] p h = tt
starts_sorted text e (f ∷ es) p (b, h) = (start_le_of_before e f p.1 b, starts_sorted text e es p h)

IsSorted-start_le :
    (text : Text) (es : List PiiEntity) → ArePlaced text es → AreDisjoint es → IsSorted start_le es
IsSorted-start_le text [] p d = tt
IsSorted-start_le text (e ∷ es) (p, ps) (b, d) =
    (starts_sorted text e es p b, IsSorted-start_le text es ps d)

All-first :
    (P Q : PiiEntity → Type 0) (es : List PiiEntity) → All (λ e. P e × Q e) es → All P es × All Q es
All-first P Q [] h = (tt, tt)
All-first P Q (e ∷ es) ((p, q), h) = let (ps, qs) = All-first P Q es h in ((p, ps), (q, qs))

All-After_zero : (text : Text) (es : List PiiEntity) → ArePlaced text es → All (After 0) es
All-After_zero text [] h = tt
All-After_zero text (e ∷ es) (p, h) = (p.0, All-After_zero text es h)

-- What a run of `mask` gives, with the entities that the context rules allow.
pub record IsWoven (chars : CharClass) (tokens : ℕ → Text)
    (by_type : List (PiiType × MaskingStrategy)) (text : Text) (es : List PiiEntity) (rules : Rules)
    (out : Result MaskingResult) : Type 0 where
  pub pieces : List Piece
  pub tail : Text
  pub original : text ≡ originals pieces tail
  pub result :
      out
      ≡ ok (record {
        masked_text = replacements pieces tail;
        entities = select_spans text es;
        mappings = map (λ (p : Piece). (p.replacement, p.original)) pieces;
      })
  pub applied :
      AreApplied chars tokens by_type text 0 0
        (allowed
          (map (λ (e : PiiEntity). e.type) (select_spans text es))
          rules
          (select_spans text es))
        pieces

module _ (chars : CharClass) (tokens : ℕ → Text) where
  mask_of_Woven :
      (text : Text) (es : List PiiEntity) (by_type : List (PiiType × MaskingStrategy))
      (context_rules : Option (List Fields))
      → sort_by start_le (select_spans text es) ≡ select_spans text es
      → Woven chars tokens by_type text 0 0
          (allowed
            (map (λ (e : PiiEntity). e.type) (select_spans text es))
            (resolve_context_rules context_rules)
            (select_spans text es))
          (mask_from chars tokens text by_type
            (map (λ (e : PiiEntity). e.type) (select_spans text es))
            (resolve_context_rules context_rules)
            0
            0
            (select_spans text es))
      → IsWoven chars tokens by_type text es
          (resolve_context_rules context_rules)
          (mask chars tokens text es by_type context_rules)
  unfolding mask
  mask_of_Woven text es by_type context_rules sorted w = record {
    pieces = w.pieces;
    tail = w.tail;
    original = w.original;
    result = rw sorted (rw (w.result));
    applied = w.applied;
  }

  -- On entities whose digits are decimal `mask` does not fail. The original text falls into pieces
  -- and a tail, with one piece for each selected entity that the context rules allow, in their order: a
  -- gap, which is the text between this entity and the one before, and the value of the entity. The
  -- masked text has the same gaps and tail with each value replaced by what the strategy for the
  -- type of its entity gives for this entity and, where it wants one, a random token of its own; and
  -- the mappings are the pairs of replacement and value in that order.
  pub mask-IsWoven :
      (text : Text) (es : List PiiEntity) (by_type : List (PiiType × MaskingStrategy))
      (context_rules : Option (List Fields))
      → All (HasDecimals chars) es
      → IsWoven chars tokens by_type text es
          (resolve_context_rules context_rules)
          (mask chars tokens text es by_type context_rules)
  mask-IsWoven text es by_type context_rules h =
      let (ds, ps) =
        All-first (HasDecimals chars) (IsPlaced text) _
          (All-select_spans (HasDecimals chars) text es h) in
      let disjoint = (select_spans-IsPlaced text es).1 in
      mask_of_Woven text es by_type context_rules
        (sort_by_sorted start_le _ (IsSorted-start_le text _ ps disjoint))
        (mask_from-Woven chars tokens text by_type _ _ 0 0 (select_spans text es)
          (ps, All-After_zero text _ ps, disjoint) ds)
