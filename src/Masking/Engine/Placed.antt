-- ===== src/Masking/Engine/Placed.antt =====
-- Spans that lie in the text, and what the selection keeps of them.
use alfa_hackaton.Prelude.{
  ◌≡◌, inl, inr, true, false, Option, none, some, List, [], ◌∷◌, arith, All, In, Text, text_eq_iff,
  slice, length, Bool-cases,
}
use alfa_hackaton.Prelude.Int.{pos, pos_part, ◌≤ℤ◌, ◌<ℤ◌}
use alfa_hackaton.Prelude.Sort.{All-sort_by}
use alfa_hackaton.Core.Models.{PiiEntity}
use alfa_hackaton.Core.Spans.{IsSpan, IsBefore}
use alfa_hackaton.Masking.Engine.{
  is_valid, valid_of, longest_first, is_blocked, select_from, select_spans,
}

-- The span is not empty, lies in the text, and holds the value there.
abbrev pub IsPlaced : Text → PiiEntity → Type 0
IsPlaced text e =
    (pos 0 ≤ℤ e.start)
    × (e.start <ℤ e.end)
    × (e.end ≤ℤ pos (length text))
    × (slice text (pos_part e.start) (pos_part e.end) ≡ e.value)

is_valid_sound : (text : Text) (e : PiiEntity) → is_valid text e ≡ true → IsPlaced text e
unfolding is_valid
is_valid_sound text e h =
    ground (arith, text_eq_iff (slice text (pos_part e.start) (pos_part e.end)) e.value)

pub is_valid_complete : (text : Text) (e : PiiEntity) → IsPlaced text e → is_valid text e ≡ true
unfolding is_valid
is_valid_complete text e h =
    ground (arith, text_eq_iff (slice text (pos_part e.start) (pos_part e.end)) e.value)

pub All-valid_of :
    (P : PiiEntity → Type 0) (text : Text) (es : List PiiEntity)
    → All P es
    → All (λ e. P e × IsPlaced text e) (valid_of text es)
unfolding valid_of
All-valid_of P text [] h = tt
All-valid_of P text (e ∷ es) (p, h) = elim (Bool-cases (is_valid text e)) [
  | inl v ↦ rw v ((p, is_valid_sound text e v), All-valid_of P text es h)
  | inr v ↦ rw v (All-valid_of P text es h)
]

pub In-valid_of :
    (text : Text) (e : PiiEntity) (es : List PiiEntity)
    → IsPlaced text e
    → In e es
    → In e (valid_of text es)
unfolding valid_of
In-valid_of text e [] p i = elim i [ ]
In-valid_of text e (f ∷ es) p (inl s) =
    let v : is_valid text f ≡ true = rw s (is_valid_complete text e p) in rw v (inl s)
In-valid_of text e (f ∷ es) p (inr i) = elim (Bool-cases (is_valid text f)) [
  | inl v ↦ rw v (inr (In-valid_of text e es p i))
  | inr v ↦ rw v (In-valid_of text e es p i)
]

All-select_from :
    (P : PiiEntity → Type 0) (last : Option PiiEntity) (es : List PiiEntity)
    → All P es
    → All P (select_from last es)
unfolding select_from
All-select_from P last [] h = tt
All-select_from P last (e ∷ es) (p, h) = elim (Bool-cases (is_blocked last e)) [
  | inl b ↦ rw (b, select_from) (All-select_from P last es h)
  | inr b ↦ rw (b, select_from) (p, All-select_from P (some e) es h)
]

-- A predicate that holds of the candidates holds of the selected spans, which are placed.
pub All-select_spans :
    (P : PiiEntity → Type 0) (text : Text) (es : List PiiEntity)
    → All P es
    → All (λ e. P e × IsPlaced text e) (select_spans text es)
unfolding select_spans
All-select_spans P text es h =
    All-select_from _ none _ (All-sort_by longest_first _ _ (All-valid_of P text es h))

abbrev pub Beyond : Option PiiEntity → PiiEntity → Type 0
Beyond none e = Unit
Beyond (some last) e = IsBefore last e

pub All-Beyond :
    (last : Option PiiEntity) (e : PiiEntity) (es : List PiiEntity)
    → IsSpan e
    → Beyond last e
    → All (IsBefore e) es
    → All (Beyond last) es
All-Beyond last e [] w b h = tt
All-Beyond none e (f ∷ es) w b (p, h) = (tt, All-Beyond none e es w b h)
All-Beyond (some l) e (f ∷ es) w b (p, h) = (omega arith, All-Beyond (some l) e es w b h)

pub not_blocked :
    (last : Option PiiEntity) (e : PiiEntity) → is_blocked last e ≡ false → Beyond last e
unfolding is_blocked
not_blocked none e h = tt
not_blocked (some l) e h = ground arith
