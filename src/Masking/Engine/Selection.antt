-- ===== src/Masking/Engine/Selection.antt =====
-- What `_select_spans` returns.
use alfa_hackaton.Prelude.{
  ◌≡◌, refl, ap, inl, inr, true, false, Option, none, some, List, [], ◌∷◌, arith, All, In, Text,
  Bool-cases,
}
use alfa_hackaton.Prelude.Sort.{
  sort_by, IsSorted, All-sort_by, sort_by-IsSorted, sort_by_sorted, In-sort_by,
}
use alfa_hackaton.Core.Models.{PiiEntity}
use alfa_hackaton.Core.Spans.{IsSpan, IsBefore, AreDisjoint}
use alfa_hackaton.Detection.Resolution.{resolve_spans}
use alfa_hackaton.Detection.Resolution.Spans.{All-resolve_spans}
use alfa_hackaton.Detection.Resolution.Disjoint.{resolve_spans-AreDisjoint}
use alfa_hackaton.Masking.Engine.{valid_of, longest_first, is_blocked, select_from, select_spans}
use alfa_hackaton.Masking.Engine.Placed.{
  IsPlaced, is_valid_complete, All-valid_of, In-valid_of, All-select_spans, Beyond, All-Beyond,
  not_blocked,
}
use alfa_hackaton.Masking.Engine.Coverage.{
  Covers, longest_first_total, longest_first_of_Order, longest_first_trans, select_from-covers,
}

select_from-disjoint :
    (last : Option PiiEntity) (es : List PiiEntity)
    → All IsSpan es
    → All (Beyond last) (select_from last es) × AreDisjoint (select_from last es)
unfolding select_from
select_from-disjoint last [] h = (tt, tt)
select_from-disjoint last (e ∷ es) (w, h) = elim (Bool-cases (is_blocked last e)) [
  | inl b ↦ rw (b, select_from) (select_from-disjoint last es h)
  | inr b ↦
      let (after, disjoint) = select_from-disjoint (some e) es h in
      let p = not_blocked last e b in
      rw (b, select_from) ((p, All-Beyond last e _ w p after), (after, disjoint))
]

All-placed-IsSpan :
    (text : Text) (es : List PiiEntity) → All (λ e. Unit {0} × IsPlaced text e) es → All IsSpan es
All-placed-IsSpan text [] h = tt
All-placed-IsSpan text (e ∷ es) (p, h) = (omega arith, All-placed-IsSpan text es h)

All-Unit : (es : List PiiEntity) → All (λ e. Unit {0}) es
All-Unit [] = tt
All-Unit (e ∷ es) = (tt, All-Unit es)

-- Every selected span is placed: it lies in the text, is not empty, and its value is what stands
-- there. Each ends at or before the start of every later one.
pub select_spans-IsPlaced :
    (text : Text) (es : List PiiEntity)
    → All (λ e. Unit {0} × IsPlaced text e) (select_spans text es)
      × AreDisjoint (select_spans text es)
select_spans-IsPlaced text es = (
  All-select_spans (λ e. Unit {0}) text es (All-Unit es),
  unfold select_spans in (select_from-disjoint none _ (spans_of text es)).1,
)
  where
    spans_of :
        (text : Text) (es : List PiiEntity) → All IsSpan (sort_by longest_first (valid_of text es))
    spans_of text es =
        All-placed-IsSpan text _
          (All-sort_by longest_first _ _ (All-valid_of (λ e. Unit {0}) text es (All-Unit es)))

-- The first character of every placed candidate lies in a span that is selected.
pub select_spans-Covers :
    (text : Text) (e : PiiEntity) (es : List PiiEntity)
    → IsPlaced text e
    → In e es
    → (s : PiiEntity) × In s (select_spans text es) × Covers s e
unfolding select_spans
select_spans-Covers text e es p i =
    elim (select_from-covers none _ e
      (sort_by-IsSorted longest_first longest_first_total longest_first_trans (valid_of text es)) tt
      p.1 (In-sort_by longest_first e _ (In-valid_of text e es p i))) [
        | inl c ↦ absurd c
        | inr c ↦ c
      ]

-- Spans in the text that lie one behind the other.
abbrev pub ArePlaced : Text → List PiiEntity → Type 0
ArePlaced text = All (IsPlaced text)

valid_of_placed : (text : Text) (es : List PiiEntity) → ArePlaced text es → valid_of text es ≡ es
unfolding valid_of
valid_of_placed text [] h = refl
valid_of_placed text (e ∷ es) (p, h) =
    rw (is_valid_complete text e p) (ap (◌∷◌ e) (valid_of_placed text es h))

first_of_disjoint :
    (text : Text) (e : PiiEntity) (es : List PiiEntity)
    → IsPlaced text e
    → All (IsBefore e) es
    → All (λ f. longest_first e f ≡ true) es
first_of_disjoint text e [] p h = tt
first_of_disjoint text e (f ∷ es) p (b, h) =
    (longest_first_of_Order e f (inl (omega arith)), first_of_disjoint text e es p h)

IsSorted-of_disjoint :
    (text : Text) (es : List PiiEntity)
    → ArePlaced text es
    → AreDisjoint es
    → IsSorted longest_first es
IsSorted-of_disjoint text [] p d = tt
IsSorted-of_disjoint text (e ∷ es) (p, ps) (h, d) =
    (first_of_disjoint text e es p h, IsSorted-of_disjoint text es ps d)

Beyond-free : (last : Option PiiEntity) (e : PiiEntity) → Beyond last e → is_blocked last e ≡ false
unfolding is_blocked
Beyond-free none e h = refl
Beyond-free (some l) e h = ground arith

All-none : (es : List PiiEntity) → All (Beyond none) es
All-none [] = tt
All-none (e ∷ es) = (tt, All-none es)

select_from_disjoint :
    (last : Option PiiEntity) (es : List PiiEntity)
    → All (Beyond last) es
    → AreDisjoint es
    → select_from last es ≡ es
unfolding select_from
select_from_disjoint last [] b d = refl
select_from_disjoint last (e ∷ es) (p, b) (h, d) =
    rw (Beyond-free last e p, select_from) (ap (◌∷◌ e) (select_from_disjoint (some e) es h d))

-- Spans that are placed and lie one behind the other are all selected.
select_spans_disjoint :
    (text : Text) (es : List PiiEntity)
    → ArePlaced text es
    → AreDisjoint es
    → select_spans text es ≡ es
unfolding select_spans
select_spans_disjoint text es p d = rw (valid_of_placed text es p) (
    rw (sort_by_sorted longest_first es (IsSorted-of_disjoint text es p d))
      (select_from_disjoint none es (All-none es) d))

ArePlaced-IsSpan : (text : Text) (es : List PiiEntity) → ArePlaced text es → All IsSpan es
ArePlaced-IsSpan text [] h = tt
ArePlaced-IsSpan text (e ∷ es) (p, h) = (omega arith, ArePlaced-IsSpan text es h)

-- Where the detectors report placed spans only, the selection of the masking engine returns exactly
-- what the resolution returns: it drops none of these entities and keeps their order.
pub select_spans-resolve_spans :
    (text : Text) (es : List PiiEntity)
    → ArePlaced text es
    → select_spans text (resolve_spans es) ≡ resolve_spans es
select_spans-resolve_spans text es p =
    select_spans_disjoint text (resolve_spans es) (All-resolve_spans (IsPlaced text) es p)
      (resolve_spans-AreDisjoint es (ArePlaced-IsSpan text es p))
