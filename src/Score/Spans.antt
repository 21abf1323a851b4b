-- ===== src/Score/Spans.antt =====
-- The dictionaries of spans and the counters.
use alfa_hackaton.Prelude.{
  suc, ◌+◌, ◌≡◌, ◌↔◌, refl, ap, ◌∙◌, true, false, none, some, [], ◌∷◌, Text, text_eq, text_eq_iff,
  text_eq_refl, arith, if◌then◌else◌, Bool-cases, inl, inr,
}
use alfa_hackaton.Prelude.Dict.{lookup, insert, lookup-insert, AreDistinct}
use alfa_hackaton.Prelude.Int.{eq_ℤ_iff}
use alfa_hackaton.Score.Common.{one}
use alfa_hackaton.Score.{SpanKey, span_key_eq, Spans, Counts, count_of, increment, spans_of}

pub span_key_eq_iff : (a b : SpanKey) → (span_key_eq a b ≡ true) ↔ (a ≡ b)
unfolding span_key_eq
span_key_eq_iff (s, i, j) (t, k, l) = ground (arith, text_eq_iff s t, eq_ℤ_iff i k, eq_ℤ_iff j l)

different : (j k : SpanKey) → span_key_eq j k ≡ false → span_key_eq k j ≡ false
different j k h = ground (arith, span_key_eq_iff j k, span_key_eq_iff k j)

fresh-insert :
    (j k : SpanKey) (v : Text) (d : Spans)
    → span_key_eq j k ≡ false
    → lookup span_key_eq j d ≡ none
    → lookup span_key_eq j (insert span_key_eq k v d) ≡ none
fresh-insert j k v d other fresh =
    lookup-insert span_key_eq span_key_eq_iff k j v d
    ∙ ap (λ b. if b then some v else lookup span_key_eq j d) (different j k other)
    ∙ fresh

insert-AreDistinct :
    (k : SpanKey) (v : Text) (d : Spans)
    → AreDistinct span_key_eq d
    → AreDistinct span_key_eq (insert span_key_eq k v d)
unfolding insert lookup
insert-AreDistinct k v [] h = (refl, tt)
insert-AreDistinct k v ((j, w) ∷ d) (fresh, h) = elim (Bool-cases (span_key_eq j k)) [
  | inl same ↦ simp same (fresh, h)
  | inr other ↦ simp other (fresh-insert j k v d other fresh, insert-AreDistinct k v d h)
]

pub spans_of-AreDistinct :
    (l d : Spans) → AreDistinct span_key_eq d → AreDistinct span_key_eq (spans_of l d)
unfolding spans_of
spans_of-AreDistinct [] d h = h
spans_of-AreDistinct ((k, v) ∷ l) d h =
    spans_of-AreDistinct l (insert span_key_eq k v d) (insert-AreDistinct k v d h)

pub count_of-increment :
    (t j : Text) (d : Counts) → count_of j (increment t d) ≡ one (text_eq t j) + count_of j d
unfolding count_of increment
count_of-increment t j d = elim (Bool-cases (text_eq t j)) [
  | inl same ↦
      rw ((text_eq_iff t j).0 same) (
        ground
          (arith, text_eq_refl j, lookup-insert text_eq text_eq_iff j j (suc (count_of j d)) d))
  | inr other ↦ ground (arith, lookup-insert text_eq text_eq_iff t j (suc (count_of t d)) d)
]
