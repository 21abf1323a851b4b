-- ===== src/Detection/Resolution/Spans.antt =====
-- Spans: what holds of every candidate holds of every resolved entity, and the sort order.
use alfa_hackaton.Prelude.{
  ◌≡◌, ◌⊎◌, inl, inr, true, false, List, [], ◌∷◌, map, arith, All, Bool-cases, Option-cases,
}
use alfa_hackaton.Prelude.Dict.{lookup, insert}
use alfa_hackaton.Prelude.Int.{◌≤ℤ◌}
use alfa_hackaton.Prelude.Sort.{sort_by, All-sort_by}
use alfa_hackaton.Core.Models.{PiiEntity}
use alfa_hackaton.Core.Spans.{IsSpan, IsBefore}
use alfa_hackaton.Detection.Resolution.{
  Key, key, key_eq, keep_best, best_of, span_le, overlaps, better, resolve_from, resolve_sorted,
  resolve_spans,
}

pub better-cases : (a b : PiiEntity) → (better a b ≡ a) ⊎ (better a b ≡ b)
unfolding better
better-cases a b = ground arith

pub span_le_total : (a b : PiiEntity) → span_le a b ≡ false → span_le b a ≡ true
unfolding span_le
span_le_total a b h = ground arith

pub span_le_trans :
    (a b c : PiiEntity) → span_le a b ≡ true → span_le b c ≡ true → span_le a c ≡ true
unfolding span_le
span_le_trans a b c p q = ground arith

pub span_le-start : (a b : PiiEntity) → span_le a b ≡ true → a.start ≤ℤ b.start
unfolding span_le
span_le-start a b h = ground arith

-- Spans in order that do not overlap lie one behind the other.
pub IsBefore-of_not-overlaps :
    (a b : PiiEntity)
    → IsSpan a
    → IsSpan b
    → span_le a b ≡ true
    → overlaps a b ≡ false
    → IsBefore a b
unfolding span_le overlaps
IsBefore-of_not-overlaps a b p q l h = ground arith

module _ (P : PiiEntity → Type 0) where
  All-insert :
      (k : Key) (e : PiiEntity) (d : List (Key × PiiEntity))
      → P e
      → All (λ kv. P kv.1) d
      → All (λ kv. P kv.1) (insert key_eq k e d)
  unfolding insert
  All-insert k e [] p h = (p, tt)
  All-insert k e ((j, f) ∷ d) p (q, h) = elim (Bool-cases (key_eq j k)) [
    | inl same ↦ rw same (p, h)
    | inr other ↦ rw other (q, All-insert k e d p h)
  ]

  All-keep_best :
      (d : List (Key × PiiEntity)) (e : PiiEntity)
      → P e
      → All (λ kv. P kv.1) d
      → All (λ kv. P kv.1) (keep_best d e)
  unfolding keep_best
  All-keep_best d e p h = elim (Option-cases (lookup key_eq (key e) d)) [
    | inl new ↦ rw (new, keep_best) (All-insert (key e) e d p h)
    | inr (c, old) ↦ ground (arith, All-insert (key e) e d p h)
  ]

  All-best_of :
      (d : List (Key × PiiEntity)) (es : List PiiEntity)
      → All (λ kv. P kv.1) d
      → All P es
      → All (λ kv. P kv.1) (best_of d es)
  unfolding best_of
  All-best_of d [] h ps = h
  All-best_of d (e ∷ es) h (p, ps) = All-best_of (keep_best d e) es (All-keep_best d e p h) ps

  All-values : (d : List (Key × PiiEntity)) → All (λ kv. P kv.1) d → All P (map (λ kv. kv.1) d)
  All-values [] h = tt
  All-values (kv ∷ d) (p, h) = (p, All-values d h)

  All-resolve_from :
      (last : PiiEntity) (es : List PiiEntity) → P last → All P es → All P (resolve_from last es)
  unfolding resolve_from
  All-resolve_from last [] p h = (p, tt)
  All-resolve_from last (e ∷ es) p (q, h) = elim (Bool-cases (overlaps last e)) [
    | inl over ↦
        rw (over, resolve_from)
          (elim (better-cases last e) [
            | inl a ↦ rw a (All-resolve_from last es p h)
            | inr b ↦ rw b (All-resolve_from e es q h)
          ])
    | inr apart ↦ rw (apart, resolve_from) (p, All-resolve_from e es q h)
  ]

  All-resolve_sorted : (es : List PiiEntity) → All P es → All P (resolve_sorted es)
  unfolding resolve_sorted
  All-resolve_sorted [] h = tt
  All-resolve_sorted (e ∷ es) (p, h) = All-resolve_from e es p h

  -- The resolution drops entities and changes none.
  pub All-resolve_spans : (es : List PiiEntity) → All P es → All P (resolve_spans es)
  unfolding resolve_spans
  All-resolve_spans es h =
      All-resolve_sorted _
        (All-sort_by span_le P _ (All-values (best_of [] es) (All-best_of [] es tt h)))

-- What the first loop hands to the second: the kept candidates, in order.
pub All-sorted_best :
    (P : PiiEntity → Type 0) (es : List PiiEntity)
    → All P es
    → All P (sort_by span_le (map (λ kv. kv.1) (best_of [] es)))
All-sorted_best P es h =
    All-sort_by span_le P _ (All-values P (best_of [] es) (All-best_of P [] es tt h))
