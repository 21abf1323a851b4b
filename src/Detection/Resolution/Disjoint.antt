-- ===== src/Detection/Resolution/Disjoint.antt =====
-- The resolved entities are sorted by their start and do not overlap.
use alfa_hackaton.Prelude.{inl, inr, List, [], ◌∷◌, arith, All, Bool-cases}
use alfa_hackaton.Prelude.Int.{ℤ, ◌≤ℤ◌}
use alfa_hackaton.Prelude.Sort.{IsSorted, sort_by-IsSorted}
use alfa_hackaton.Core.Models.{PiiEntity}
use alfa_hackaton.Core.Spans.{IsSpan, AreDisjoint}
use alfa_hackaton.Detection.Resolution.{
  span_le, overlaps, resolve_from, resolve_sorted, resolve_spans,
}
use alfa_hackaton.Detection.Resolution.Spans.{
  better-cases, span_le_total, span_le_trans, span_le-start, IsBefore-of_not-overlaps,
  All-sorted_best,
}

-- Every output of the second loop starts at `m` or later if every input does.
starts_after :
    (m : ℤ) (last : PiiEntity) (es : List PiiEntity)
    → m ≤ℤ last.start
    → IsSorted span_le (last ∷ es)
    → All (λ x. m ≤ℤ x.start) (resolve_from last es)
unfolding resolve_from
starts_after m last [] p s = (p, tt)
starts_after m last (e ∷ es) p ((le, h), (h', s)) =
    let q : m ≤ℤ e.start = omega (arith, span_le-start last e le) in
    elim (Bool-cases (overlaps last e)) [
      | inl over ↦
          rw (over, resolve_from)
            (elim (better-cases last e) [
              | inl a ↦ rw a (starts_after m last es p (h, s))
              | inr b ↦ rw b (starts_after m e es q (h', s))
            ])
      | inr apart ↦ rw (apart, resolve_from) (p, starts_after m e es q (h', s))
    ]

resolve_from-AreDisjoint :
    (last : PiiEntity) (es : List PiiEntity)
    → All IsSpan (last ∷ es)
    → IsSorted span_le (last ∷ es)
    → AreDisjoint (resolve_from last es)
unfolding resolve_from
resolve_from-AreDisjoint last [] w s = (tt, tt)
resolve_from-AreDisjoint last (e ∷ es) (w, (w', ws)) ((le, h), (h', s)) =
    elim (Bool-cases (overlaps last e)) [
      | inl over ↦
          rw (over, resolve_from)
            (elim (better-cases last e) [
              | inl a ↦ rw a (resolve_from-AreDisjoint last es (w, ws) (h, s))
              | inr b ↦ rw b (resolve_from-AreDisjoint e es (w', ws) (h', s))
            ])
      | inr apart ↦
          rw (apart, resolve_from)
            (
              starts_after last.end e es (IsBefore-of_not-overlaps last e w w' le apart) (h', s),
              resolve_from-AreDisjoint e es (w', ws) (h', s),
            )
    ]

resolve_sorted-AreDisjoint :
    (es : List PiiEntity) → All IsSpan es → IsSorted span_le es → AreDisjoint (resolve_sorted es)
unfolding resolve_sorted
resolve_sorted-AreDisjoint [] w s = tt
resolve_sorted-AreDisjoint (e ∷ es) w s = resolve_from-AreDisjoint e es w s

-- Whatever the detectors report, as long as no candidate ends before it starts, each entity that
-- `resolve_spans` returns ends at or before the start of every later one.
pub resolve_spans-AreDisjoint :
    (es : List PiiEntity) → All IsSpan es → AreDisjoint (resolve_spans es)
unfolding resolve_spans
resolve_spans-AreDisjoint es w =
    resolve_sorted-AreDisjoint _ (All-sorted_best IsSpan es w)
      (sort_by-IsSorted span_le span_le_total span_le_trans _)
