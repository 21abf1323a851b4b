-- ===== src/Detection/Resolution/Kept.antt =====
-- Which candidates the resolution keeps, and which it loses.
use mathlib.Core.Logic.{◌↔◌}
use alfa_hackaton.Prelude.{
  ◌≡◌, ap, ◌⊎◌, inl, inr, true, false, some, List, [], ◌∷◌, map, arith, All, In, ltb, Bool-cases,
  Option-cases,
}
use alfa_hackaton.Prelude.Dict.{lookup, lookup-insert}
use alfa_hackaton.Prelude.Int.{◌<ℤ◌, eq_ℤ_iff, ◌-ℤ◌}
use alfa_hackaton.Prelude.Sort.{In-sort_by}
use alfa_hackaton.Core.Enums.{type_eq_iff}
use alfa_hackaton.Core.Models.{PiiEntity}
use alfa_hackaton.Detection.Resolution.{
  Key, key, key_eq, keep_best, best_of, priority, span_le, overlaps, better, resolve_from,
  resolve_sorted, resolve_spans,
}
use alfa_hackaton.Detection.Resolution.Spans.{All-sorted_best}
use alfa_hackaton.Detection.Resolution.Ranks.{outranks, Yields, better_right, In-resolve_sorted}

key_eq_iff : (a b : Key) → (key_eq a b ≡ true) ↔ (a ≡ b)
unfolding key_eq
key_eq_iff (s, i, j) (t, k, l) = ground (arith, type_eq_iff s t, eq_ℤ_iff i k, eq_ℤ_iff j l)

-- The same key and a span that is not empty: an overlap.
overlaps_of_key : (e f : PiiEntity) → e.start <ℤ e.end → key f ≡ key e → overlaps e f ≡ true
unfolding overlaps
overlaps_of_key e f p k = ground arith

outranks_of_key :
    (e f : PiiEntity) → key f ≡ key e → outranks e f ≡ true → ltb f.confidence e.confidence ≡ true
unfolding ◌-ℤ◌
outranks_of_key e f k h =
    ground
      (arith, ap (λ (k : Key). priority k.0) k, ap (λ (k : Key). k.1) k, ap (λ (k : Key). k.2) k)

-- What the dictionary holds under a key has that key, and yields to `e`.
abbrev Holds : PiiEntity → List (Key × PiiEntity) → Type 0
Holds e d = (k : Key) (c : PiiEntity) → lookup key_eq k d ≡ some c → (key c ≡ k) × Yields e c

module _ (e : PiiEntity) (filled : e.start <ℤ e.end) where
  weaker :
      (f : PiiEntity)
      → key f ≡ key e
      → Yields e f
      → (f ≡ e) ⊎ (ltb f.confidence e.confidence ≡ true)
  weaker f k (inl s) = inl s
  weaker f k (inr (inl s)) = cc (overlaps_of_key e f filled k)
  weaker f k (inr (inr s)) = inr (outranks_of_key e f k s)

  Holds-keep_best :
      (d : List (Key × PiiEntity)) (f : PiiEntity)
      → Yields e f
      → Holds e d
      → Holds e (keep_best d f)
  unfolding keep_best
  Holds-keep_best d f y h k c =
      ground (arith, lookup-insert key_eq key_eq_iff (key f) k f d, key_eq_iff (key f) k, h k c)

  keeps_self :
      (d : List (Key × PiiEntity)) → Holds e d → lookup key_eq (key e) (keep_best d e) ≡ some e
  unfolding keep_best
  keeps_self d h = elim (Option-cases (lookup key_eq (key e) d)) [
    | inl new ↦
        ground
          (arith, lookup-insert key_eq key_eq_iff (key e) (key e) e d, key_eq_iff (key e) (key e))
    | inr (c, old) ↦
        let (k, y) = h (key e) c old in
        ground (
          arith,
          weaker c k y,
          lookup-insert key_eq key_eq_iff (key e) (key e) e d,
          key_eq_iff (key e) (key e),
        )
  ]

  keeps_kept :
      (d : List (Key × PiiEntity)) (f : PiiEntity)
      → Yields e f
      → lookup key_eq (key e) d ≡ some e
      → lookup key_eq (key e) (keep_best d f) ≡ some e
  unfolding keep_best
  keeps_kept d f y h = elim (Bool-cases (key_eq (key f) (key e))) [
    | inl same ↦ ground (
      arith,
      weaker f ((key_eq_iff (key f) (key e)).0 same) y,
      lookup-insert key_eq key_eq_iff (key f) (key e) f d,
      key_eq_iff (key f) (key e),
    )
    | inr other ↦ ground (arith, lookup-insert key_eq key_eq_iff (key f) (key e) f d)
  ]

  best_of-kept :
      (d : List (Key × PiiEntity)) (es : List PiiEntity)
      → All (Yields e) es
      → lookup key_eq (key e) d ≡ some e
      → lookup key_eq (key e) (best_of d es) ≡ some e
  unfolding best_of
  best_of-kept d [] y h = h
  best_of-kept d (f ∷ es) (y, ys) h = best_of-kept (keep_best d f) es ys (keeps_kept d f y h)

  best_of-In :
      (d : List (Key × PiiEntity)) (es : List PiiEntity)
      → All (Yields e) es
      → Holds e d
      → In e es
      → lookup key_eq (key e) (best_of d es) ≡ some e
  unfolding best_of
  best_of-In d [] ys h i = elim i [ ]
  best_of-In d (f ∷ es) (y, ys) h (inl s) =
      best_of-kept (keep_best d f) es ys (rw s (keeps_self d h))
  best_of-In d (f ∷ es) (y, ys) h (inr i) =
      best_of-In (keep_best d f) es ys (Holds-keep_best d f y h) i

In-values :
    (k : Key) (e : PiiEntity) (d : List (Key × PiiEntity))
    → lookup key_eq k d ≡ some e
    → In e (map (λ kv. kv.1) d)
unfolding lookup
In-values k e [] h = cc
In-values k e ((j, f) ∷ d) h = elim (Bool-cases (key_eq j k)) [
  | inl same ↦ inl (ground arith)
  | inr other ↦ inr (In-values k e d (ground arith))
]

nothing_held : (e : PiiEntity) → Holds e []
unfolding lookup
nothing_held e k c h = cc

-- A candidate with a span that is not empty, which outranks every other candidate that it
-- overlaps, is among the entities that `resolve_spans` returns.
pub resolve_spans-In :
    (e : PiiEntity) (es : List PiiEntity)
    → e.start <ℤ e.end
    → In e es
    → All (Yields e) es
    → In e (resolve_spans es)
unfolding resolve_spans
resolve_spans-In e es filled i ys =
    let held = best_of-In e filled [] es ys (nothing_held e) i in
    In-resolve_sorted e _ (All-sorted_best (Yields e) es ys)
      (In-sort_by span_le e _ (In-values (key e) e (best_of [] es) held))

outranks_asymm : (a b : PiiEntity) → outranks a b ≡ true → outranks b a ≡ false
unfolding ◌-ℤ◌
outranks_asymm a b h = ground arith

chain_keeps_last :
    (a b c : PiiEntity)
    → overlaps a b ≡ true
    → better a b ≡ b
    → overlaps b c ≡ true
    → better b c ≡ c
    → resolve_sorted (a ∷ b ∷ c ∷ []) ≡ c ∷ []
unfolding resolve_sorted resolve_from
chain_keeps_last a b c o p q r = ground arith

-- Of three candidates in order, where the second overlaps and outranks the first and the third
-- overlaps and outranks the second, only the third is kept. The first is lost although it does not
-- overlap the third.
pub resolve_sorted-chain :
    (a b c : PiiEntity)
    → overlaps a b ≡ true
    → outranks b a ≡ true
    → overlaps b c ≡ true
    → outranks c b ≡ true
    → overlaps a c ≡ false
    → (resolve_sorted (a ∷ b ∷ c ∷ []) ≡ c ∷ []) × (¬ In a (resolve_sorted (a ∷ b ∷ c ∷ [])))
resolve_sorted-chain a b c o p q r n =
    let e = chain_keeps_last a b c o (better_right a b p) q (better_right b c r) in
    (
      e,
      rw (e, In)
          (elim [
            | inl s ↦ cc (outranks_asymm b a p, ap (λ (x : PiiEntity). outranks x b) s)
            | inr i ↦ i
          ]),
    )
