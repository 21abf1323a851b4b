-- ===== src/Detection/Resolution/Ranks.antt =====
-- What outranks what it overlaps is kept by the loop.
use alfa_hackaton.Prelude.{
  ◌≡◌, refl, ◌⊎◌, inl, inr, Bool, true, false, ◌&&◌, ◌||◌, List, [], ◌∷◌, arith, All, In, ltb, ◌==◌,
  Bool-cases,
}
use alfa_hackaton.Prelude.Int.{ltb_ℤ, ◌-ℤ◌}
use alfa_hackaton.Core.Models.{PiiEntity}
use alfa_hackaton.Detection.Resolution.{priority, overlaps, better, resolve_from, resolve_sorted}
use alfa_hackaton.Detection.Resolution.Spans.{better-cases}

-- A higher priority; or the same and more confidence; or the same of both and a longer span.
abbrev pub outranks : PiiEntity → PiiEntity → Bool
outranks a b =
    ltb (priority b.type) (priority a.type)
    || (priority a.type == priority b.type
        && (ltb b.confidence a.confidence
            || (a.confidence == b.confidence && ltb_ℤ (b.end -ℤ b.start) (a.end -ℤ a.start))))

-- `e` has nothing to fear from `f`: the same entity, no overlap, or `e` outranks it.
abbrev pub Yields : PiiEntity → PiiEntity → Type 0
Yields e f = (f ≡ e) ⊎ (overlaps e f ≡ false) ⊎ (outranks e f ≡ true)

better_left : (a b : PiiEntity) → outranks a b ≡ true → better a b ≡ a
unfolding better ◌-ℤ◌
better_left a b h = ground arith

pub better_right : (a b : PiiEntity) → outranks b a ≡ true → better a b ≡ b
unfolding better ◌-ℤ◌
better_right a b h = ground arith

overlaps_comm : (a b : PiiEntity) → overlaps a b ≡ overlaps b a
unfolding overlaps
overlaps_comm a b = ground arith

better_self : (a : PiiEntity) → better a a ≡ a
better_self a = elim (better-cases a a) [ inl e ↦ e | inr e ↦ e ]

better-Yields : (e f : PiiEntity) → overlaps e f ≡ true → Yields e f → better e f ≡ e
better-Yields e f o (inl s) = rw s (better_self e)
better-Yields e f o (inr (inl s)) = cc
better-Yields e f o (inr (inr s)) = better_left e f s

Yields-better : (e f : PiiEntity) → overlaps f e ≡ true → Yields e f → better f e ≡ e
Yields-better e f o (inl s) = rw s (better_self e)
Yields-better e f o (inr (inl s)) = cc (overlaps_comm e f)
Yields-better e f o (inr (inr s)) = better_right f e s

last-In-resolve_from :
    (e : PiiEntity) (es : List PiiEntity) → All (Yields e) es → In e (resolve_from e es)
unfolding resolve_from
last-In-resolve_from e [] h = inl refl
last-In-resolve_from e (f ∷ es) (y, h) = elim (Bool-cases (overlaps e f)) [
  | inl over ↦ rw (over, resolve_from) (rw (better-Yields e f over y) (last-In-resolve_from e es h))
  | inr apart ↦ rw (apart, resolve_from) (inl refl)
]

In-resolve_from :
    (e last : PiiEntity) (es : List PiiEntity)
    → Yields e last
    → All (Yields e) es
    → In e es
    → In e (resolve_from last es)
unfolding resolve_from
In-resolve_from e last [] y h i = elim i [ ]
In-resolve_from e last (f ∷ es) y (y', h) (inl s) = elim (Bool-cases (overlaps last f)) [
  | inl over ↦
      rw (over, resolve_from)
        (rw (s, Yields-better e last (rw (← s) over) y) (last-In-resolve_from e es h))
  | inr apart ↦ rw (apart, resolve_from) (inr (rw s (last-In-resolve_from e es h)))
]
In-resolve_from e last (f ∷ es) y (y', h) (inr i) = elim (Bool-cases (overlaps last f)) [
  | inl over ↦
      rw (over, resolve_from)
        (elim (better-cases last f) [
          | inl a ↦ rw a (In-resolve_from e last es y h i)
          | inr b ↦ rw b (In-resolve_from e f es y' h i)
        ])
  | inr apart ↦ rw (apart, resolve_from) (inr (In-resolve_from e f es y' h i))
]

pub In-resolve_sorted :
    (e : PiiEntity) (es : List PiiEntity) → All (Yields e) es → In e es → In e (resolve_sorted es)
unfolding resolve_sorted
In-resolve_sorted e [] h i = elim i [ ]
In-resolve_sorted e (f ∷ es) (y, h) (inl s) = rw s (last-In-resolve_from e es h)
In-resolve_sorted e (f ∷ es) (y, h) (inr i) = In-resolve_from e f es y h i
