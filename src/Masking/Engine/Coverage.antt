-- ===== src/Masking/Engine/Coverage.antt =====
-- The order in which the selection takes the spans, and what it covers.
use alfa_hackaton.Prelude.{
  ◌≡◌, refl, ◌⊎◌, inl, inr, true, false, Option, none, some, List, [], ◌∷◌, arith, All, In,
  Bool-cases,
}
use alfa_hackaton.Prelude.Int.{◌≤ℤ◌, ◌<ℤ◌}
use alfa_hackaton.Prelude.Sort.{IsSorted}
use alfa_hackaton.Core.Models.{PiiEntity}
use alfa_hackaton.Masking.Engine.{longest_first, is_blocked, select_from}

-- The first character of `e` lies in the span `s`.
abbrev pub Covers : PiiEntity → PiiEntity → Type 0
Covers s e = (s.start ≤ℤ e.start) × (e.start <ℤ s.end)

pub longest_first_total : (a b : PiiEntity) → longest_first a b ≡ false → longest_first b a ≡ true
unfolding longest_first
longest_first_total a b h = ground arith

-- `a` starts earlier, or at the same place and ends no earlier.
abbrev Order : PiiEntity → PiiEntity → Type 0
Order a b = (a.start <ℤ b.start) ⊎ ((a.start ≤ℤ b.start) × (b.start ≤ℤ a.start) × (b.end ≤ℤ a.end))

Order-of_longest_first : (a b : PiiEntity) → longest_first a b ≡ true → Order a b
unfolding longest_first
Order-of_longest_first a b h = ground arith

pub longest_first_of_Order : (a b : PiiEntity) → Order a b → longest_first a b ≡ true
unfolding longest_first
longest_first_of_Order a b h = ground arith

Order-trans : (a b c : PiiEntity) → Order a b → Order b c → Order a c
Order-trans a b c (inl p) (inl q) = inl (omega arith)
Order-trans a b c (inl p) (inr q) = inl (omega arith)
Order-trans a b c (inr p) (inl q) = inl (omega arith)
Order-trans a b c (inr p) (inr q) = inr (omega arith, omega arith, omega arith)

pub longest_first_trans :
    (a b c : PiiEntity)
    → longest_first a b ≡ true
    → longest_first b c ≡ true
    → longest_first a c ≡ true
longest_first_trans a b c p q =
    longest_first_of_Order a c
      (Order-trans a b c (Order-of_longest_first a b p) (Order-of_longest_first b c q))

longest_first-start : (a b : PiiEntity) → longest_first a b ≡ true → a.start ≤ℤ b.start
unfolding longest_first
longest_first-start a b h = ground arith

abbrev CoveredBy : Option PiiEntity → PiiEntity → Type 0
CoveredBy none e = ⊥
CoveredBy (some l) e = Covers l e

-- `last` starts no later than the entities that follow.
abbrev StartsBefore : Option PiiEntity → List PiiEntity → Type 0
StartsBefore none es = Unit
StartsBefore (some l) es = All (λ e. l.start ≤ℤ e.start) es

StartsBefore-tail :
    (last : Option PiiEntity) (e : PiiEntity) (es : List PiiEntity)
    → StartsBefore last (e ∷ es)
    → StartsBefore last es
StartsBefore-tail none e es h = tt
StartsBefore-tail (some l) e es h = h.1

StartsBefore-self :
    (e : PiiEntity) (es : List PiiEntity)
    → All (λ f. longest_first e f ≡ true) es
    → StartsBefore (some e) es
StartsBefore-self e [] h = tt
StartsBefore-self e (f ∷ es) (p, h) = (longest_first-start e f p, StartsBefore-self e es h)

blocked :
    (last : Option PiiEntity) (e : PiiEntity) (es : List PiiEntity)
    → StartsBefore last (e ∷ es)
    → is_blocked last e ≡ true
    → CoveredBy last e
unfolding is_blocked
blocked none e es s h = ground arith
blocked (some l) e es s h = (s.0, ground arith)

abbrev Found : Option PiiEntity → List PiiEntity → PiiEntity → Type 0
Found last out e = CoveredBy last e ⊎ ((s : PiiEntity) × In s out × Covers s e)

Found-cons :
    (last : Option PiiEntity) (f : PiiEntity) (out : List PiiEntity) (e : PiiEntity)
    → Found (some f) out e
    → Found last (f ∷ out) e
Found-cons last f out e (inl c) = inr (f, inl refl, c)
Found-cons last f out e (inr (s, i, c)) = inr (s, inr i, c)

pub select_from-covers :
    (last : Option PiiEntity) (es : List PiiEntity) (e : PiiEntity)
    → IsSorted longest_first es
    → StartsBefore last es
    → e.start <ℤ e.end
    → In e es
    → Found last (select_from last es) e
unfolding select_from
select_from-covers last [] e s b w i = elim i [ ]
select_from-covers last (f ∷ es) e (h, s) b w (inl q) = elim (Bool-cases (is_blocked last f)) [
  | inl x ↦ inl (rw (← q) (blocked last f es b x))
  | inr x ↦ rw (x, select_from) (inr (f, inl refl, (ground arith, ground arith)))
]
select_from-covers last (f ∷ es) e (h, s) b w (inr i) = elim (Bool-cases (is_blocked last f)) [
  | inl x ↦ rw (x, select_from) (select_from-covers last es e s (StartsBefore-tail last f es b) w i)
  | inr x ↦
      rw (x, select_from)
        (Found-cons last f _ e (select_from-covers (some f) es e s (StartsBefore-self f es h) w i))
]
