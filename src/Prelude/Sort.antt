-- ===== src/Prelude/Sort.antt =====
-- `sorted(xs, key=…)` and `xs.sort(key=…)`: the stable sort by a Boolean order, as insertion.
use mathlib.Core.List.Perm
use mathlib.Core.List.{List, [], ◌∷◌, Perm}
use mathlib.Core.Bool.{Bool, true, false}
use mathlib.Core.Path.{◌≡◌, refl}
use mathlib.Core.Logic.{inl, inr}
use alfa_hackaton.Prelude.Lists.{All, In}
use alfa_hackaton.Prelude.Tests.{Bool-cases, if◌then◌else◌}

module _ {ℓ} {A : Type ℓ} (le : A → A → Bool) where
  -- before the first element that is greater, hence behind the equal ones
  unfoldable pub insert_by : A → List A → List A
  insert_by a [] = a ∷ []
  insert_by a (b ∷ l) = if le a b then a ∷ b ∷ l else b ∷ insert_by a l

  unfoldable pub sort_by : List A → List A
  unfolding insert_by
  sort_by [] = []
  sort_by (a ∷ l) = insert_by a (sort_by l)

  -- Each element is at most every later one.
  abbrev pub IsSorted : List A → Type 0
  IsSorted [] = Unit
  IsSorted (a ∷ l) = All (λ b. le a b ≡ true) l × IsSorted l

module _ {ℓ κ} {A : Type ℓ} (le : A → A → Bool) (P : A → Type κ) where
  pub All-insert_by : (a : A) (l : List A) → P a → All P l → All P (insert_by le a l)
  unfolding insert_by
  All-insert_by a [] p h = (p, tt)
  All-insert_by a (b ∷ l) p (q, h) = elim (Bool-cases (le a b)) [
    | inl e ↦ rw e (p, (q, h))
    | inr e ↦ rw e (q, All-insert_by a l p h)
  ]

  pub All-sort_by : (l : List A) → All P l → All P (sort_by le l)
  unfolding sort_by
  All-sort_by [] h = tt
  All-sort_by (a ∷ l) (p, h) = All-insert_by a (sort_by le l) p (All-sort_by l h)

module _ {ℓ} {A : Type ℓ} (le : A → A → Bool) (total : (a b : A) → le a b ≡ false → le b a ≡ true)
    (trans : (a b c : A) → le a b ≡ true → le b c ≡ true → le a c ≡ true) where
  All-le_trans :
      (a b : A) (l : List A)
      → le a b ≡ true
      → All (λ c. le b c ≡ true) l
      → All (λ c. le a c ≡ true) l
  All-le_trans a b [] p h = tt
  All-le_trans a b (c ∷ l) p (q, h) = (trans a b c p q, All-le_trans a b l p h)

  pub insert_by-IsSorted : (a : A) (l : List A) → IsSorted le l → IsSorted le (insert_by le a l)
  unfolding insert_by
  insert_by-IsSorted a [] s = (tt, tt)
  insert_by-IsSorted a (b ∷ l) (h, s) = elim (Bool-cases (le a b)) [
    | inl e ↦ rw e ((e, All-le_trans a b l e h), (h, s))
    | inr e ↦
        rw e (All-insert_by le (λ c. le b c ≡ true) a l (total a b e) h, insert_by-IsSorted a l s)
  ]

  pub sort_by-IsSorted : (l : List A) → IsSorted le (sort_by le l)
  unfolding sort_by
  sort_by-IsSorted [] = tt
  sort_by-IsSorted (a ∷ l) = insert_by-IsSorted a (sort_by le l) (sort_by-IsSorted l)

module _ {ℓ} {A : Type ℓ} (le : A → A → Bool) where
  insert_by-perm : (a : A) (l : List A) → Perm (insert_by le a l) (a ∷ l)
  unfolding insert_by
  insert_by-perm a [] = Perm.refl (a ∷ [])
  insert_by-perm a (b ∷ l) = elim (Bool-cases (le a b)) [
    | inl e ↦ rw e (Perm.refl (a ∷ b ∷ l))
    | inr e ↦ rw e (Perm.trans (Perm.cons b (insert_by-perm a l)) (Perm.swap a b l))
  ]

  -- The sort moves elements and loses none.
  pub sort_by-perm : (l : List A) → Perm (sort_by le l) l
  unfolding sort_by
  sort_by-perm [] = Perm.refl []
  sort_by-perm (a ∷ l) = Perm.trans (insert_by-perm a (sort_by le l)) (Perm.cons a (sort_by-perm l))

module _ {A : Type 0} (le : A → A → Bool) where
  In-insert_by_self : (a : A) (l : List A) → In a (insert_by le a l)
  unfolding insert_by
  In-insert_by_self a [] = inl refl
  In-insert_by_self a (b ∷ l) = elim (Bool-cases (le a b)) [
    | inl e ↦ rw (e, In) (inl refl)
    | inr e ↦ rw (e, In) (inr (In-insert_by_self a l))
  ]

  In-insert_by : (x a : A) (l : List A) → In x l → In x (insert_by le a l)
  unfolding insert_by
  In-insert_by x a [] i = elim i [ ]
  In-insert_by x a (b ∷ l) i = elim (Bool-cases (le a b)) [
    | inl e ↦ rw (e, In) (inr i)
    | inr e ↦ rw (e, In) (behind (In-insert_by x a l) i)
  ]
    where
      behind : (In x l → In x (insert_by le a l)) → In x (b ∷ l) → In x (b ∷ insert_by le a l)
      behind rest (inl s) = inl s
      behind rest (inr j) = inr (rest j)

  pub In-sort_by : (x : A) (l : List A) → In x l → In x (sort_by le l)
  unfolding sort_by
  In-sort_by x [] i = elim i [ ]
  In-sort_by x (a ∷ l) (inl s) = rw s (In-insert_by_self x (sort_by le l))
  In-sort_by x (a ∷ l) (inr i) = In-insert_by x a (sort_by le l) (In-sort_by x l i)

module _ {ℓ} {A : Type ℓ} (le : A → A → Bool) where
  insert_by_least : (a : A) (l : List A) → All (λ b. le a b ≡ true) l → insert_by le a l ≡ a ∷ l
  unfolding insert_by
  insert_by_least a [] h = refl
  insert_by_least a (b ∷ l) (p, h) = rw p

  -- A sorted list is its own sort.
  pub sort_by_sorted : (l : List A) → IsSorted le l → sort_by le l ≡ l
  unfolding sort_by
  sort_by_sorted [] s = refl
  sort_by_sorted (a ∷ l) (h, s) = rw (sort_by_sorted l s) (insert_by_least a l h)
