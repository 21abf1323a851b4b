-- ===== src/Prelude/Prefixes.antt =====
-- Beginnings of texts: what is left when the end of a slice is cut off.
use Prim.Native.Nat.{ℕ, zero, suc, ◌+◌, ◌≤◌}
use mathlib.Core.Bool.{Bool}
use mathlib.Core.List.{[], ◌∷◌, ◌++◌, append_assoc}
use mathlib.Core.Logic.{inl, inr}
use mathlib.Core.Path.{◌≡◌, refl, ap, sym, ◌∙◌}
use native.Mathlib.Omega.{arith}
use alfa_hackaton.Prelude.Lists.{length, length-append, take, drop, take-append-drop}
use alfa_hackaton.Prelude.Strings.{Text, slice}
use alfa_hackaton.Prelude.Tests.{Bool-cases, if◌then◌else◌}
use alfa_hackaton.Prelude.Words.{rstrip}

abbrev pub IsPrefix : Text → Text → Type 0
IsPrefix p s = (rest : Text) × (p ++ rest ≡ s)

pub IsPrefix-refl : (s : Text) → IsPrefix s s
IsPrefix-refl [] = ([], refl)
IsPrefix-refl (c ∷ s) = let (rest, e) = IsPrefix-refl s in (rest, ap (◌∷◌ c) e)

pub IsPrefix-trans : (p q s : Text) → IsPrefix p q → IsPrefix q s → IsPrefix p s
IsPrefix-trans p q s (r, e) (r', e') =
    (r ++ r', sym (append_assoc p r r') ∙ ap (λ x. x ++ r') e ∙ e')

pub IsPrefix-take : (n : ℕ) (s : Text) → IsPrefix (take n s) s
IsPrefix-take n s = (drop n s, take-append-drop n s)

rstrip_step :
    (is_space : ℕ → Bool) (c : ℕ) (s t : Text)
    → IsPrefix t s
    → IsPrefix (elim t [ [] ↦ if is_space c then [] else c ∷ [] | d ∷ u ↦ c ∷ d ∷ u ]) (c ∷ s)
rstrip_step is_space c s [] h = elim (Bool-cases (is_space c)) [
  | inl blank ↦ simp blank (c ∷ s, refl)
  | inr other ↦ simp other (s, refl)
]
rstrip_step is_space c s (d ∷ u) (rest, e) = (rest, ap (◌∷◌ c) e)

pub IsPrefix-rstrip : (is_space : ℕ → Bool) (s : Text) → IsPrefix (rstrip is_space s) s
unfolding rstrip
IsPrefix-rstrip is_space [] = ([], refl)
IsPrefix-rstrip is_space (c ∷ s) =
    rstrip_step is_space c s (rstrip is_space s) (IsPrefix-rstrip is_space s)

nil_of_prefix : (p rest : Text) → p ++ rest ≡ [] → p ≡ []
nil_of_prefix [] rest e = refl
nil_of_prefix (c ∷ p) rest e = absurd (ground arith)

slice_empty : (s : Text) (i j : ℕ) → i ≡ j → slice s i j ≡ []
unfolding slice
slice_empty s i zero e = refl
slice_empty [] i (suc j) e = refl
slice_empty (c ∷ s) zero (suc j) e = absurd (omega arith)
slice_empty (c ∷ s) (suc i) (suc j) e = slice_empty s i j (omega arith)

-- A beginning of a slice is a slice from the same place.
pub slice-IsPrefix :
    (s : Text) (i j k : ℕ) (p rest : Text)
    → i ≤ k
    → k ≤ length s
    → p ++ rest ≡ slice s i k
    → i + length p ≡ j
    → slice s i j ≡ p
unfolding slice
slice-IsPrefix s i j zero p rest h l e q =
    let n = nil_of_prefix p rest e in slice_empty s i j (omega (arith, ap length n)) ∙ sym n
slice-IsPrefix [] i j (suc k) p rest h l e q = absurd (omega arith)
slice-IsPrefix (c ∷ s) zero j (suc k) [] rest h l e q = slice_empty (c ∷ s) zero j (omega arith)
slice-IsPrefix (c ∷ s) zero zero (suc k) (d ∷ p) rest h l e q = absurd (omega arith)
slice-IsPrefix (c ∷ s) zero (suc j) (suc k) (d ∷ p) rest h l e q =
    cc (slice-IsPrefix s zero j k p rest (omega arith) (omega arith) (cc e) (omega arith), e)
slice-IsPrefix (c ∷ s) (suc i) zero (suc k) p rest h l e q = absurd (omega arith)
slice-IsPrefix (c ∷ s) (suc i) (suc j) (suc k) p rest h l e q =
    slice-IsPrefix s i j k p rest (omega arith) (omega arith) e (omega arith)

pub length-IsPrefix : (p s : Text) → IsPrefix p s → length p ≤ length s
length-IsPrefix p s (rest, e) = omega (arith, ap length e, length-append p rest)
