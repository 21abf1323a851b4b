-- ===== src/Prelude/Search.antt =====
-- Searching in texts: `in`, `str.find`, `str.startswith`, `str.endswith` and `str.replace`.
use Prim.Native.Nat.{ℕ, zero, suc, ◌+◌, ◌≤◌}
use mathlib.Core.Bool.{Bool, true, false, ◌&&◌, ◌||◌}
use mathlib.Core.List.{List, [], ◌∷◌, ◌++◌, reverse}
use mathlib.Core.Option.{Option, none, some}
use mathlib.Core.Path.{◌≡◌, refl, ap, sym, ◌∙◌}
use mathlib.Core.Logic.{◌≢◌, inl, inr}
use native.Mathlib.Omega.{arith}
use alfa_hackaton.Prelude.Lists.{length, drop}
use alfa_hackaton.Prelude.Strings.{Text, slice}
use alfa_hackaton.Prelude.Tests.{◌==◌, if◌then◌else◌, Bool-cases, some_injective}

-- s.startswith(p)
unfoldable pub starts_with : Text → Text → Bool
starts_with [] s = true
starts_with (a ∷ p) [] = false
starts_with (a ∷ p) (c ∷ s) = a == c && starts_with p s

-- s.endswith(p)
unfoldable pub ends_with : Text → Text → Bool
unfolding starts_with
ends_with p s = starts_with (reverse p) (reverse s)

-- p in s
unfoldable pub contains_text : Text → Text → Bool
unfolding starts_with
contains_text p [] = starts_with p []
contains_text p (c ∷ s) = starts_with p (c ∷ s) || contains_text p s

unfoldable pub any_in : List Text → Text → Bool
unfolding contains_text
any_in [] s = false
any_in (p ∷ ps) s = contains_text p s || any_in ps s

unfoldable pub found_after : Option ℕ → Option ℕ
found_after none = none
found_after (some i) = some (suc i)

-- s.find(p); `none` is -1
unfoldable pub find : Text → Text → Option ℕ
unfolding starts_with found_after
find p [] = if starts_with p [] then some 0 else none
find p (c ∷ s) = let rest = found_after (find p s) in if starts_with p (c ∷ s) then some 0 else rest

-- A text that starts with another has it at the start.
starts_with-slice :
    (p s : Text) → starts_with p s ≡ true → (slice s 0 (length p) ≡ p) × (length p ≤ length s)
unfolding starts_with slice
starts_with-slice [] [] h = (refl, omega arith)
starts_with-slice [] (c ∷ s) h = (refl, omega arith)
starts_with-slice (a ∷ p) [] h = absurd (ground arith)
starts_with-slice (a ∷ p) (c ∷ s) h = ground (arith, starts_with-slice p s)

found_at_zero :
    (p s : Text) (i j : ℕ)
    → (slice s 0 (length p) ≡ p) × (length p ≤ length s)
    → i ≡ 0
    → i + length p ≡ j
    → (slice s i j ≡ p) × (j ≤ length s)
found_at_zero p s i j (same, inside) e q =
    let at : j ≡ length p = omega arith in rw (e, at) (same, inside)

found_later :
    (p s : Text) (c i j k : ℕ)
    → ((k : ℕ) → i + length p ≡ k → (slice s i k ≡ p) × (k ≤ length s))
    → suc i + length p ≡ j
    → (slice (c ∷ s) (suc i) j ≡ p) × (j ≤ length (c ∷ s))
unfolding slice
found_later p s c i zero k h q = absurd (omega arith)
found_later p s c i (suc j) k h q = let (same, inside) = h j (omega arith) in (same, omega arith)

none_ne_some : {A : Type 0} {a : A} → none ≢ some a
none_ne_some e = ground arith

found_after_lem :
    (o : Option ℕ) (i : ℕ) → found_after o ≡ some i → (j : ℕ) × (o ≡ some j) × (i ≡ suc j)
unfolding found_after
found_after_lem none i h = absurd (none_ne_some h)
found_after_lem (some j) i h = (j, refl, sym (some_injective h))

-- What is found at a place stands there.
pub find-slice :
    (p s : Text) (i j : ℕ)
    → find p s ≡ some i
    → i + length p ≡ j
    → (slice s i j ≡ p) × (j ≤ length s)
unfolding find
find-slice p [] i j h q = elim (Bool-cases (starts_with p [])) [
  | inl here ↦
      found_at_zero p [] i j (starts_with-slice p [] here) (sym (some_injective (simp here at h))) q
  | inr later ↦ absurd (none_ne_some (simp later at h))
]
find-slice p (c ∷ s) i j h q = elim (Bool-cases (starts_with p (c ∷ s))) [
  | inl here ↦
      found_at_zero p (c ∷ s) i j (starts_with-slice p (c ∷ s) here)
        (sym (some_injective (simp here at h))) q
  | inr later ↦
      let (k, e, r) = found_after_lem (find p s) i (simp later at h) in
      rw r
        (found_later p s c k j j (λ l. find-slice p s k l e) (ap (λ n. n + length p) (sym r) ∙ q))
]

-- The replacement of a text that is not empty; `skip` counts the characters of the last occurrence
-- that are still to pass.
unfoldable pub replace_from : Text → Text → ℕ → Text → Text
unfolding starts_with
replace_from old new skip [] = []
replace_from old new (suc skip) (c ∷ s) = replace_from old new skip s
replace_from old new zero (c ∷ s) = elim (starts_with old (c ∷ s)) [
  | true ↦ new ++ replace_from old new (length (drop 1 old)) s
  | false ↦ c ∷ replace_from old new zero s
]

-- The empty text stands before each character and at the end.
unfoldable pub replace_empty : Text → Text → Text
replace_empty new [] = new
replace_empty new (c ∷ s) = new ++ c ∷ replace_empty new s

-- s.replace(old, new)
unfoldable pub replace : Text → Text → Text → Text
unfolding replace_from replace_empty
replace [] new s = replace_empty new s
replace (a ∷ old) new s = replace_from (a ∷ old) new zero s
