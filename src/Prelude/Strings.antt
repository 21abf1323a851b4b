-- ===== src/Prelude/Strings.antt =====
-- A Python `str` as the list of its code points, with the operations that the program uses.
use Prim.Native.Char.{code}
use Prim.Native.Nat.{ℕ, zero, suc, ◌+◌, ◌≤◌}
use Prim.Native.String.{String}
use mathlib.Core.Bool.{Bool, true, false, ◌&&◌}
use mathlib.Core.List.{List, [], ◌∷◌, ◌++◌}
use mathlib.Core.Logic.{◌↔◌}
use mathlib.Core.Path.{◌≡◌, refl, ap}
use native.Mathlib.Omega.{arith}
use alfa_hackaton.Prelude.Lists.{length, drop}
use alfa_hackaton.Prelude.Tests.{◌==◌}

abbrev pub Text : Type 0
Text = List ℕ

-- The code points of a literal.
abbrev pub codes : String → Text
codes String.[] = []
codes (String.◌∷◌ c s) = code c ∷ codes s

-- s == t
unfoldable pub text_eq : Text → Text → Bool
text_eq [] [] = true
text_eq (a ∷ s) (b ∷ t) = a == b && text_eq s t
text_eq _ _ = false

text_eq_sound : (s t : Text) → text_eq s t ≡ true → s ≡ t
unfolding text_eq
text_eq_sound [] [] h = refl
text_eq_sound [] (b ∷ t) h = ground arith
text_eq_sound (a ∷ s) [] h = ground arith
text_eq_sound (a ∷ s) (b ∷ t) h = ground (arith, text_eq_sound s t)

pub text_eq_refl : (s : Text) → text_eq s s ≡ true
unfolding text_eq
text_eq_refl [] = refl
text_eq_refl (a ∷ s) = ground (arith, text_eq_refl s)

text_eq_complete : (s t : Text) → s ≡ t → text_eq s t ≡ true
text_eq_complete s t e = rw (← e) (text_eq_refl s)

pub text_eq_iff : (s t : Text) → (text_eq s t ≡ true) ↔ (s ≡ t)
text_eq_iff s t = (text_eq_sound s t, text_eq_complete s t)

-- text[i:j] for 0 ≤ i ≤ j
unfoldable pub slice : Text → ℕ → ℕ → Text
slice s i zero = []
slice [] i (suc j) = []
slice (c ∷ s) zero (suc j) = c ∷ slice s zero j
slice (c ∷ s) (suc i) (suc j) = slice s i j

-- Two neighbouring slices make one.
pub slice-append : (s : Text) (i j k : ℕ) → i ≤ j → j ≤ k → slice s i j ++ slice s j k ≡ slice s i k
unfolding slice
slice-append s zero zero zero p q = refl
slice-append s (suc i) zero k p q = absurd (omega arith)
slice-append s i (suc j) zero p q = absurd (omega arith)
slice-append [] zero zero (suc k) p q = refl
slice-append [] i (suc j) (suc k) p q = refl
slice-append (c ∷ s) zero zero (suc k) p q = refl
slice-append (c ∷ s) zero (suc j) (suc k) p q =
    ap (◌∷◌ c) (slice-append s zero j k (omega arith) (omega arith))
slice-append (c ∷ s) (suc i) (suc j) (suc k) p q = slice-append s i j k (omega arith) (omega arith)

pub slice_all : (s : Text) → slice s 0 (length s) ≡ s
unfolding slice
slice_all [] = refl
slice_all (c ∷ s) = ap (◌∷◌ c) (slice_all s)

-- Up to the end of the text.
pub slice-drop : (s : Text) (i k : ℕ) → length s ≤ k → slice s i k ≡ drop i s
unfolding slice
slice-drop [] zero zero h = refl
slice-drop [] zero (suc k) h = refl
slice-drop [] (suc i) zero h = refl
slice-drop [] (suc i) (suc k) h = refl
slice-drop (c ∷ s) i zero h = absurd (omega arith)
slice-drop (c ∷ s) zero (suc k) h = ap (◌∷◌ c) (slice-drop s zero k (omega arith))
slice-drop (c ∷ s) (suc i) (suc k) h = slice-drop s i k (omega arith)

pub slice-append-drop : (s : Text) (i j : ℕ) → i ≤ j → slice s i j ++ drop j s ≡ drop i s
unfolding slice
slice-append-drop s zero zero h = refl
slice-append-drop s (suc i) zero h = absurd (omega arith)
slice-append-drop [] zero (suc j) h = refl
slice-append-drop [] (suc i) (suc j) h = refl
slice-append-drop (c ∷ s) zero (suc j) h = ap (◌∷◌ c) (slice-append-drop s zero j (omega arith))
slice-append-drop (c ∷ s) (suc i) (suc j) h = slice-append-drop s i j (omega arith)

pub length-slice : (s : Text) (i j : ℕ) → i ≤ j → j ≤ length s → length (slice s i j) + i ≡ j
unfolding slice
length-slice s zero zero p q = refl
length-slice s (suc i) zero p q = absurd (omega arith)
length-slice [] i (suc j) p q = absurd (omega arith)
length-slice (c ∷ s) zero (suc j) p q =
    omega (arith, length-slice s zero j (omega arith) (omega arith))
length-slice (c ∷ s) (suc i) (suc j) p q =
    omega (arith, length-slice s i j (omega arith) (omega arith))
