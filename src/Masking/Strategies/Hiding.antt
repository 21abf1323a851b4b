-- ===== src/Masking/Strategies/Hiding.antt =====
-- What the substitutions hide and what they keep, character by character.
use alfa_hackaton.Prelude.{
  ℕ, ◌≡◌, refl, ap, ◌⊎◌, inl, inr, Bool, true, false, [], ◌∷◌, arith, All, Text, length,
}
use alfa_hackaton.Masking.Chars.{CharClass, is_alnum, star}
use alfa_hackaton.Masking.Strategies.{substitute, mask_all_alnum}

-- Two texts that differ in hidden characters only: the same length, hidden characters at the same
-- places, and the others equal.
abbrev pub AreAlike : (ℕ → Bool) → Text → Text → Type 0
AreAlike p [] [] = Unit
AreAlike p (c ∷ s) (d ∷ t) = ((c ≡ d) ⊎ ((p c ≡ true) × (p d ≡ true))) × AreAlike p s t
AreAlike p _ _ = ⊥

-- The second text is the first with stars in the place of some of its hidden characters.
abbrev pub IsStarred : (ℕ → Bool) → Text → Text → Type 0
IsStarred p [] [] = Unit
IsStarred p (c ∷ s) (d ∷ t) = ((c ≡ d) ⊎ ((p c ≡ true) × (d ≡ star))) × IsStarred p s t
IsStarred p _ _ = ⊥

module _ (p : ℕ → Bool) where
  pub length-substitute : (s : Text) → length (substitute p s) ≡ length s
  unfolding substitute
  length-substitute [] = refl
  length-substitute (c ∷ s) = ap ℕ.suc (length-substitute s)

  pub substitute-hides : (s : Text) → p star ≡ false → All (λ c. p c ≡ false) (substitute p s)
  unfolding substitute
  substitute-hides [] h = tt
  substitute-hides (c ∷ s) h = (ground arith, substitute-hides s h)

  pub substitute-Alike : (s t : Text) → AreAlike p s t → substitute p s ≡ substitute p t
  unfolding substitute
  substitute-Alike [] [] h = refl
  substitute-Alike [] (d ∷ t) h = elim h [ ]
  substitute-Alike (c ∷ s) [] h = elim h [ ]
  substitute-Alike (c ∷ s) (d ∷ t) (inl e, h) = ground (arith, substitute-Alike s t h)
  substitute-Alike (c ∷ s) (d ∷ t) (inr (e, f), h) = ground (arith, substitute-Alike s t h)

  pub substitute-Starred : (s : Text) → IsStarred p s (substitute p s)
  unfolding substitute
  substitute-Starred [] = tt
  substitute-Starred (c ∷ s) = (ground arith, substitute-Starred s)

module _ (chars : CharClass) where
  pub star_not_alnum : is_alnum chars star ≡ false
  star_not_alnum = ground (arith, chars.star_not_word)

  -- The full mask has the length of the value and no letter or digit in it, and it is the same
  -- for every value with letters and digits at the same places and the same other characters.
  pub mask_all_alnum-hides :
      (v w : Text)
      → AreAlike (is_alnum chars) v w
      → (length (mask_all_alnum chars v) ≡ length v)
        × All (λ c. is_alnum chars c ≡ false) (mask_all_alnum chars v)
        × (mask_all_alnum chars v ≡ mask_all_alnum chars w)
  unfolding mask_all_alnum
  mask_all_alnum-hides v w h = (
    length-substitute (is_alnum chars) v,
    substitute-hides (is_alnum chars) v star_not_alnum,
    substitute-Alike (is_alnum chars) v w h,
  )
