-- ===== src/Prelude/Words.antt =====
-- Whitespace in texts: `str.strip`, `str.rstrip` and `str.split`.
use Prim.Native.Nat.{ℕ}
use mathlib.Core.Bool.{Bool, true, false}
use mathlib.Core.List.{List, [], ◌∷◌, reverse}
use alfa_hackaton.Prelude.Strings.{Text}
use alfa_hackaton.Prelude.Tests.{if◌then◌else◌}

module _ (is_space : ℕ → Bool) where
  unfoldable pub lstrip : Text → Text
  lstrip [] = []
  lstrip (c ∷ s) = let rest = lstrip s in if is_space c then rest else c ∷ s

  -- Without the whitespace at the end: what is all whitespace goes.
  unfoldable pub rstrip : Text → Text
  rstrip [] = []
  rstrip (c ∷ s) = elim (rstrip s) [ [] ↦ if is_space c then [] else c ∷ [] | d ∷ t ↦ c ∷ d ∷ t ]

  unfoldable pub strip : Text → Text
  unfolding lstrip rstrip
  strip s = rstrip (lstrip s)

  abbrev push_word : Text → List Text → List Text
  push_word [] words = words
  push_word (c ∷ w) words = reverse (c ∷ w) ∷ words

  -- `word` is the word read so far, backwards.
  unfoldable pub split_from : Text → Text → List Text
  split_from word [] = push_word word []
  split_from word (c ∷ s) = elim (is_space c) [
    | true ↦ push_word word (split_from [] s)
    | false ↦ split_from (c ∷ word) s
  ]

  -- s.split()
  unfoldable pub split : Text → List Text
  unfolding split_from
  split s = split_from [] s
