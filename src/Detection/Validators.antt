-- ===== src/Detection/Validators.antt =====
-- app/detection/validators.py: the checks of numbers. `int_of` is Python's `int` on a character.
pub mod Typos
use alfa_hackaton.Prelude.{
  ℕ, ◌+◌, ◌-◌, ◌*◌, ◌%◌, Bool, true, false, not, ◌&&◌, List, [], ◌∷◌, Text, length, ltb, leb, ◌==◌,
  drop, if◌then◌else◌, Option, none, some, get_elem?,
}
use alfa_hackaton.Core.Errors.{Result, ok, err, ◌>>=◌, index_error}
use mathlib.Core.List.{reverse}

-- what a digit adds at an even place from the right, and at an odd one
unfoldable pub weight : Bool → ℕ → ℕ
weight false d = d
weight true d = if ltb 9 (d * 2) then d * 2 - 9 else d * 2

module _ (is_digit : ℕ → Bool) (int_of : ℕ → Result ℕ) where
  -- `digits`
  unfoldable pub digits : Text → Text
  digits [] = []
  digits (c ∷ s) = let rest = digits s in if is_digit c then c ∷ rest else rest

  -- the loop of `luhn`
  unfoldable pub luhn_total : Bool → Text → Result ℕ
  unfolding weight
  luhn_total odd [] = ok 0
  luhn_total odd (c ∷ s) = do d ← int_of c; rest ← luhn_total (not odd) s; ok (weight odd d + rest)

  -- `luhn`
  unfoldable pub luhn : Text → Result Bool
  unfolding digits luhn_total
  luhn s =
      let num = digits s in
      let total = luhn_total false (reverse num) in
      if leb 13 (length num) && leb (length num) 19
      then (total >>= (λ t. ok (t % 10 == 0)))
      else ok false

  -- int(num[i])
  unfoldable pub digit_at : Text → ℕ → Result ℕ
  digit_at num i = elim (get_elem? num i) [ none ↦ err index_error | some c ↦ int_of c ]

  -- sum(int(num[i]) * weights[i] for i in range(len(weights))), on the digits from a place on
  unfoldable pub weighted : Text → List ℕ → Result ℕ
  weighted s [] = ok 0
  weighted [] (_ ∷ _) = err index_error
  weighted (c ∷ s) (w ∷ ws) = do d ← int_of c; rest ← weighted s ws; ok (d * w + rest)

  -- the second operand of `and`
  unfoldable pub second_check : ℕ → Text → Result Bool
  unfolding digit_at
  second_check total num = digit_at num 11 >>= (λ second. ok (total % 11 % 10 == second))

  -- `inn_checksum`
  unfoldable pub inn_checksum : Text → Result Bool
  unfolding digits weighted digit_at second_check
  inn_checksum s =
      let num = digits s in
      if length num == 10
      then (do
        total ← weighted num (2 ∷ 4 ∷ 10 ∷ 3 ∷ 5 ∷ 9 ∷ 4 ∷ 6 ∷ 8 ∷ [])
        last ← digit_at num 9
        ok (total % 11 % 10 == last))
      else if length num == 12
      then (do
        total_1 ← weighted num (7 ∷ 2 ∷ 4 ∷ 10 ∷ 3 ∷ 5 ∷ 9 ∷ 4 ∷ 6 ∷ 8 ∷ [])
        total_2 ← weighted num (3 ∷ 7 ∷ 2 ∷ 4 ∷ 10 ∷ 3 ∷ 5 ∷ 9 ∷ 4 ∷ 6 ∷ 8 ∷ [])
        digit_at num 10 >>= λ first.
            if total_1 % 11 % 10 == first then second_check total_2 num else ok false)
      else ok false
