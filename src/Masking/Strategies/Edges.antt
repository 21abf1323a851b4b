-- ===== src/Masking/Strategies/Edges.antt =====
-- The mask that shows the first and the last two digits.
use alfa_hackaton.Prelude.{
  ℕ, zero, suc, ◌+◌, ◌-◌, ◌≤◌, ◌<◌, ◌≡◌, refl, ap, ◌∙◌, inl, inr, Bool, false, ◌||◌, none, some, [],
  ◌∷◌, ◌++◌, arith, All, Text, length, get_elem?, drop, take, ltb, leb, if◌then◌else◌, Bool-cases,
}
use native.Mathlib.Numerals.{add-one}
use alfa_hackaton.Core.Errors.{ok, err, index_error}
use alfa_hackaton.Masking.Chars.{CharClass, star}
use alfa_hackaton.Masking.Strategies.{
  find_all, edges_from, mask_numeric_edges, mask_digits, substitute,
}
use alfa_hackaton.Masking.Strategies.Hiding.{length-substitute}

-- Of the digits from the `i`-th on, those among the first two and the last two of `n`.
abbrev pub edge_digits : ℕ → ℕ → Text → Text
edge_digits n i [] = []
edge_digits n i (d ∷ ds) =
    let rest = edge_digits n (i + 1) ds in if ltb i 2 || leb (n - 2) i then d ∷ rest else rest

-- The text with every decimal digit starred that is not among the first two and the last two.
abbrev pub show_edges : (ℕ → Bool) → ℕ → ℕ → Text → Text
show_edges p n i [] = []
show_edges p n i (c ∷ s) =
    (if p c then (if ltb i 2 || leb (n - 2) i then c else star) else c)
    ∷ show_edges p n (if p c then i + 1 else i) s

last_edge :
    (n i k : ℕ) (ds : Text)
    → 2 ≤ i
    → i + length ds ≡ n
    → n - 2 - i ≡ k
    → edge_digits n i ds ≡ drop k ds
last_edge n i zero [] p e f = refl
last_edge n i (suc k) [] p e f = refl
last_edge n i zero (d ∷ ds) p e f = ground (arith, last_edge n (i + 1) 0 ds)
last_edge n i (suc k) (d ∷ ds) p e f = ground (arith, last_edge n (i + 1) k ds)

-- The first two and the last two.
all_edges :
    (n : ℕ) (ds : Text) → 4 < n → length ds ≡ n → edge_digits n 0 ds ≡ take 2 ds ++ drop (n - 2) ds
all_edges n [] p e = absurd (omega arith)
all_edges n (a ∷ []) p e = absurd (omega arith)
all_edges n (a ∷ b ∷ ds) p e =
    let k : n - 2 ≡ suc (suc (n - 4)) = omega arith in ground (arith, k, last_edge n 2 (n - 4) ds)

get_elem?_past : (xs : Text) (i : ℕ) → length xs ≤ i → get_elem? xs i ≡ none
get_elem?_past [] i h = refl
get_elem?_past (x ∷ xs) zero h = absurd (omega arith)
get_elem?_past (x ∷ xs) (suc i) h = get_elem?_past xs i (omega arith)

drop_step :
    (i : ℕ) (xs : Text) (c : ℕ) (r : Text)
    → drop i xs ≡ c ∷ r
    → (get_elem? xs i ≡ some c) × (drop (suc i) xs ≡ r)
drop_step zero [] c r h = ground arith
drop_step zero (x ∷ xs) c r h = (ground arith, ground arith)
drop_step (suc i) [] c r h = ground arith
drop_step (suc i) (x ∷ xs) c r h = drop_step i xs c r h

module _ (p : ℕ → Bool) (not_star : p star ≡ false) where
  find_all-show_edges :
      (n i : ℕ) (s : Text) → find_all p (show_edges p n i s) ≡ edge_digits n i (find_all p s)
  unfolding find_all
  find_all-show_edges n i [] = refl
  find_all-show_edges n i (c ∷ s) =
      ground (arith, find_all-show_edges n (i + 1) s, find_all-show_edges n i s)

  length-show_edges : (n i : ℕ) (s : Text) → length (show_edges p n i s) ≡ length s
  length-show_edges n i [] = refl
  length-show_edges n i (c ∷ s) = ap suc (length-show_edges n (if p c then i + 1 else i) s)

module _ (chars : CharClass) where
  -- A digit of the value past its decimal ones has no entry in the list of decimal digits.
  edges_from-raises :
      (digits : Text) (i : ℕ) (s : Text)
      → i ≤ length digits
      → length digits < i + length (find_all chars.is_digit s)
      → edges_from chars digits i s ≡ err index_error
  unfolding edges_from find_all
  edges_from-raises digits i [] p q = absurd (omega arith)
  edges_from-raises digits i (c ∷ s) p q = ground (
    arith,
    edges_from-raises digits (i + 1) s,
    edges_from-raises digits i s,
    get_elem?_past digits i,
  )

  -- Where the two classes agree, the loop finds each digit at its own place.
  edges_from-show_edges :
      (digits : Text) (i : ℕ) (s : Text)
      → All (λ c. chars.is_digit c ≡ chars.is_decimal c) s
      → drop i digits ≡ find_all chars.is_decimal s
      → edges_from chars digits i s ≡ ok (show_edges chars.is_decimal (length digits) i s)
  unfolding edges_from find_all
  edges_from-show_edges digits i [] h e = refl
  edges_from-show_edges digits i (c ∷ s) (a, h) e = elim (Bool-cases (chars.is_decimal c)) [
    | inl d ↦
        let (got, rest) = drop_step i digits c (find_all chars.is_decimal s) (ground arith) in
        ground (arith, edges_from-show_edges digits (i + 1) s h (rw (add-one i) rest))
    | inr d ↦ ground (arith, edges_from-show_edges digits i s h)
  ]

  -- The digits that a masked text shows.
  abbrev pub shown : Text → Text
  shown = find_all chars.is_decimal

  substitute-shows_none :
      (s : Text) → chars.is_decimal star ≡ false → shown (mask_digits chars s) ≡ []
  unfolding mask_digits find_all substitute
  substitute-shows_none [] h = refl
  substitute-shows_none (c ∷ s) h = ground (arith, substitute-shows_none s h)

  star_not_decimal : chars.is_decimal star ≡ false
  star_not_decimal = ground (arith, chars.star_not_digit, chars.decimal_digit star)

  -- On a value whose digits are all decimal, the edge mask returns a text of the same length. With
  -- more than four digits it shows the first two and the last two of them, in their order, and with
  -- four or fewer it shows none.
  pub mask_numeric_edges-shown :
      (v : Text)
      → All (λ c. chars.is_digit c ≡ chars.is_decimal c) v
      → (r : Text) × (mask_numeric_edges chars v ≡ ok r)
        × (length r ≡ length v)
        × (shown r ≡ (
            if leb (length (shown v)) 4
            then []
            else take 2 (shown v) ++ drop (length (shown v) - 2) (shown v)))
  unfolding mask_numeric_edges
  mask_numeric_edges-shown v h =
      let n = length (shown v) in
      elim (Bool-cases (leb n 4)) [
        | inl few ↦ (
          mask_digits chars v,
          rw few,
          length-substitute chars.is_decimal v,
          rw few (substitute-shows_none v star_not_decimal),
        )
        | inr many ↦ (
          show_edges chars.is_decimal n 0 v,
          rw many (edges_from-show_edges (shown v) 0 v h refl),
          length-show_edges chars.is_decimal star_not_decimal n 0 v,
          rw many (
              find_all-show_edges chars.is_decimal star_not_decimal n 0 v
              ∙ all_edges n (shown v) (ground arith) refl),
        )
      ]

  -- A value with more than four decimal digits, and with a digit that is not decimal beside them,
  -- has no edge mask: the loop reads past the list of decimal digits.
  pub mask_numeric_edges-raises :
      (v : Text)
      → 4 < length (shown v)
      → length (shown v) < length (find_all chars.is_digit v)
      → mask_numeric_edges chars v ≡ err index_error
  unfolding mask_numeric_edges
  mask_numeric_edges-raises v p q = elim (Bool-cases (leb (length (shown v)) 4)) [
    | inl few ↦ absurd (ground arith)
    | inr many ↦ rw many (edges_from-raises (shown v) 0 v (omega arith) (omega arith))
  ]
