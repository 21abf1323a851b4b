-- ===== src/Detection/Validators/Typos.antt =====
-- The Luhn check finds every wrong digit.
use alfa_hackaton.Prelude.{
  ℕ, ◌+◌, ◌≤◌, ◌%◌, ◌≡◌, ◌≢◌, sym, ap, ◌∙◌, inl, inr, Bool, true, false, not, ◌&&◌, [], ◌∷◌, ◌++◌,
  arith, Text, length, leb, ==_iff, Bool-cases,
}
use alfa_hackaton.Core.Errors.{ok_injective, Result, ok, >>=_ok}
use alfa_hackaton.Detection.Validators.{weight, digits, luhn_total, luhn}
use mathlib.Core.List.{reverse, reverse-cons, reverse-append, append_assoc}

-- Different digits add different amounts modulo ten.
weights_differ :
    (odd : Bool) (d e n : ℕ)
    → d ≤ 9
    → e ≤ 9
    → (weight odd d + n) % 10 ≡ (weight odd e + n) % 10
    → d ≡ e
unfolding weight
weights_differ false d e n p q h = omega arith
weights_differ true d e n p q h = ground arith

false_ne_true : false ≢ true
false_ne_true q = ground arith

reverse-middle :
    (before after : Text) (c : ℕ)
    → reverse (before ++ c ∷ after) ≡ reverse after ++ c ∷ reverse before
reverse-middle before after c =
    reverse-append before (c ∷ after)
    ∙ ap (λ x. x ++ reverse before) (reverse-cons c after)
    ∙ append_assoc (reverse after) (c ∷ []) (reverse before)

module _ (is_digit : ℕ → Bool) (int_of : ℕ → Result ℕ) where
  luhn_total-cons :
      (odd : Bool) (c : ℕ) (s : Text) (m : ℕ)
      → luhn_total is_digit int_of odd (c ∷ s) ≡ ok m
      → (d n : ℕ) × (int_of c ≡ ok d)
        × (luhn_total is_digit int_of (not odd) s ≡ ok n)
        × (weight odd d + n ≡ m)
  unfolding luhn_total
  luhn_total-cons odd c s m h =
      let (d, i, h1) = >>=_ok (int_of c) _ m h in
      let (n, j, h2) = >>=_ok (luhn_total is_digit int_of (not odd) s) _ m h1 in
      (d, n, i, j, ok_injective h2)

  tails_equal : (w n n' : ℕ) → (w + n) % 10 ≡ (w + n') % 10 → n % 10 ≡ n' % 10
  tails_equal w n n' h = omega arith

  luhn_passes :
      (s : Text)
      → luhn is_digit int_of s ≡ ok true
      → (m : ℕ) × (luhn_total is_digit int_of false (reverse (digits is_digit int_of s)) ≡ ok m)
        × (m % 10 ≡ 0)
  unfolding luhn
  luhn_passes s =
      elim (Bool-cases (
        leb 13 (length (digits is_digit int_of s)) && leb (length (digits is_digit int_of s)) 19)) [
          | inr short ↦ simp short (λ h. absurd (false_ne_true (ok_injective h)))
          | inl long ↦ simp long (λ h.
              let (m, total, z) =
                >>=_ok (luhn_total is_digit int_of false (reverse (digits is_digit int_of s))) _
                  true h in
              (m, total, (==_iff (m % 10) 0).0 (ok_injective z)))
        ]

  totals_differ :
      (odd : Bool) (before after : Text) (c c' d d' m m' : ℕ)
      → int_of c ≡ ok d
      → int_of c' ≡ ok d'
      → d ≤ 9
      → d' ≤ 9
      → luhn_total is_digit int_of odd (before ++ c ∷ after) ≡ ok m
      → luhn_total is_digit int_of odd (before ++ c' ∷ after) ≡ ok m'
      → m % 10 ≡ m' % 10
      → d ≡ d'
  unfolding luhn_total
  totals_differ odd [] after c c' d d' m m' i i' p q h h' same =
      let (x, n, xi, ni, e) = luhn_total-cons odd c after m h in
      let (x', n', xi', ni', e') = luhn_total-cons odd c' after m' h' in
      weights_differ odd d d' n p q (
        ap (λ a. (weight odd a + n) % 10) (ok_injective (sym i ∙ xi))
        ∙ ap (λ a. a % 10) e
        ∙ same
        ∙ ap (λ a. a % 10) (sym e')
        ∙ ap (λ a. (weight odd x' + a) % 10) (ok_injective (sym ni' ∙ ni))
        ∙ ap (λ a. (weight odd a + n) % 10) (ok_injective (sym xi' ∙ i')))
  totals_differ odd (b ∷ before) after c c' d d' m m' i i' p q h h' same =
      let (x, n, xi, ni, e) = luhn_total-cons odd b (before ++ c ∷ after) m h in
      let (x', n', xi', ni', e') = luhn_total-cons odd b (before ++ c' ∷ after) m' h' in
      totals_differ (not odd) before after c c' d d' n n' i i' p q ni ni' (
        tails_equal (weight odd x) n n' (
          ap (λ a. a % 10) e
          ∙ same
          ∙ ap (λ a. a % 10) (sym e')
          ∙ ap (λ a. (weight odd a + n') % 10) (ok_injective (sym xi' ∙ xi))))

  -- Of two texts whose digits differ in one place, where `int` reads two different numbers up to
  -- nine, at most one passes the Luhn check.
  pub luhn-typo :
      (s t before after : Text) (c c' d d' : ℕ)
      → digits is_digit int_of s ≡ before ++ c ∷ after
      → digits is_digit int_of t ≡ before ++ c' ∷ after
      → int_of c ≡ ok d
      → int_of c' ≡ ok d'
      → d ≤ 9
      → d' ≤ 9
      → d ≢ d'
      → luhn is_digit int_of s ≡ ok true
      → luhn is_digit int_of t ≢ ok true
  luhn-typo s t before after c c' d d' e e' i i' p q differ h h' =
      let (m, total, zero) = luhn_passes s h in
      let (m', total', zero') = luhn_passes t h' in
      let place = ap reverse e ∙ reverse-middle before after c in
      let place' = ap reverse e' ∙ reverse-middle before after c' in
      differ (
        totals_differ false (reverse after) (reverse before) c c' d d' m m' i i' p q
          (ap (luhn_total is_digit int_of false) (sym place) ∙ total)
          (ap (luhn_total is_digit int_of false) (sym place') ∙ total') (zero ∙ sym zero'))
