-- ===== src/Score/Common.antt =====
-- Two dictionaries have as many of their keys in the other.
use alfa_hackaton.Prelude.{
  ℕ, ◌+◌, ◌≡◌, ◌↔◌, refl, Bool, true, false, ◌&&◌, none, some, List, [], ◌∷◌, arith,
}
use alfa_hackaton.Prelude.Dict.{lookup, AreDistinct}

abbrev pub one : Bool → ℕ
one true = 1
one false = 0

module _ {K V : Type 0} (eq : K → K → Bool) where
  abbrev pub has : K → List (K × V) → Bool
  has k d = elim (lookup eq k d) [ none ↦ false | some v ↦ true ]

  -- the number of entries whose key passes a test
  unfoldable pub count : (K → Bool) → List (K × V) → ℕ
  count p [] = 0
  count p ((k, v) ∷ d) = one (p k) + count p d

  module _ (eq_iff : (a b : K) → (eq a b ≡ true) ↔ (a ≡ b)) (p : K → Bool) where
    count-none : (e : List (K × V)) → count (λ j. p j && has j []) e ≡ 0
    unfolding count lookup
    count-none [] = refl
    count-none ((j, w) ∷ e) = ground (arith, count-none e)

    count-own :
        (k : K) (v : V) (d e : List (K × V))
        → lookup eq k d ≡ none
        → AreDistinct eq e
        → count (λ j. p j && has j ((k, v) ∷ d)) e
          ≡ one (p k && has k e) + count (λ j. p j && has j d) e
    unfolding count lookup
    count-own k v d [] h distinct = ground arith
    count-own k v d ((j, w) ∷ e) h (fresh, distinct) =
        ground (arith, eq_iff k j, eq_iff j k, h, fresh, count-own k v d e h distinct)

    pub count-swap :
        (d e : List (K × V))
        → AreDistinct eq d
        → AreDistinct eq e
        → count (λ j. p j && has j e) d ≡ count (λ j. p j && has j d) e
    unfolding count
    count-swap [] e distinct distinct' = omega (arith, count-none e)
    count-swap ((k, v) ∷ d) e (fresh, distinct) distinct' =
        omega (arith, count-own k v d e fresh distinct', count-swap d e distinct distinct')
