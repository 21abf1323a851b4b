-- ===== src/Prelude/Dict.antt =====
-- Python's `dict` and `OrderedDict` as association lists in insertion order.
use mathlib.Core.Bool.{Bool, true}
use mathlib.Core.List.{List, [], ◌∷◌, ◌++◌}
use mathlib.Core.Logic.{◌↔◌}
use mathlib.Core.Option.{Option, none, some}
use mathlib.Core.Path.{◌≡◌, refl}
use native.Mathlib.Omega.{arith}
use alfa_hackaton.Prelude.Tests.{if◌then◌else◌}

module _ {ℓ κ} {K : Type ℓ} {V : Type κ} (eq : K → K → Bool) where
  -- d.get(k)
  unfoldable pub lookup : K → List (K × V) → Option V
  lookup k [] = none
  lookup k ((j, v) ∷ d) = if eq j k then some v else lookup k d

  -- d[k] = v: a key that is present keeps its place
  unfoldable pub insert : K → V → List (K × V) → List (K × V)
  insert k v [] = (k, v) ∷ []
  insert k v ((j, w) ∷ d) = if eq j k then (j, v) ∷ d else (j, w) ∷ insert k v d

  -- d.pop(k, None)
  unfoldable pub remove : K → List (K × V) → List (K × V)
  remove k [] = []
  remove k ((j, v) ∷ d) = let rest = remove k d in if eq j k then rest else (j, v) ∷ rest

  -- No key stands twice.
  abbrev pub AreDistinct : List (K × V) → Type κ
  AreDistinct [] = Unit
  AreDistinct ((k, v) ∷ d) = (lookup k d ≡ none) × AreDistinct d

module _ {ℓ κ} {K : Type ℓ} {V : Type κ} (eq : K → K → Bool)
    (eq_iff : (a b : K) → (eq a b ≡ true) ↔ (a ≡ b)) where
  pub lookup-insert :
      (k j : K) (v : V) (d : List (K × V))
      → lookup eq j (insert eq k v d) ≡ (if eq k j then some v else lookup eq j d)
  unfolding lookup insert
  lookup-insert k j v [] = refl
  lookup-insert k j v ((i, w) ∷ d) =
      ground (arith, eq_iff k j, eq_iff i k, eq_iff i j, lookup-insert k j v d)

  pub lookup-remove :
      (k j : K) (d : List (K × V))
      → lookup eq j (remove eq k d) ≡ (if eq k j then none else lookup eq j d)
  unfolding lookup remove
  lookup-remove k j [] = ground arith
  lookup-remove k j ((i, w) ∷ d) =
      ground (arith, eq_iff k j, eq_iff i k, eq_iff i j, lookup-remove k j d)

  pub lookup-append :
      (j : K) (d e : List (K × V))
      → lookup eq j (d ++ e) ≡ elim (lookup eq j d) [ none ↦ lookup eq j e | some v ↦ some v ]
  unfolding lookup
  lookup-append j [] e = refl
  lookup-append j ((i, w) ∷ d) e = ground (arith, lookup-append j d e)
