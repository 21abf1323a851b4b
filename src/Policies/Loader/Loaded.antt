-- ===== src/Policies/Loader/Loaded.antt =====
-- `get_policy` against the files that were loaded.
use alfa_hackaton.Prelude.{
  some_injective, ◌≡◌, ◌≢◌, ◌↔◌, ◌++◌, codes, refl, sym, ap, ◌∙◌, inl, inr, true, false, none, some,
  Option, List, [], ◌∷◌, arith, Text, text_eq, text_eq_iff, text_eq_refl, if◌then◌else◌, Bool-cases,
}
use alfa_hackaton.Prelude.Dict.{lookup, insert, AreDistinct, lookup-insert}
use alfa_hackaton.Core.Errors.{ok_injective, Error, ok, err, >>=_ok, consumer_not_allowed}
use alfa_hackaton.Core.Yaml.{Yaml, Fields}
use alfa_hackaton.Policies.{ConsumerPolicy}
use alfa_hackaton.Policies.Loader.{load_file, load_all, get_policy, policy_of, as_mapping, or_empty}

policy_of-consumer_id :
    (stem : Text) (raw : Fields) (p : ConsumerPolicy)
    → policy_of stem raw ≡ ok p
    → p.consumer_id ≡ stem
unfolding policy_of
policy_of-consumer_id stem raw p h = ground arith

load_file-consumer_id :
    (stem : Text) (v : Yaml) (p : ConsumerPolicy) → load_file stem v ≡ ok p → p.consumer_id ≡ stem
unfolding load_file
load_file-consumer_id stem v p h =
    let (raw, _, h1) = >>=_ok (as_mapping (or_empty v)) (policy_of stem) p h in
    policy_of-consumer_id stem raw p h1

-- What the policies hold of an id, by the file of its name.
abbrev pub Holds :
    Text → Option Yaml → List (Text × ConsumerPolicy) → List (Text × ConsumerPolicy) → Type 0
Holds c none before after = lookup text_eq c after ≡ lookup text_eq c before
Holds c (some v) before after =
    (p : ConsumerPolicy) × (load_file c v ≡ ok p) × (lookup text_eq c after ≡ some p)

lookup-other :
    (c k : Text) (p : ConsumerPolicy) (before : List (Text × ConsumerPolicy))
    → text_eq k c ≡ false
    → lookup text_eq c (insert text_eq k p before) ≡ lookup text_eq c before
lookup-other c k p before h = ground (arith, lookup-insert text_eq text_eq_iff k c p before)

Holds-other :
    (c k : Text) (p : ConsumerPolicy) (o : Option Yaml)
    (before after : List (Text × ConsumerPolicy))
    → text_eq k c ≡ false
    → Holds c o (insert text_eq k p before) after
    → Holds c o before after
Holds-other c k p none before after h q = q ∙ lookup-other c k p before h
Holds-other c k p (some v) before after h q = q

Holds-own :
    (c : Text) (v : Yaml) (p : ConsumerPolicy) (o : Option Yaml)
    (before after : List (Text × ConsumerPolicy))
    → load_file c v ≡ ok p
    → o ≡ none
    → Holds c o (insert text_eq c p before) after
    → Holds c (some v) before after
Holds-own c v p none before after loaded e q =
    (p, loaded, q ∙ ground (arith, lookup-insert text_eq text_eq_iff c c p before, text_eq_refl c))
Holds-own c v p (some w) before after loaded e q = absurd (ground arith)

Holds-cons :
    (c stem : Text) (v : Yaml) (p : ConsumerPolicy) (files : List (Text × Yaml))
    (before after : List (Text × ConsumerPolicy))
    → load_file stem v ≡ ok p
    → p.consumer_id ≡ stem
    → lookup text_eq stem files ≡ none
    → Holds c (lookup text_eq c files) (insert text_eq p.consumer_id p before) after
    → Holds c (if text_eq stem c then some v else lookup text_eq c files) before after
Holds-cons c stem v p files before after loaded own new rest = elim (Bool-cases (text_eq stem c)) [
  | inl same ↦
      let e = (text_eq_iff stem c).0 same in
      simp same (
        Holds-own c v p (lookup text_eq c files) before after (simp e at loaded) (simp e at new)
          (simp (own, e) at rest))
  | inr other ↦ simp other (
      Holds-other c p.consumer_id p (lookup text_eq c files) before after
        (ap (λ k. text_eq k c) own ∙ other) rest)
]

load_all-Holds :
    (c : Text) (files : List (Text × Yaml)) (before after : List (Text × ConsumerPolicy))
    → AreDistinct text_eq files
    → load_all files before ≡ ok after
    → Holds c (lookup text_eq c files) before after
unfolding load_all lookup
load_all-Holds c [] before after d h = ap (lookup text_eq c) (sym (ok_injective h))
load_all-Holds c ((stem, v) ∷ files) before after (new, d) h =
    let (p, loaded, h') = >>=_ok (load_file stem v) _ after h in
    Holds-cons c stem v p files before after loaded (load_file-consumer_id stem v p loaded) new
      (load_all-Holds c files (insert text_eq p.consumer_id p before) after d h')

refuses : Text → Error
refuses c = consumer_not_allowed (codes "consumer not allowed: " ++ c)

get_policy-some :
    (c : Text) (policies : List (Text × ConsumerPolicy)) (q : ConsumerPolicy)
    → lookup text_eq c policies ≡ some q
    → get_policy c policies ≡ (if q.enabled then ok q else err (refuses c))
unfolding get_policy refuses
get_policy-some c policies q h = rw (h, get_policy) refl

get_policy-none :
    (c : Text) (policies : List (Text × ConsumerPolicy))
    → lookup text_eq c policies ≡ none
    → get_policy c policies ≡ err (refuses c)
unfolding get_policy refuses
get_policy-none c policies h = rw (h, get_policy) refl

err_ne_ok : {A : Type 0} {e : Error} {a : A} → err e ≢ ok a
err_ne_ok q = ground arith

to_enabled :
    (q p : ConsumerPolicy) (e : Error)
    → (if q.enabled then ok q else err e) ≡ ok p
    → (q ≡ p) × (p.enabled ≡ true)
to_enabled q p e = elim (Bool-cases q.enabled) [
  | inr off ↦ simp off (λ h. absurd (err_ne_ok h))
  | inl on ↦
      simp on
        (λ h. (ok_injective h, ap (λ (x : ConsumerPolicy). x.enabled) (sym (ok_injective h)) ∙ on))
]

enabled_iff :
    (q p : ConsumerPolicy) (e : Error)
    → ((if q.enabled then ok q else err e) ≡ ok p) ↔ ((q ≡ p) × (p.enabled ≡ true))
enabled_iff q p e = (to_enabled q p e, λ (same, on). rw same (simp on))

get_policy_found :
    (c : Text) (o : Option Yaml) (policies : List (Text × ConsumerPolicy)) (p : ConsumerPolicy)
    → Holds c o [] policies
    → (get_policy c policies ≡ ok p)
      ↔ ((v : Yaml) × (o ≡ some v) × (load_file c v ≡ ok p) × (p.enabled ≡ true))
unfolding lookup
get_policy_found c none policies p h = (
  λ e. absurd (err_ne_ok (sym (get_policy-none c policies h) ∙ e)),
  λ (v, e, _, _). absurd (ground arith),
)
get_policy_found c (some v) policies p (q, loaded, found) = (
  λ e.
      let (same, on) =
        (enabled_iff q p (refuses c)).0 (sym (get_policy-some c policies q found) ∙ e) in
      (v, refl, loaded ∙ ap ok same, on),
  λ (w, e, loaded', on).
      let same = ok_injective (sym loaded ∙ ap (load_file c) (some_injective e) ∙ loaded') in
      get_policy-some c policies q found ∙ (enabled_iff q p (refuses c)).1 (same, on),
)

-- After all files are loaded, each with its own name, a consumer has a policy exactly when there is
-- a file of its name, and the policy is what the file says and is enabled. Every other consumer is
-- not allowed.
pub get_policy-load_all :
    (c : Text) (files : List (Text × Yaml)) (policies : List (Text × ConsumerPolicy))
    (p : ConsumerPolicy)
    → AreDistinct text_eq files
    → load_all files [] ≡ ok policies
    → (get_policy c policies ≡ ok p) ↔ (
        (v : Yaml) × (lookup text_eq c files ≡ some v)
        × (load_file c v ≡ ok p)
        × (p.enabled ≡ true))
get_policy-load_all c files policies p d h =
    get_policy_found c (lookup text_eq c files) policies p (load_all-Holds c files [] policies d h)
