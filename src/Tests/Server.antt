-- ===== src/Tests/Server.antt =====
-- A server of Redis for the tests: each key with its token and the end of its time.
use alfa_hackaton.Prelude.{
  ℕ, ◌+◌, ◌≤◌, ◌≡◌, ◌⊎◌, inl, inr, Bool-cases, refl, sym, ap, ◌∙◌, Bool, true, false, not, ◌&&◌,
  Option, none, some, List, Text, text_eq, text_eq_iff, ltb, ◌==◌, arith, if◌then◌else◌,
}
use alfa_hackaton.Prelude.Dict.{lookup, insert, remove, lookup-insert, lookup-remove}
use alfa_hackaton.Restoration.Redis.{Redis}
use alfa_hackaton.Tests.World.{codec}
use alfa_hackaton.Tests.YamlEq.{yaml_eq, yaml_eq_sound, yaml_eq_refl}

abbrev pub Db : Type 0
Db = List (Text × (codec.Token × ℕ))

abbrev pub live : ℕ → Option (codec.Token × ℕ) → Option codec.Token
live t none = none
live t (some (v, expires)) = if ltb t expires then some v else none

abbrev pub same_entry : Option (codec.Token × ℕ) → Option (codec.Token × ℕ) → Bool
same_entry none none = true
same_entry (some ((i, v), m)) (some ((j, w), n)) = i == j && (yaml_eq v w && m == n)
same_entry _ _ = false

same_entry_sound : (x y : Option (codec.Token × ℕ)) → same_entry x y ≡ true → x ≡ y
same_entry_sound none none h = refl
same_entry_sound none (some y) h = absurd (ground arith)
same_entry_sound (some x) none h = absurd (ground arith)
same_entry_sound (some ((i, v), m)) (some ((j, w), n)) h = ground (arith, yaml_eq_sound v w)

pub same_entry_refl : (x : Option (codec.Token × ℕ)) → same_entry x x ≡ true
same_entry_refl none = refl
same_entry_refl (some ((i, v), m)) = ground (arith, yaml_eq_refl v)

abbrev pub get : ℕ → Text → Db → Option codec.Token
get t k d = live t (lookup text_eq k d)

pub live_if :
    (b : Bool) (t : ℕ) (x y : Option (codec.Token × ℕ))
    → live t (if b then x else y) ≡ (if b then live t x else live t y)
live_if true t x y = refl
live_if false t x y = refl

pub untouched :
    (t : ℕ) (x y : Option (codec.Token × ℕ)) → not (same_entry x y) ≡ false → live t y ≡ live t x
untouched t x y h = ap (live t) (sym (same_entry_sound x y (ground arith)))

pub live_later :
    (t u : ℕ) (x : Option (codec.Token × ℕ)) → t ≤ u → (live u x ≡ live t x) ⊎ (live u x ≡ none)
live_later t u none p = inl refl
live_later t u (some (v, expires)) p = elim (Bool-cases (ltb u expires)) [
  | inr late ↦ simp late (inr refl)
  | inl early ↦ inl (ground arith)
]

abbrev pub server : Redis codec.Token
server = record {
  Db = Db;
  get = get;
  set = λ now k v ex d. insert text_eq k (v, now + ex) d;
  delete = λ k d. remove text_eq k d;
  is_touched = λ k d e. not (same_entry (lookup text_eq k d) (lookup text_eq k e));
  get-set = λ now t ex k j v d p.
      ap (live t) (lookup-insert text_eq text_eq_iff k j (v, now + ex) d)
      ∙ live_if (text_eq k j) t (some (v, now + ex)) (lookup text_eq j d);
  get-delete = λ t k j d.
      ap (live t) (lookup-remove text_eq text_eq_iff k j d)
      ∙ live_if (text_eq k j) t none (lookup text_eq j d);
  get-untouched = λ t k d e h. untouched t (lookup text_eq k d) (lookup text_eq k e) h;
  get-later = λ t u k d p. live_later t u (lookup text_eq k d) p;
  untouched_self = λ k d. ap not (same_entry_refl (lookup text_eq k d));
}
