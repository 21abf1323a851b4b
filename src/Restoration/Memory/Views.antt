-- ===== src/Restoration/Memory/Views.antt =====
-- What a caller sees of the store: the state under a key at a time, and how the operations change it.
use alfa_hackaton.Prelude.{
  ℕ, ◌+◌, ◌≤◌, ◌≡◌, refl, inl, inr, Option, none, some, [], ◌∷◌, arith, Text, length, text_eq,
  text_eq_iff, ltb, leb, if◌then◌else◌, Bool-cases, Option-cases,
}
use alfa_hackaton.Prelude.Dict.{lookup, remove, AreDistinct, lookup-remove, lookup-append}
use alfa_hackaton.Core.Errors.{Result, ok, ◌>>=◌}
use alfa_hackaton.Restoration.State.{RestorationState, to_json}
use alfa_hackaton.Restoration.State.RoundTrip.{from_json-to_json}
use alfa_hackaton.Restoration.State.Libraries.{Codec}
use alfa_hackaton.Restoration.Memory.{
  Entries, MemoryStore, evict_expired, refresh, decode, check, get,
}
use alfa_hackaton.Restoration.Memory.Expiry.{refresh_lem}
use alfa_hackaton.Restoration.Memory.Invariant.{IsValid, IsOrdered-remove, length-remove-le, kept}

module _ {A : Type 0} where
  -- an entry that has not expired
  abbrev pub unexpired : ℕ → Option (ℕ × A) → Option A
  unexpired now none = none
  unexpired now (some (t, v)) = if ltb now t then some v else none

  -- The token under a key at a time.
  abbrev pub live : ℕ → Text → MemoryStore A → Option A
  live now k m = unexpired now (lookup text_eq k m.entries)

  -- A key behind entries that expire at `t` or later expires at `t` or later.
  pub evicts_only_expired :
      (now t : ℕ) (k : Text) (d : Entries A)
      → AreDistinct text_eq d
      → now ≤ t
      → unexpired t (lookup text_eq k (evict_expired now d)) ≡ unexpired t (lookup text_eq k d)
  unfolding evict_expired lookup
  evicts_only_expired now t k [] h p = refl
  evicts_only_expired now t k ((j, (x, v)) ∷ d) (a, h) p =
      ground (arith, evicts_only_expired now t k d h p, text_eq_iff j k)

  pub lookup-refresh :
      (k j : Text) (t : ℕ) (v : A) (d : Entries A)
      → lookup text_eq j (refresh k t v d)
        ≡ (if text_eq k j then some (t, v) else lookup text_eq j d)
  unfolding lookup
  lookup-refresh k j t v d = rw (refresh_lem k t v d) (
      ground (
        arith,
        lookup-append text_eq text_eq_iff j (remove text_eq k d) ((k, (t, v)) ∷ []),
        lookup-remove text_eq text_eq_iff k j d,
      ))

module _ (c : Codec) where
  open c use {Token}

  -- The state under a key at a time; the error of a token that cannot be read.
  abbrev pub decoded : Text → Option Token → Result (Option RestorationState)
  decoded k none = ok none
  decoded k (some token) = decode c k token >>= (λ s. ok (some s))

  abbrev pub view : ℕ → Text → MemoryStore Token → Result (Option RestorationState)
  view now k m = decoded k (live now k m)

  -- What is written can be read.
  pub decode-encrypt :
      (k : Text) (iv : ℕ) (s : RestorationState)
      → decode c k (c.encrypt iv (to_json c s)) ≡ ok (record s { payload_id = k })
  unfolding decode
  decode-encrypt k iv s = rw (c.decrypt-encrypt iv (to_json c s), decode) (from_json-to_json c k s)

  -- `get` returns the state under the key at the time of the call, keeps the invariant, and changes
  -- no live entry of any key from then on.
  pub get_lem :
      (now : ℕ) (k : Text) (m : MemoryStore Token)
      → IsValid now m
      → ((get c now k m).0 ≡ view now k m)
        × IsValid now (get c now k m).1
        × ((t : ℕ) (j : Text) → now ≤ t → live t j (get c now k m).1 ≡ live t j m)
  unfolding get
  get_lem now k m v = elim (Option-cases (lookup text_eq k m.entries)) [
    | inl new ↦ rw (new, get) (refl, v, λ t j p. refl)
    | inr ((x, token), old) ↦ elim (Bool-cases (leb x now)) [
      | inl late ↦
          rw (old, get)
            (rw late (
              ground arith,
              kept now m _ (IsOrdered-remove (now + m.ttl_seconds) k m.entries v.entries)
                  (length-remove-le k m.entries) v,
              λ t j p.
                  ground (arith, lookup-remove text_eq text_eq_iff k j m.entries, text_eq_iff k j),
            ))
      | inr early ↦ rw (old, get) (rw early (ground arith, v, λ t j p. refl))
    ]
  ]

  -- The lookup of `transition` is that of `get`.
  pub check-eq-get : (now : ℕ) (k : Text) (m : MemoryStore Token) → check c now k m ≡ get c now k m
  unfolding check get
  check-eq-get now k m = ground arith

  pub length-get-le :
      (now : ℕ) (k : Text) (m : MemoryStore Token)
      → length (get c now k m).1.entries ≤ length m.entries
  unfolding get
  length-get-le now k m = ground (arith, length-remove-le k m.entries)
