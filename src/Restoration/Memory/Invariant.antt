-- ===== src/Restoration/Memory/Invariant.antt =====
-- The well-formedness of the store, and that every operation keeps it.
use alfa_hackaton.Prelude.{
  ℕ, ◌+◌, ◌≤◌, ◌<◌, ◌≡◌, refl, inl, inr, true, false, none, [], ◌∷◌, ◌++◌, arith, All, Text, length,
  length-append, text_eq, text_eq_iff, ltb, Bool-cases,
}
use alfa_hackaton.Prelude.Dict.{lookup, remove, AreDistinct, lookup-remove, lookup-append}
use alfa_hackaton.Restoration.Memory.{
  Entries, MemoryStore, evict_expired, contains, refresh, has_no_room,
}
use alfa_hackaton.Restoration.Memory.Expiry.{ExpiresInOrder, refresh_lem, removed}

module _ {A : Type 0} where
  -- Distinct keys, in the order of their expiry, and none expires after `bound`.
  pub record IsOrdered (bound : ℕ) (d : Entries A) : Type 0 where
    pub distinct : AreDistinct text_eq d
    pub ordered : ExpiresInOrder d
    pub bounded : All (λ e. e.1.0 ≤ bound) d

  -- The invariant of a store at a time of the clock.
  pub record IsValid (now : ℕ) (m : MemoryStore A) : Type 0 where
    pub entries : IsOrdered (now + m.ttl_seconds) m.entries
    pub fits : length m.entries ≤ m.max_entries

  All-weaken :
      (b b' : ℕ) (d : Entries A) → b ≤ b' → All (λ e. e.1.0 ≤ b) d → All (λ e. e.1.0 ≤ b') d
  All-weaken b b' [] p h = tt
  All-weaken b b' (e ∷ d) p (q, h) = (omega arith, All-weaken b b' d p h)

  -- Time passes.
  pub IsValid-later :
      {now later : ℕ} (m : MemoryStore A) → now ≤ later → IsValid now m → IsValid later m
  IsValid-later {now} {later} m p v = record {
    entries = record {
      distinct = v.entries.distinct;
      ordered = v.entries.ordered;
      bounded =
          All-weaken (now + m.ttl_seconds) (later + m.ttl_seconds) m.entries (omega arith)
            v.entries.bounded;
    };
    fits = v.fits;
  }

  pub IsOrdered-tail :
      (b : ℕ) (k : Text) (v : ℕ × A) (d : Entries A) → IsOrdered b ((k, v) ∷ d) → IsOrdered b d
  IsOrdered-tail b k v d h = record {
    distinct = h.distinct.1;
    ordered = h.ordered.1;
    bounded = h.bounded.1;
  }

  pub IsOrdered-evict_expired :
      (b now : ℕ) (d : Entries A)
      → IsOrdered b d
      → IsOrdered b (evict_expired now d) × (length (evict_expired now d) ≤ length d)
  unfolding evict_expired
  IsOrdered-evict_expired b now [] h = (h, omega arith)
  IsOrdered-evict_expired b now ((k, (t, v)) ∷ d) h =
      let (i, l) = IsOrdered-evict_expired b now d (IsOrdered-tail b k (t, v) d h) in
      elim (Bool-cases (ltb now t)) [
        | inl q ↦ rw q (h, omega arith)
        | inr q ↦ rw q (i, omega arith)
      ]

  All-remove :
      (P : Text × (ℕ × A) → Type 0) (k : Text) (d : Entries A)
      → All P d
      → All P (remove text_eq k d)
  unfolding remove
  All-remove P k [] h = tt
  All-remove P k ((j, v) ∷ d) (p, h) = elim (Bool-cases (text_eq j k)) [
    | inl q ↦ rw q (All-remove P k d h)
    | inr q ↦ rw q (p, All-remove P k d h)
  ]

  distinct-remove :
      (k : Text) (d : Entries A) → AreDistinct text_eq d → AreDistinct text_eq (remove text_eq k d)
  unfolding remove
  distinct-remove k [] h = tt
  distinct-remove k ((j, v) ∷ d) (p, h) = elim (Bool-cases (text_eq j k)) [
    | inl q ↦ rw q (distinct-remove k d h)
    | inr q ↦ rw q (ground (arith, lookup-remove text_eq text_eq_iff k j d), distinct-remove k d h)
  ]

  ordered-remove :
      (k : Text) (d : Entries A) → ExpiresInOrder d → ExpiresInOrder (remove text_eq k d)
  unfolding remove
  ordered-remove k [] h = tt
  ordered-remove k ((j, v) ∷ d) (p, h) = elim (Bool-cases (text_eq j k)) [
    | inl q ↦ rw q (ordered-remove k d h)
    | inr q ↦ rw q (All-remove (λ e. v.0 ≤ e.1.0) k d p, ordered-remove k d h)
  ]

  pub IsOrdered-remove :
      (b : ℕ) (k : Text) (d : Entries A) → IsOrdered b d → IsOrdered b (remove text_eq k d)
  IsOrdered-remove b k d h = record {
    distinct = distinct-remove k d h.distinct;
    ordered = ordered-remove k d h.ordered;
    bounded = All-remove (λ e. e.1.0 ≤ b) k d h.bounded;
  }

  pub length-remove-le : (k : Text) (d : Entries A) → length (remove text_eq k d) ≤ length d
  unfolding remove
  length-remove-le k [] = omega arith
  length-remove-le k ((j, v) ∷ d) = ground (arith, length-remove-le k d)

  length-remove-lt :
      (k : Text) (d : Entries A) → contains k d ≡ true → length (remove text_eq k d) < length d
  unfolding remove contains lookup
  length-remove-lt k [] h = ground arith
  length-remove-lt k ((j, v) ∷ d) h = ground (arith, length-remove-lt k d, length-remove-le k d)

  distinct-last :
      (k : Text) (v : ℕ × A) (d : Entries A)
      → AreDistinct text_eq d
      → lookup text_eq k d ≡ none
      → AreDistinct text_eq (d ++ (k, v) ∷ [])
  unfolding lookup
  distinct-last k v [] h e = (refl, tt)
  distinct-last k v ((j, w) ∷ d) (p, h) e = (
    ground (
      arith,
      lookup-append text_eq text_eq_iff j d ((k, v) ∷ []),
      text_eq_iff j k,
      text_eq_iff k j,
    ),
    distinct-last k v d h (ground arith),
  )

  All-last :
      (P : Text × (ℕ × A) → Type 0) (e : Text × (ℕ × A)) (d : Entries A)
      → All P d
      → P e
      → All P (d ++ e ∷ [])
  All-last P e [] h p = (p, tt)
  All-last P e (f ∷ d) (q, h) p = (q, All-last P e d h p)

  ordered-last :
      (k : Text) (v : ℕ × A) (d : Entries A)
      → ExpiresInOrder d
      → All (λ e. e.1.0 ≤ v.0) d
      → ExpiresInOrder (d ++ (k, v) ∷ [])
  ordered-last k v [] h b = (tt, tt)
  ordered-last k v ((j, w) ∷ d) (p, h) (q, b) =
      (All-last (λ e. w.0 ≤ e.1.0) (k, v) d p q, ordered-last k v d h b)

  pub IsOrdered-refresh :
      (b : ℕ) (k : Text) (v : A) (d : Entries A) → IsOrdered b d → IsOrdered b (refresh k b v d)
  IsOrdered-refresh b k v d h =
      let r = IsOrdered-remove b k d h in
      rw (refresh_lem k b v d) (record {
        distinct = distinct-last k (b, v) (remove text_eq k d) r.distinct (removed k d);
        ordered = ordered-last k (b, v) (remove text_eq k d) r.ordered r.bounded;
        bounded =
            All-last (λ e. e.1.0 ≤ b) (k, (b, v)) (remove text_eq k d) r.bounded (omega arith);
      })

  pub length-refresh :
      (b : ℕ) (k : Text) (v : A) (m : MemoryStore A)
      → has_no_room k m ≡ false
      → length m.entries ≤ m.max_entries
      → length (refresh k b v m.entries) ≤ m.max_entries
  unfolding has_no_room
  length-refresh b k v m h f = rw (refresh_lem k b v m.entries) (
      ground (
        arith,
        length-append (remove text_eq k m.entries) ((k, (b, v)) ∷ []),
        length-remove-lt k m.entries,
        length-remove-le k m.entries,
      ))

  -- The invariant over a store with the entries `d`.
  pub kept :
      (now : ℕ) (m : MemoryStore A) (d : Entries A)
      → IsOrdered (now + m.ttl_seconds) d
      → length d ≤ length m.entries
      → IsValid now m
      → IsValid now (record m { entries = d })
  kept now m d o l v = record { entries = o; fits = omega (arith, v.fits) }
