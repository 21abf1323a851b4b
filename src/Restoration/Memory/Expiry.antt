-- ===== src/Restoration/Memory/Expiry.antt =====
-- Insertion order is expiry order, so eviction from the front removes exactly what has expired.
use alfa_hackaton.Prelude.{
  ℕ, ◌≤◌, ◌<◌, ◌≡◌, refl, sym, ap, inl, inr, none, [], ◌∷◌, ◌++◌, arith, All, Text, text_eq,
  text_eq_iff, text_eq_refl, ltb, if◌then◌else◌, Bool-cases, Option-cases,
}
use alfa_hackaton.Prelude.Dict.{lookup, insert, remove, lookup-remove}
use alfa_hackaton.Restoration.Memory.{Entries, evict_expired, refresh}

module _ {A : Type 0} where
  -- Each entry expires no later than every later one.
  abbrev pub ExpiresInOrder : Entries A → Type 0
  ExpiresInOrder [] = Unit
  ExpiresInOrder ((k, v) ∷ d) = All (λ e. v.0 ≤ e.1.0) d × ExpiresInOrder d

  -- What is live at a time: the reference definition of the eviction.
  abbrev pub live_entries : ℕ → Entries A → Entries A
  live_entries now [] = []
  live_entries now ((k, v) ∷ d) =
      let rest = live_entries now d in if ltb now v.0 then (k, v) ∷ rest else rest

  live_entries-All : (now : ℕ) (d : Entries A) → All (λ e. now < e.1.0) d → live_entries now d ≡ d
  live_entries-All now [] h = refl
  live_entries-All now ((k, v) ∷ d) (p, h) = ground (arith, live_entries-All now d h)

  All-later :
      (now t : ℕ) (d : Entries A) → now < t → All (λ e. t ≤ e.1.0) d → All (λ e. now < e.1.0) d
  All-later now t [] p h = tt
  All-later now t (e ∷ d) p (q, h) = (omega arith, All-later now t d p h)

  -- On entries in the order of their expiry, eviction from the front keeps exactly the live ones.
  pub evict_expired_lem :
      (now : ℕ) (d : Entries A) → ExpiresInOrder d → evict_expired now d ≡ live_entries now d
  unfolding evict_expired
  evict_expired_lem now [] h = refl
  evict_expired_lem now ((k, (t, v)) ∷ d) (p, h) = elim (Bool-cases (ltb now t)) [
    | inl l ↦
        rw l
          (ap (◌∷◌ (k, (t, v))) (sym (live_entries-All now d (All-later now t d (ground arith) p))))
    | inr l ↦ rw l (evict_expired_lem now d h)
  ]

  remove_absent : (k : Text) (d : Entries A) → lookup text_eq k d ≡ none → remove text_eq k d ≡ d
  unfolding lookup remove
  remove_absent k [] h = refl
  remove_absent k ((j, v) ∷ d) h = ground (arith, remove_absent k d)

  insert_absent :
      (k : Text) (v : ℕ × A) (d : Entries A)
      → lookup text_eq k d ≡ none
      → insert text_eq k v d ≡ d ++ (k, v) ∷ []
  unfolding lookup insert
  insert_absent k v [] h = refl
  insert_absent k v ((j, w) ∷ d) h = ground (arith, insert_absent k v d)

  insert_last :
      (k : Text) (v w : ℕ × A) (d : Entries A)
      → lookup text_eq k d ≡ none
      → insert text_eq k v (d ++ (k, w) ∷ []) ≡ d ++ (k, v) ∷ []
  unfolding lookup insert
  insert_last k v w [] h = ground (arith, text_eq_refl k)
  insert_last k v w ((j, u) ∷ d) h = ground (arith, insert_last k v w d)

  pub removed : (k : Text) (d : Entries A) → lookup text_eq k (remove text_eq k d) ≡ none
  removed k d = ground (arith, lookup-remove text_eq text_eq_iff k k d, text_eq_refl k)

  -- A refreshed entry stands at the end, new or not.
  pub refresh_lem :
      (k : Text) (t : ℕ) (v : A) (d : Entries A)
      → refresh k t v d ≡ remove text_eq k d ++ (k, (t, v)) ∷ []
  unfolding refresh
  refresh_lem k t v d = elim (Option-cases (lookup text_eq k d)) [
    | inl new ↦ ground (arith, insert_absent k (t, v) d, remove_absent k d)
    | inr (w, old) ↦ ground (arith, insert_last k (t, v) w (remove text_eq k d), removed k d)
  ]
