-- ===== src/Restoration/Memory/Instance.antt =====
-- app/restoration/memory.py behind the interface of the stores.
use alfa_hackaton.Prelude.{
  ℕ, ◌+◌, ◌≤◌, ◌≡◌, refl, ap, ◌∙◌, ◌⊎◌, inl, inr, Option, none, some, [], arith, Text, text_eq, ltb,
  if◌then◌else◌, Bool-cases, text_eq_iff,
}
use alfa_hackaton.Core.Errors.{Result, ok, err, ◌>>=◌}
use alfa_hackaton.Restoration.State.{RestorationState, to_json}
use alfa_hackaton.Restoration.State.Libraries.{Codec}
use alfa_hackaton.Restoration.Store.{
  Moment, RestorationStore, IsRestorationStore, KeepsPromise, keyed,
}
use alfa_hackaton.Restoration.Memory.{
  MemoryStore, new_store, capacity_exceeded, get, transition, read, after_callback, commit, write,
  delete,
}
use alfa_hackaton.Restoration.Memory.Invariant.{IsValid, IsValid-later}
use alfa_hackaton.Restoration.Memory.Views.{unexpired, decoded, view, decode-encrypt, get_lem}
use alfa_hackaton.Restoration.Memory.Transition.{Stored, transition-Ends, read_config}
use alfa_hackaton.Restoration.Memory.Evicted.{Unchanged, Updated}

module _ (c : Codec) where
  open c use {Token}

  abbrev pub memory_store : RestorationStore
  memory_store = record {
    Store = MemoryStore Token;
    get = get c;
    transition = λ t. transition c t.now t.later t.last t.iv;
  }

  -- The invariant, for a store that was built with a time to live.
  abbrev pub IsValidFor : ℕ → ℕ → MemoryStore Token → Type 0
  IsValidFor ttl now m = IsValid now m × (m.ttl_seconds ≡ ttl)

  pub get_ttl :
      (now : ℕ) (k : Text) (m : MemoryStore Token) → (get c now k m).1.ttl_seconds ≡ m.ttl_seconds
  unfolding get
  get_ttl now k m = ground arith

  after_callback_ttl :
      (now iv : ℕ) (k : Text) (given : Result (Option RestorationState)) (m : MemoryStore Token)
      → (after_callback c now iv k given m).1.ttl_seconds ≡ m.ttl_seconds
  unfolding after_callback commit delete write
  after_callback_ttl now iv k (err e) m = refl
  after_callback_ttl now iv k (ok none) m = refl
  after_callback_ttl now iv k (ok (some s)) m = ground arith

  pub transition_ttl :
      (t : Moment) (k : Text) (fn : Option RestorationState → Result (Option RestorationState))
      (m : MemoryStore Token)
      → (transition c t.now t.later t.last t.iv k fn m).1.ttl_seconds ≡ m.ttl_seconds
  unfolding transition
  transition_ttl t k fn m =
      let (current, m') = read c t.now t.later k m in
      after_callback_ttl t.last t.iv k (current >>= fn) m' ∙ (read_config c t.now t.later k m).1

  pub view_same :
      (from : ℕ) (m m' : MemoryStore Token)
      → Unchanged from m m'
      → (u : ℕ) (j : Text) → from ≤ u
      → view c u j m' ≡ view c u j m
  view_same from m m' same u j p = ap (decoded c j) (same u j p)

  stored_view :
      (u expires_at iv : ℕ) (j k : Text) (s : RestorationState)
      → k ≡ j
      → decoded c j (unexpired u (some (expires_at, c.encrypt iv (to_json c s))))
        ≡ (if ltb u expires_at then ok (some (keyed k s)) else ok none)
  stored_view u expires_at iv j k s e = rw e (elim (Bool-cases (ltb u expires_at)) [
    | inr late ↦ simp late
    | inl early ↦
        simp early
          (ap (λ (x : Result RestorationState). x >>= (λ s. ok (some s))) (decode-encrypt c j iv s))
  ])

  view-Updated :
      (from ttl iv : ℕ) (k : Text) (s : RestorationState) (m m' : MemoryStore Token)
      → Updated from k (some (from + ttl, c.encrypt iv (to_json c s))) m m'
      → (u : ℕ) (j : Text) → from ≤ u
      → view c u j m' ≡ (
          if text_eq k j
          then (if ltb u (from + ttl) then ok (some (keyed k s)) else ok none)
          else view c u j m)
  view-Updated from ttl iv k s m m' same u j p =
      ap (decoded c j) (same u j p) ∙ elim (Bool-cases (text_eq k j)) [
        | inr other ↦ simp other
        | inl own ↦ simp own (stored_view u (from + ttl) iv j k s ((text_eq_iff k j).0 own))
      ]

  abbrev pub Outcomes :
      ℕ
      → Moment
      → Text
      → RestorationState
      → MemoryStore Token
      → Result (Option RestorationState) × MemoryStore Token
      → Type 0
  Outcomes ttl t k s m out =
      ((out.0 ≡ err capacity_exceeded)
          × (view c t.last k m ≡ ok none)
          × ((u : ℕ) (j : Text) → t.last ≤ u → view c u j out.1 ≡ view c u j m)
        ⊎ (out.0 ≡ ok (some s))
          × ((u : ℕ) (j : Text)
              → t.last ≤ u
              → view c u j out.1 ≡ (
                  if text_eq k j
                  then (if ltb u (t.last + ttl) then ok (some (keyed k s)) else ok none)
                  else view c u j m)))

  pub outcomes :
      (ttl : ℕ) (t : Moment) (k : Text) (s : RestorationState) (m : MemoryStore Token)
      (out : Result (Option RestorationState) × MemoryStore Token)
      → m.ttl_seconds ≡ ttl
      → Stored c (some s) t.now t.last t.iv k s m out
      → Outcomes ttl t k s m out
  outcomes ttl t k s m out e (inl (q, gone, full, same)) =
      inl (q, ap (decoded c k) gone, view_same t.last m out.1 same)
  outcomes ttl t k s m out e (inr (q, u)) =
      inr (q, view-Updated t.last ttl t.iv k s m out.1 (rw e at u))

  pub memory_store_laws :
      (ttl : ℕ) → KeepsPromise memory_store ttl capacity_exceeded (IsValidFor ttl) (view c)
  memory_store_laws ttl = record {
    IsValid-later = λ m p v. (IsValid-later m p v.0, v.1);
    get_lem = λ now k m v.
        let (got, valid, same) = get_lem c now k m v.0 in
        (got, (valid, get_ttl now k m ∙ v.1), view_same now m (get c now k m).1 same);
    transition_err = λ t k fn m e clock v given.
        let (valid, ends) =
          transition-Ends c t.now t.later t.last t.iv k fn m clock.first clock.second v.0 in
        let (q, same) = rw given at ends in
        (
          q,
          (valid, transition_ttl t k fn m ∙ v.1),
          view_same t.last m (transition c t.now t.later t.last t.iv k fn m).1 same,
        );
    transition_ok = λ t k fn m s clock v given.
        let (valid, ends) =
          transition-Ends c t.now t.later t.last t.iv k fn m clock.first clock.second v.0 in
        (
          (valid, transition_ttl t k fn m ∙ v.1),
          outcomes ttl t k s m (transition c t.now t.later t.last t.iv k fn m) v.1
              (rw given at ends),
        );
  }

  -- The in-memory store with its invariant and its view, for the clients of the interface.
  unfoldable pub memory_promise : (ttl : ℕ) → IsRestorationStore memory_store ttl capacity_exceeded
  memory_promise ttl = record {
    IsValid = IsValidFor ttl;
    view = view c;
    promise = memory_store_laws ttl;
  }

  -- The new store satisfies the invariant at every time and shows nothing under any key; and where
  -- the invariant holds, the in-memory store keeps the promise of the interface of the stores, with
  -- the decoded entry of a key that has not expired as what a reader sees under it.
  pub memory_store-KeepsPromise :
      (ttl max_entries : ℕ)
      → ((now : ℕ) → IsValidFor ttl now (new_store ttl max_entries))
        × ((now : ℕ) (k : Text) → view c now k (new_store ttl max_entries) ≡ ok none)
        × KeepsPromise memory_store ttl capacity_exceeded (IsValidFor ttl) (view c)
  unfolding new_store alfa_hackaton.Prelude.Dict.lookup
  memory_store-KeepsPromise ttl max_entries = (
    λ now. (
      record { entries = record { distinct = tt; ordered = tt; bounded = tt }; fits = omega arith },
      refl,
    ),
    λ now k. refl,
    memory_store_laws ttl,
  )
