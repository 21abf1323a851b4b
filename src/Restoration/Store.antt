-- ===== src/Restoration/Store.antt =====
-- app/restoration/base.py: the interface of the stores, and what it promises.
use alfa_hackaton.Prelude.{
  ℕ, ◌+◌, ◌≤◌, ◌≡◌, ◌⊎◌, Option, none, some, Text, text_eq, ltb, if◌then◌else◌,
}
use alfa_hackaton.Core.Errors.{Error, Result, ok, err, ◌>>=◌}
use alfa_hackaton.Restoration.State.{RestorationState}

-- The readings of the clock in one call of `transition`, in their order, and its random number.
pub record Moment : Type 0 where
  pub now : ℕ
  pub later : ℕ
  pub last : ℕ
  pub iv : ℕ

-- The readings do not go back.
pub record IsMoment (t : Moment) : Type 0 where
  pub first : t.now ≤ t.later
  pub second : t.later ≤ t.last

-- The abstract methods that the service calls.
pub record RestorationStore : Type 1 where
  pub Store : Type 0
  pub get : ℕ → Text → Store → Result (Option RestorationState) × Store
  pub transition :
      Moment
      → Text
      → (Option RestorationState → Result (Option RestorationState))
      → Store
      → Result (Option RestorationState) × Store

-- A state as it is read under its key.
abbrev pub keyed : Text → RestorationState → RestorationState
keyed k s = record s { payload_id = k }

-- The promise of a store, where `IsValid` is an invariant at a time, and `view` what a reader sees
-- under a key at a time.
pub record KeepsPromise (r : RestorationStore) (ttl : ℕ) (refusal : Error)
    (IsValid : ℕ → r.Store → Type 0) (view : ℕ → Text → r.Store → Result (Option RestorationState))
    : Type 0 where
  pub IsValid-later : {now later : ℕ} (m : r.Store) → now ≤ later → IsValid now m → IsValid later m
  pub get_lem :
      (now : ℕ) (k : Text) (m : r.Store)
      → IsValid now m
      → ((r.get now k m).0 ≡ view now k m)
        × IsValid now (r.get now k m).1
        × ((t : ℕ) (j : Text) → now ≤ t → view t j (r.get now k m).1 ≡ view t j m)
  -- The callback is given the view. An error that it raises is passed on and nothing changes. A
  -- state that it gives is stored and returned, and is seen until its time is over; or it is
  -- refused, which happens only where the key has no state, and nothing changes.
  pub transition_err :
      (t : Moment) (k : Text) (fn : Option RestorationState → Result (Option RestorationState))
      (m : r.Store) (e : Error)
      → IsMoment t
      → IsValid t.now m
      → (view t.later k m >>= fn) ≡ err e
      → ((r.transition t k fn m).0 ≡ err e)
        × IsValid t.last (r.transition t k fn m).1
        × ((u : ℕ) (j : Text) → t.last ≤ u → view u j (r.transition t k fn m).1 ≡ view u j m)
  pub transition_ok :
      (t : Moment) (k : Text) (fn : Option RestorationState → Result (Option RestorationState))
      (m : r.Store) (s : RestorationState)
      → IsMoment t
      → IsValid t.now m
      → (view t.later k m >>= fn) ≡ ok (some s)
      → IsValid t.last (r.transition t k fn m).1
        × (((r.transition t k fn m).0 ≡ err refusal)
              × (view t.last k m ≡ ok none)
              × ((u : ℕ) (j : Text) → t.last ≤ u → view u j (r.transition t k fn m).1 ≡ view u j m)
            ⊎ ((r.transition t k fn m).0 ≡ ok (some s))
              × ((u : ℕ) (j : Text)
                  → t.last ≤ u
                  → view u j (r.transition t k fn m).1 ≡ (
                      if text_eq k j
                      then (if ltb u (t.last + ttl) then ok (some (keyed k s)) else ok none)
                      else view u j m)))

-- A store with an invariant and a view that keep the promise, as its clients take it.
pub record IsRestorationStore (r : RestorationStore) (ttl : ℕ) (refusal : Error) : Type 1 where
  pub IsValid : ℕ → r.Store → Type 0
  pub view : ℕ → Text → r.Store → Result (Option RestorationState)
  pub promise : KeepsPromise r ttl refusal IsValid view
