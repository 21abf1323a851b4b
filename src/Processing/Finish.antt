-- ===== src/Processing/Finish.antt =====
-- How `process` ends once it calls `transition`, over any store that keeps the promise.
use alfa_hackaton.Prelude.{
  ℕ, ◌+◌, ◌≤◌, ◌≡◌, ◌⊎◌, inl, inr, refl, ap, Option, none, some, Text, text_eq, ltb, if◌then◌else◌,
}
use alfa_hackaton.Core.Errors.{Error, Result, ok, err, ◌>>=◌}
use alfa_hackaton.Policies.{ConsumerPolicy}
use alfa_hackaton.Restoration.State.{RestorationState}
use alfa_hackaton.Restoration.Store.{Moment, IsMoment, RestorationStore, IsRestorationStore, keyed}
use alfa_hackaton.Processing.{
  Environment, Draw, ProcessOutcome, callback, finish, transition_state, outcome_from_state,
}

module _ {r : RestorationStore} {ttl : ℕ} {refusal : Error}
    (h : IsRestorationStore r ttl refusal) where
  -- From a time on both stores show the same under every key.
  abbrev pub ShowsSame : ℕ → r.Store → r.Store → Type 0
  ShowsSame from m m' = (u : ℕ) (j : Text) → from ≤ u → h.view u j m' ≡ h.view u j m

  -- From a time on the second store shows a state under the key for its time to live, and what the
  -- first shows under every other key.
  abbrev pub ShowsStored : ℕ → Text → RestorationState → r.Store → r.Store → Type 0
  ShowsStored from k s m m' =
      (u : ℕ) (j : Text)
      → from ≤ u
      → h.view u j m' ≡ (
          if text_eq k j
          then (if ltb u (from + ttl) then ok (some (keyed k s)) else ok none)
          else h.view u j m)

  -- The three ends of a call, by what the callback gives.
  pub data Finished (t : Moment) (k : Text) (given : Result (Option RestorationState)) (m : r.Store)
      (out : Result ProcessOutcome × r.Store) : Type 0 where
    raised :
        (e : Error)
        → given ≡ err e
        → out.0 ≡ err e
        → ShowsSame t.last m out.1
        → Finished t k given m out
    refused :
        (s : RestorationState)
        → given ≡ ok (some s)
        → out.0 ≡ err refusal
        → h.view t.last k m ≡ ok none
        → ShowsSame t.last m out.1
        → Finished t k given m out
    stored :
        (s : RestorationState)
        → given ≡ ok (some s)
        → out.0 ≡ outcome_from_state (some s)
        → ShowsStored t.last k s m out.1
        → Finished t k given m out

  module _ (env : Environment) (w : Draw) (payload key : Text) (policy : ConsumerPolicy)
      (prepared : Option RestorationState) where
    abbrev pub given_at : ℕ → r.Store → Result (Option RestorationState)
    given_at time m = h.view time key m >>= callback env w payload key policy prepared

    wrapped :
        (x : Result RestorationState)
        → ((e : Error) × ((x >>= (λ s. ok (some s))) ≡ err e))
          ⊎ ((s : RestorationState) × ((x >>= (λ s. ok (some s))) ≡ ok (some s)))
    wrapped (ok s) = inr (s, refl)
    wrapped (err e) = inl (e, refl)

    given-cases :
        (c : Result (Option RestorationState))
        → ((e : Error) × ((c >>= callback env w payload key policy prepared) ≡ err e))
          ⊎ ((s : RestorationState) × ((c >>= callback env w payload key policy prepared)
                ≡ ok (some s)))
    unfolding callback
    given-cases (err e) = inl (e, refl)
    given-cases (ok o) = wrapped (transition_state env w o payload key policy prepared)

    pub finish-Finished :
        (t : Moment) (m : r.Store)
        → IsMoment t
        → h.IsValid t.now m
        → h.IsValid t.last (finish env r w t payload key policy prepared m).1
          × Finished t key (given_at t.later m) m (finish env r w t payload key policy prepared m)
    unfolding finish
    finish-Finished t m clock v =
        let fn = callback env w payload key policy prepared in
        elim (given-cases (h.view t.later key m)) [
          | inl (e, g) ↦
              let (q, valid, same) = h.promise.transition_err t key fn m e clock v g in
              (valid, raised e g (ap (λ x. x >>= outcome_from_state) q) same)
          | inr (s, g) ↦
              let (valid, ends) = h.promise.transition_ok t key fn m s clock v g in
              elim ends [
                | inl (q, gone, same) ↦
                    (valid, refused s g (ap (λ x. x >>= outcome_from_state) q) gone same)
                | inr (q, shows) ↦ (valid, stored s g (ap (λ x. x >>= outcome_from_state) q) shows)
              ]
        ]
