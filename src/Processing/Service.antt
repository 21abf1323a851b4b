-- ===== src/Processing/Service.antt =====
-- `process` over any store that keeps the promise: what a call needs, what it shows, what it changes.
use alfa_hackaton.Prelude.{
  some_injective, ℕ, ◌+◌, ◌≤◌, ◌≡◌, inl, inr, refl, sym, ap, ◌∙◌, Option, none, some, Text, text_eq,
  ltb, arith, if◌then◌else◌, Bool-cases,
}
use alfa_hackaton.Core.Errors.{Error, Result, ok, err, ◌>>=◌, Result-cases}
use alfa_hackaton.Policies.{ConsumerPolicy}
use alfa_hackaton.Restoration.State.{RestorationState}
use alfa_hackaton.Restoration.Store.{Moment, IsMoment, RestorationStore, IsRestorationStore, keyed}
use alfa_hackaton.Processing.{
  Environment, Draw, ProcessOutcome, callback, finish, proceed, process, is_missing, state_key,
  prepare_if_absent, prepare_mask, transition_state, outcome_from_state,
}
use alfa_hackaton.Processing.Finish.{
  Finished, raised, refused, stored, ShowsSame, ShowsStored, finish-Finished, given_at,
}
use alfa_hackaton.Processing.Lifecycle.{Step, transition_state-Step}

module _ {r : RestorationStore} {ttl : ℕ} {refusal : Error} (h : IsRestorationStore r ttl refusal)
    (env : Environment) (v w : Draw) (payload payload_id : Text) (policy : ConsumerPolicy) where
  abbrev pub key : Text
  key = state_key env policy.consumer_id payload_id

  -- a state that `process` prepared before the transition
  abbrev pub IsPrepared : Option RestorationState → Type 0
  IsPrepared prepared =
      (p : RestorationState) → prepared ≡ some p → prepare_mask env v payload key policy ≡ ok p

  -- What a call amounts to: an error, and then the store shows what it did; or a step of the
  -- lifecycle from what the store shows under the key, whose state is stored and answered.
  pub data Processed (t : Moment) (m : r.Store) (out : Result ProcessOutcome × r.Store)
      : Type 0 where
    failed : (e : Error) → out.0 ≡ err e → ShowsSame h t.last m out.1 → Processed t m out
    done :
        (prepared current : Option RestorationState) (s : RestorationState)
        → h.view t.later key m ≡ ok current
        → IsPrepared prepared
        → Step env w payload key policy prepared current s
        → out.0 ≡ outcome_from_state (some s)
        → ShowsStored h t.last key s m out.1
        → Processed t m out

  unwrap :
      (x : Result RestorationState) (s : RestorationState)
      → (x >>= (λ s. ok (some s))) ≡ ok (some s)
      → x ≡ ok s
  unwrap (ok s') s q = cc q
  unwrap (err e) s q = absurd (ground arith)

  -- A callback that gives a state was given a current state with a step to it.
  callback_ok :
      (prepared : Option RestorationState) (c : Result (Option RestorationState))
      (s : RestorationState)
      → (c >>= callback env w payload key policy prepared) ≡ ok (some s)
      → (current : Option RestorationState) × (c ≡ ok current)
        × Step env w payload key policy prepared current s
  unfolding callback
  callback_ok prepared (err e) s q = absurd (ground arith)
  callback_ok prepared (ok current) s q = (
    current,
    refl,
    (transition_state-Step env w payload key policy prepared current s).0
        (unwrap (transition_state env w current payload key policy prepared) s q),
  )

  Processed-of :
      (t : Moment) (prepared : Option RestorationState) (m m' : r.Store)
      → IsPrepared prepared
      → IsMoment t
      → ShowsSame h t.now m m'
      → (out : Result ProcessOutcome × r.Store)
      → Finished h t key (given_at h env w payload key policy prepared t.later m') m' out
      → Processed t m out
  Processed-of t prepared m m' is_prepared clock same out (raised e g q u) =
      failed e q (λ x j p. u x j p ∙ same x j (omega (arith, clock.first, clock.second)))
  Processed-of t prepared m m' is_prepared clock same out (refused s g q gone u) =
      failed refusal q (λ x j p. u x j p ∙ same x j (omega (arith, clock.first, clock.second)))
  Processed-of t prepared m m' is_prepared clock same out (stored s g q u) =
      let (current, seen, step) = callback_ok prepared (h.view t.later key m') s g in
      done prepared current s (sym (same t.later key clock.first) ∙ seen) is_prepared step q
        (λ x j p.
          u x j p
          ∙ ap
              (λ o.
                if text_eq key j
                then (if ltb x (t.last + ttl) then ok (some (keyed key s)) else ok none)
                else o)
              (same x j (omega (arith, clock.first, clock.second))))

  finish-Processed :
      (t : Moment) (prepared : Option RestorationState) (m m' : r.Store)
      → IsPrepared prepared
      → IsMoment t
      → h.IsValid t.now m'
      → ShowsSame h t.now m m'
      → h.IsValid t.last (finish env r w t payload key policy prepared m').1
        × Processed t m (finish env r w t payload key policy prepared m')
  finish-Processed t prepared m m' is_prepared clock valid same =
      let (after, ends) = finish-Finished h env w payload key policy prepared t m' clock valid in
      (
        after,
        Processed-of t prepared m m' is_prepared clock same
            (finish env r w t payload key policy prepared m') ends,
      )

  failed-proceed :
      (t : Moment) (first : ℕ) (m m' : r.Store) (e : Error)
      → IsMoment t
      → first ≤ t.now
      → h.IsValid first m'
      → ShowsSame h first m m'
      → h.IsValid t.last m' × Processed t m (err e, m')
  failed-proceed t first m m' e clock early valid same = (
    h.promise.IsValid-later m' (omega (arith, clock.first, clock.second)) valid,
    failed e refl (λ u j p. same u j (omega (arith, clock.first, clock.second))),
  )

  proceed-Processed :
      (t : Moment) (first : ℕ) (found : Result (Option RestorationState)) (m m' : r.Store)
      → IsMoment t
      → first ≤ t.now
      → h.IsValid first m'
      → ShowsSame h first m m'
      → h.IsValid t.last
          (proceed env r w t payload key policy
            (prepare_if_absent env v payload key policy found)
            m').1
        × Processed t m (
            proceed env r w t payload key policy
              (prepare_if_absent env v payload key policy found)
              m')
  unfolding proceed prepare_if_absent
  proceed-Processed t first (err e) m m' clock early valid same =
      failed-proceed t first m m' e clock early valid same
  proceed-Processed t first (ok (some s)) m m' clock early valid same =
      finish-Processed t none m m' (λ p q. absurd (ground arith)) clock
        (h.promise.IsValid-later m' early valid) (λ u j p. same u j (omega arith))
  proceed-Processed t first (ok none) m m' clock early valid same =
      elim (Result-cases (prepare_mask env v payload key policy)) [
        | inl (p, q) ↦
            rw (q, prepare_if_absent)
              (finish-Processed t (some p) m m' (λ p' e. q ∙ ap ok (some_injective e)) clock
                (h.promise.IsValid-later m' early valid) (λ u j b. same u j (omega (arith, b))))
        | inr (e, q) ↦
            rw (q, prepare_if_absent) (failed-proceed t first m m' e clock early valid same)
      ]

  -- Over any store that keeps its promise, while the clock does not go back, every call keeps the
  -- invariant of the store, and it ends in an error and the store shows what it did, or it makes a
  -- step of the lifecycle from what the store shows under the key: the new state is answered and
  -- shown until its time to live is over, and every other key shows what it did.
  pub process-Processed :
      (t : Moment) (first : ℕ) (m : r.Store)
      → IsMoment t
      → first ≤ t.now
      → h.IsValid first m
      → h.IsValid t.last (process env r v w first t payload payload_id policy m).1
        × Processed t m (process env r v w first t payload payload_id policy m)
  unfolding process
  process-Processed t first m clock early valid =
      elim (Bool-cases (is_missing env r payload payload_id)) [
        | inl missing ↦
            rw (missing, process) (failed-proceed t first m m _ clock early valid (λ u j p. refl))
        | inr given ↦
            let (got, after, same) = h.promise.get_lem first key m valid in
            rw (given, process)
              (proceed-Processed t first (r.get first key m).0 m (r.get first key m).1 clock early
                after same)
      ]
