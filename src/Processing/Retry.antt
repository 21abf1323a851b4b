-- ===== src/Processing/Retry.antt =====
-- What `process` shows of a state that the store holds: demaskings and retries.
use alfa_hackaton.Prelude.{
  ℕ, ◌+◌, ◌≤◌, ◌<◌, ◌≡◌, ◌≢◌, inl, inr, refl, sym, ap, ◌∙◌, false, Option, none, some, Text, arith,
  Bool-cases, text_eq_refl,
}
use alfa_hackaton.Core.Enums.{demask}
use alfa_hackaton.Core.Errors.{Error, Result, ok, ◌>>=◌, ok_injective, ok_ne_err}
use alfa_hackaton.Policies.{ConsumerPolicy}
use alfa_hackaton.Restoration.State.{RestorationState}
use alfa_hackaton.Restoration.Store.{Moment, IsMoment, RestorationStore, IsRestorationStore, keyed}
use alfa_hackaton.Processing.{
  Environment, Draw, ProcessOutcome, callback, finish, proceed, process, is_missing, state_key,
  prepare_if_absent, outcome_from_state, outcome, required,
}
use alfa_hackaton.Processing.Finish.{
  Finished, raised, refused, stored, ShowsStored, finish-Finished,
}
use alfa_hackaton.Processing.Lifecycle.{Step, transition_state-Step}
use alfa_hackaton.Processing.Service.{failed, done, process-Processed}
use alfa_hackaton.Processing.Answers.{
  outcome-cases, ok_some_ne_none, mask_ne_demask, settled, demasking,
}

module _ {r : RestorationStore} {ttl : ℕ} {refusal : Error} (h : IsRestorationStore r ttl refusal)
    (env : Environment) (payload payload_id : Text) (policy : ConsumerPolicy) where
  abbrev own_key : Text
  own_key = state_key env policy.consumer_id payload_id

  -- A call whose callback gives a state while the key has one is not refused.
  answered :
      (t : Moment) (m : r.Store) (s : RestorationState) (given : Result (Option RestorationState))
      (out : Result ProcessOutcome × r.Store)
      → Finished h t own_key given m out
      → given ≡ ok (some s)
      → h.view t.last own_key m ≢ ok none
      → out.0 ≡ outcome_from_state (some s)
  answered t m s given out (raised e g q same) is here = absurd (ok_ne_err (sym is ∙ g))
  answered t m s given out (refused s' g q gone same) is here = absurd (here gone)
  answered t m s given out (stored s' g q shows) is here =
      q ∙ ap (λ o. outcome_from_state o) (ok_injective (sym g ∙ is))

  pub given_by-Step :
      (w : Draw) (prepared current : Option RestorationState) (c : Result (Option RestorationState))
      (s' : RestorationState)
      → c ≡ ok current
      → Step env w payload own_key policy prepared current s'
      → (c >>= callback env w payload own_key policy prepared) ≡ ok (some s')
  unfolding callback
  given_by-Step w prepared current c s' e step =
      rw e
        (rw ((transition_state-Step env w payload own_key policy prepared current s').1 step) refl)

  -- A request on a state that the store shows throughout the call gives what the lifecycle gives.
  pub process_known :
      (v w : Draw) (first : ℕ) (t : Moment) (m : r.Store) (s s' : RestorationState)
      → IsMoment t
      → first ≤ t.now
      → h.IsValid first m
      → is_missing env r payload payload_id ≡ false
      → ((u : ℕ) → first ≤ u → u ≤ t.last → h.view u own_key m ≡ ok (some s))
      → Step env w payload own_key policy none (some s) s'
      → (process env r v w first t payload payload_id policy m).0 ≡ outcome_from_state (some s')
  unfolding process proceed prepare_if_absent
  process_known v w first t m s s' clock early valid given shows step =
      let (got, after, same) = h.promise.get_lem first own_key m valid in
      let m' = (r.get first own_key m).1 in
      let fetched = got ∙ shows first (omega arith) (omega (arith, clock.first, clock.second)) in
      let ends =
        finish-Finished h env w payload own_key policy none t m' clock
          (h.promise.IsValid-later m' early after) in
      rw (given, process)
        (rw (fetched, process)
          (answered t m' s' _ (finish env r w t payload own_key policy none m') ends.1
            (given_by-Step w none (some s) (h.view t.later own_key m') s'
              (same t.later own_key (omega (arith, clock.first))
                ∙ shows t.later (omega (arith, clock.first)) clock.second)
              step)
            (λ gone. ok_some_ne_none (
              sym (shows t.last (omega (arith, clock.first, clock.second)) (omega arith))
              ∙ sym (same t.last own_key (omega (arith, clock.first, clock.second)))
              ∙ gone))))

  given_of_ok :
      (v w : Draw) (first : ℕ) (t : Moment) (m : r.Store) (o : ProcessOutcome)
      → (process env r v w first t payload payload_id policy m).0 ≡ ok o
      → is_missing env r payload payload_id ≡ false
  unfolding process
  given_of_ok v w first t m o q = elim (Bool-cases (is_missing env r payload payload_id)) [
    | inr given ↦ given
    | inl missing ↦ absurd (ok_ne_err {e = required} (sym q ∙ rw (missing, process) refl))
  ]

  outcome-keyed :
      (k : Text) (s : RestorationState)
      → outcome_from_state (some (keyed k s)) ≡ outcome_from_state (some s)
  unfolding outcome_from_state outcome
  outcome-keyed k s = refl

  pub shown :
      (from u : ℕ) (s : RestorationState) (m m' : r.Store)
      → ShowsStored h from own_key s m m'
      → from ≤ u
      → u < from + ttl
      → h.view u own_key m' ≡ ok (some (keyed own_key s))
  shown from u s m m' shows p q = shows u own_key p ∙ ground (arith, text_eq_refl own_key)

  -- A request that was answered gets the same answer when it is sent again, before the time to live
  -- of the state is over, to a store that still shows under its key what the first call left there,
  -- if the clock does not go back. Both stores satisfy the invariant at the time of their call.
  pub process-retry :
      (v w v' w' : Draw) (first first' : ℕ) (t t' : Moment) (m m' : r.Store) (o : ProcessOutcome)
      → IsMoment t
      → IsMoment t'
      → first ≤ t.now
      → t.last ≤ first'
      → first' ≤ t'.now
      → t'.last < t.last + ttl
      → h.IsValid first m
      → (process env r v w first t payload payload_id policy m).0 ≡ ok o
      → h.IsValid first' m'
      → ((u : ℕ)
          → first' ≤ u
          → h.view u own_key m'
            ≡ h.view u own_key (process env r v w first t payload payload_id policy m).1)
      → (process env r v' w' first' t' payload payload_id policy m').0 ≡ ok o
  process-retry v w v' w' first first' t t' m m' o clock clock' early between early' alive valid
        answer valid' same_view =
      let (after, processed) =
        process-Processed h env v w payload payload_id policy t first m clock early valid in
      elim processed [
        | failed e q same ↦ absurd (ok_ne_err (sym answer ∙ q))
        | done prepared current s seen is_prepared step q shows ↦
            process_known v' w' first' t' m' (keyed own_key s) (keyed own_key s) clock' early'
              valid' (given_of_ok v w first t m o answer)
              (λ u a b.
                same_view u (omega arith)
                ∙ shown t.last u s m (process env r v w first t payload payload_id policy m).1 shows
                    (omega arith) (omega arith))
              (settled env v w w' payload own_key policy prepared current s is_prepared step)
            ∙ outcome-keyed own_key s
            ∙ sym q
            ∙ answer
      ]

  -- An answer to a demasking comes from a state that the store shows under the key and that
  -- belongs to the consumer of the policy; the payload is its masked text, and the answer is its
  -- original text.
  pub process-discloses :
      (v w : Draw) (first : ℕ) (t : Moment) (m : r.Store) (o : ProcessOutcome)
      → IsMoment t
      → first ≤ t.now
      → h.IsValid first m
      → (process env r v w first t payload payload_id policy m).0 ≡ ok o
      → o.operation ≡ demask
      → (s : RestorationState) × (h.view t.later own_key m ≡ ok (some s))
        × (s.consumer_id ≡ policy.consumer_id)
        × (payload ≡ s.masked_text)
        × (o.result ≡ s.original_text)
  unfolding outcome
  process-discloses v w first t m o clock early valid answer is_demask =
      let (after, processed) =
        process-Processed h env v w payload payload_id policy t first m clock early valid in
      elim processed [
        | failed e q same ↦ absurd (ok_ne_err (sym answer ∙ q))
        | done prepared current s seen is_prepared step q shows ↦
            elim (outcome-cases s o (sym q ∙ answer)) [
              | inl (m', e) ↦
                  absurd (mask_ne_demask (ap (λ (x : ProcessOutcome). x.operation) e ∙ is_demask))
              | inr (d, e) ↦
                  let (s0, is, own, back, same) =
                    demasking env v w payload own_key policy prepared current s is_prepared step
                      d in
                  (
                    s0,
                    seen ∙ ap ok is,
                    own,
                    back,
                    sym (ap (λ (x : ProcessOutcome). x.result) e) ∙ same,
                  )
            ]
      ]
