-- ===== src/Processing/RoundTrip.antt =====
-- The way of a text through two calls of `process`.
use alfa_hackaton.Prelude.{
  ℕ, ◌+◌, ◌≤◌, ◌<◌, ◌≡◌, ◌⊎◌, inl, inr, refl, sym, ap, ◌∙◌, true, false, Option, none, some,
  some_injective, Text, text_eq, ltb, arith, if◌then◌else◌, Bool-cases, text_eq_iff,
}
use alfa_hackaton.Core.Enums.{masked, demasked, mask, demask}
use alfa_hackaton.Core.Errors.{Error, Result, ok, err, ok_injective, ok_ne_err}
use alfa_hackaton.Policies.{ConsumerPolicy}
use alfa_hackaton.Restoration.State.{RestorationState}
use alfa_hackaton.Restoration.Store.{Moment, IsMoment, RestorationStore, IsRestorationStore, keyed}
use alfa_hackaton.Processing.{
  Environment, Draw, ProcessOutcome, finish, proceed, process, is_missing, state_key,
  prepare_if_absent, prepare_mask, hash_payload, outcome_from_state, outcome,
}
use alfa_hackaton.Processing.Finish.{
  Finished, raised, refused, stored, ShowsSame, ShowsStored, finish-Finished, given_at,
}
use alfa_hackaton.Processing.Lifecycle.{prepared_before, masked_again, demasked_first}
use alfa_hackaton.Processing.Service.{process-Processed}
use alfa_hackaton.Processing.Answers.{masked_answer, prepare_mask-IsPrepared}
use alfa_hackaton.Processing.Retry.{given_by-Step, process_known, shown}

module _ {r : RestorationStore} {ttl : ℕ} {refusal : Error} (h : IsRestorationStore r ttl refusal)
    (env : Environment) (payload_id : Text) (policy : ConsumerPolicy) where
  -- What a new payload amounts to: a refusal, or its mask, stored.
  abbrev pub Created :
      Moment → RestorationState → r.Store → Result ProcessOutcome × r.Store → Type 0
  Created t p m out =
      (out.0 ≡ err refusal)
      ⊎ (out.0 ≡ ok (outcome p.masked_text mask p))
        × ShowsStored h t.last (state_key env policy.consumer_id payload_id) p m out.1

  prepares :
      (v w : Draw) (payload : Text) (first : ℕ) (t : Moment) (m : r.Store) (p : RestorationState)
      → is_missing env r payload payload_id ≡ false
      → (r.get first (state_key env policy.consumer_id payload_id) m).0 ≡ ok none
      → prepare_mask env v payload (state_key env policy.consumer_id payload_id) policy ≡ ok p
      → process env r v w first t payload payload_id policy m
        ≡ finish env r w t payload
            (state_key env policy.consumer_id payload_id)
            policy
            (some p)
            (r.get first (state_key env policy.consumer_id payload_id) m).1
  unfolding process proceed prepare_if_absent
  prepares v w payload first t m p given new prepared =
      rw (given, process) (rw (new, process) (rw (prepared, prepare_if_absent) refl))

  Created-of_Finished :
      (t : Moment) (p : RestorationState) (m m' : r.Store)
      (given : Result (Option RestorationState)) (out : Result ProcessOutcome × r.Store)
      → p.state ≡ masked
      → ShowsSame h t.last m m'
      → given ≡ ok (some p)
      → Finished h t (state_key env policy.consumer_id payload_id) given m' out
      → Created t p m out
  Created-of_Finished t p m m' given out is_masked same is (raised e g q u) =
      absurd (ok_ne_err (sym is ∙ g))
  Created-of_Finished t p m m' given out is_masked same is (refused s g q gone u) = inl q
  Created-of_Finished t p m m' given out is_masked same is (stored s g q u) =
      let e : s ≡ p = some_injective (ok_injective (sym g ∙ is)) in
      inr (
        q ∙ ap (λ o. outcome_from_state (some o)) e ∙ masked_answer p is_masked,
        λ x j b.
            u x j b
            ∙ rw e (
                ap
                  (λ o.
                    if text_eq (state_key env policy.consumer_id payload_id) j
                    then (if ltb x (t.last + ttl)
                        then ok (some (keyed (state_key env policy.consumer_id payload_id) p))
                        else ok none)
                    else o)
                  (same x j b)),
      )

  process_new :
      (v w : Draw) (payload : Text) (first : ℕ) (t : Moment) (m : r.Store) (p : RestorationState)
      → IsMoment t
      → first ≤ t.now
      → h.IsValid first m
      → is_missing env r payload payload_id ≡ false
      → h.view first (state_key env policy.consumer_id payload_id) m ≡ ok none
      → h.view t.later (state_key env policy.consumer_id payload_id) m ≡ ok none
      → prepare_mask env v payload (state_key env policy.consumer_id payload_id) policy ≡ ok p
      → Created t p m (process env r v w first t payload payload_id policy m)
  process_new v w payload first t m p clock early valid given new still prepared =
      let k = state_key env policy.consumer_id payload_id in
      let (got, after, same) = h.promise.get_lem first k m valid in
      let m' = (r.get first k m).1 in
      let ends =
        finish-Finished h env w payload k policy (some p) t m' clock
          (h.promise.IsValid-later m' early after) in
      rw (prepares v w payload first t m p given (got ∙ new) prepared) (
        Created-of_Finished t p m m' (given_at h env w payload k policy (some p) t.later m')
          (finish env r w t payload k policy (some p) m')
          (prepare_mask-IsPrepared env v payload k policy p prepared).state
          (λ u j b. same u j (omega (arith, clock.first, clock.second)))
          (given_by-Step h env payload payload_id policy w (some p) none (h.view t.later k m') p
            (same t.later k (omega (arith, clock.first)) ∙ still) (prepared_before p refl))
          ends.1)

  -- The way back, over any store that keeps its promise: a payload whose key has no state is
  -- refused by the store, or answered by its mask; and then the masked text, sent under the same
  -- id before the time to live is over, is answered by the payload. The consumer may demask, the
  -- id and both texts are not empty, the clock does not go back, and the two texts have the same
  -- hash only if they are equal.
  pub process-process :
      (v w v' w' : Draw) (first first' : ℕ) (t t' : Moment) (payload : Text) (m : r.Store)
      (p : RestorationState)
      → IsMoment t
      → IsMoment t'
      → first ≤ t.now
      → t.last ≤ first'
      → first' ≤ t'.now
      → t'.last < t.last + ttl
      → h.IsValid first m
      → is_missing env r payload payload_id ≡ false
      → is_missing env r p.masked_text payload_id ≡ false
      → policy.demasking_enabled ≡ true
      → (hash_payload env p.masked_text ≡ hash_payload env payload → p.masked_text ≡ payload)
      → h.view first (state_key env policy.consumer_id payload_id) m ≡ ok none
      → h.view t.later (state_key env policy.consumer_id payload_id) m ≡ ok none
      → prepare_mask env v payload (state_key env policy.consumer_id payload_id) policy ≡ ok p
      → let out = process env r v w first t payload payload_id policy m in
        (out.0 ≡ err refusal)
        ⊎ (out.0 ≡ ok (outcome p.masked_text mask p))
          × (o : ProcessOutcome) × ((process env r v' w' first' t' p.masked_text payload_id policy
                out.1).0
              ≡ ok o)
          × (o.result ≡ payload)
  unfolding outcome_from_state outcome
  process-process v w v' w' first first' t t' payload m p clock clock' early between early' alive
        valid given given' can hashes new still prepared =
      let k = state_key env policy.consumer_id payload_id in
      let m' = (process env r v w first t payload payload_id policy m).1 in
      let after =
        (process-Processed h env v w payload payload_id policy t first m clock early valid).0 in
      let i = prepare_mask-IsPrepared env v payload k policy p prepared in
      elim (process_new v w payload first t m p clock early valid given new still prepared) [
        | inl q ↦ inl q
        | inr (q, shows) ↦
            let back =
              process_known h env p.masked_text payload_id policy v' w' first' t' m' (keyed k p) in
            let valid' = h.promise.IsValid-later m' between after in
            let seen : (u : ℕ) → first' ≤ u → u ≤ t'.last → h.view u k m' ≡ ok (some (keyed k p)) =
              (λ u a b.
                shown h env payload payload_id policy t.last u p m m' shows (omega arith)
                  (omega arith)) in
            elim (Bool-cases (text_eq (hash_payload env p.masked_text) p.original_hash)) [
              | inl same ↦
                  let e = (text_eq_iff (hash_payload env p.masked_text) p.original_hash).0 same in
                  inr (
                    q,
                    outcome p.masked_text mask p,
                    back (keyed k p) clock' early' valid' given' seen
                          (masked_again (keyed k p) i.consumer_id i.state e)
                        ∙ masked_answer p i.state,
                    hashes (e ∙ i.original_hash),
                  )
              | inr differs ↦ inr (
                q,
                outcome p.original_text demask p,
                back (record (keyed k p) { state = demasked }) clock' early' valid' given' seen
                    (demasked_first (keyed k p) i.consumer_id i.state
                      (λ e.
                        ground
                          (arith, text_eq_iff (hash_payload env p.masked_text) p.original_hash))
                      refl can),
                i.original_text,
              )
            ]
      ]
