-- ===== src/Processing/Answers.antt =====
-- What a prepared state holds, and what a state is answered by.
use alfa_hackaton.Prelude.{
  ◌≡◌, ◌≢◌, ◌⊎◌, inl, inr, refl, sym, ap, ◌∙◌, Option, none, some, Text, arith, codes,
}
use alfa_hackaton.Core.Enums.{RestorationStateStatus, masked, demasked, mask, demask}
use alfa_hackaton.Core.Errors.{ok, Result-cases, ok_injective}
use alfa_hackaton.Detection.Engine.{detect}
use alfa_hackaton.Masking.Engine
use alfa_hackaton.Policies.{ConsumerPolicy}
use alfa_hackaton.Restoration.State.{RestorationState}
use alfa_hackaton.Restoration.Store.{keyed}
use alfa_hackaton.Processing.{
  Environment, Draw, ProcessOutcome, prepare_mask, hash_payload, outcome_from_state, outcome,
  enabled_of,
}
use alfa_hackaton.Processing.Lifecycle.{
  Step, prepared_before, prepared_now, masked_again, demasked_first, demasked_again,
}

-- What `_prepare_mask` fills in of the request.
pub record IsPrepared (env : Environment) (payload key : Text) (policy : ConsumerPolicy)
    (p : RestorationState) : Type 0 where
  pub original_text : p.original_text ≡ payload
  pub original_hash : p.original_hash ≡ hash_payload env payload
  pub state : p.state ≡ masked
  pub consumer_id : p.consumer_id ≡ policy.consumer_id

masked_ne_demasked : masked ≢ demasked
masked_ne_demasked q = ground arith

pub mask_ne_demask : mask ≢ demask
mask_ne_demask q = ground arith

by_status :
    (st : RestorationStateStatus) (a b o : ProcessOutcome)
    → (elim st [ masked ↦ ok a | demasked ↦ ok b ]) ≡ ok o
    → (st ≡ masked) × (a ≡ o) ⊎ (st ≡ demasked) × (b ≡ o)
by_status masked a b o q = inl (refl, cc q)
by_status demasked a b o q = inr (refl, cc q)

pub outcome-cases :
    (s : RestorationState) (o : ProcessOutcome)
    → outcome_from_state (some s) ≡ ok o
    → (s.state ≡ masked) × (outcome s.masked_text mask s ≡ o)
      ⊎ (s.state ≡ demasked) × (outcome s.original_text demask s ≡ o)
unfolding outcome_from_state
outcome-cases s o q =
    by_status s.state (outcome s.masked_text mask s) (outcome s.original_text demask s) o q

pub masked_answer :
    (s : RestorationState)
    → s.state ≡ masked
    → outcome_from_state (some s) ≡ ok (outcome s.masked_text mask s)
unfolding outcome_from_state
masked_answer s e =
    ap
      (λ st. elim st [
        | masked ↦ ok (outcome s.masked_text mask s)
        | demasked ↦ ok (outcome s.original_text demask s)
      ])
      e

pub ok_some_ne_none : {A : Type 0} {a : A} → ok (some a) ≢ ok none
ok_some_ne_none q = ground arith

module _ (env : Environment) where
  pub prepare_mask-IsPrepared :
      (w : Draw) (payload k : Text) (policy : ConsumerPolicy) (p : RestorationState)
      → prepare_mask env w payload k policy ≡ ok p
      → IsPrepared env payload k policy p
  unfolding prepare_mask
  prepare_mask-IsPrepared w payload k policy p =
      elim (Result-cases (
        detect env.detectors payload
          (record { consumer_id = policy.consumer_id; language = codes "ru" }))) [
            | inr (e, q) ↦ rw (q, prepare_mask) (λ h. ground arith)
            | inl (found, q) ↦
                rw (q, prepare_mask)
                  (elim (Result-cases (
                    Engine.mask env.chars w.tokens payload (enabled_of policy.enabled_types found)
                      policy.masking policy.context_rules)) [
                        | inr (e, q') ↦ rw (q', prepare_mask) (λ h. ground arith)
                        | inl (masking, q') ↦
                            rw (q', prepare_mask)
                              (λ h. simp (← ok_injective h) (record {
                                original_text = refl;
                                original_hash = refl;
                                state = refl;
                                consumer_id = refl;
                              }))
                      ])
          ]

  pub settled :
      (v w w' : Draw) (payload k : Text) (policy : ConsumerPolicy)
      (prepared current : Option RestorationState) (s : RestorationState)
      → ((p : RestorationState) → prepared ≡ some p → prepare_mask env v payload k policy ≡ ok p)
      → Step env w payload k policy prepared current s
      → Step env w' payload k policy none (some (keyed k s)) (keyed k s)
  settled v w w' payload k policy prepared _ _ h (prepared_before p q) =
      let i = prepare_mask-IsPrepared v payload k policy p (h p q) in
      masked_again (keyed k p) i.consumer_id i.state (sym i.original_hash)
  settled v w w' payload k policy prepared _ _ h (prepared_now p e q) =
      let i = prepare_mask-IsPrepared w payload k policy p q in
      masked_again (keyed k p) i.consumer_id i.state (sym i.original_hash)
  settled v w w' payload k policy prepared _ _ h (masked_again s own m same) =
      masked_again (keyed k s) own m same
  settled v w w' payload k policy prepared _ _ h (demasked_first s own m new back can) =
      demasked_again (keyed k (record s { state = demasked })) own refl back
  settled v w w' payload k policy prepared _ _ h (demasked_again s own d back) =
      demasked_again (keyed k s) own d back

  -- The states that a step to a demasked state starts from.
  pub demasking :
      (v w : Draw) (payload k : Text) (policy : ConsumerPolicy)
      (prepared current : Option RestorationState) (s : RestorationState)
      → ((p : RestorationState) → prepared ≡ some p → prepare_mask env v payload k policy ≡ ok p)
      → Step env w payload k policy prepared current s
      → s.state ≡ demasked
      → (s0 : RestorationState) × (current ≡ some s0)
        × (s0.consumer_id ≡ policy.consumer_id)
        × (payload ≡ s0.masked_text)
        × (s.original_text ≡ s0.original_text)
  demasking v w payload k policy prepared _ _ h (prepared_before p q) d =
      absurd
        (masked_ne_demasked (sym (prepare_mask-IsPrepared v payload k policy p (h p q)).state ∙ d))
  demasking v w payload k policy prepared _ _ h (prepared_now p e q) d =
      absurd (masked_ne_demasked (sym (prepare_mask-IsPrepared w payload k policy p q).state ∙ d))
  demasking v w payload k policy prepared _ _ h (masked_again s own m same) d =
      absurd (masked_ne_demasked (sym m ∙ d))
  demasking v w payload k policy prepared _ _ h (demasked_first s own m new back can) d =
      (s, refl, own, back, refl)
  demasking v w payload k policy prepared _ _ h (demasked_again s own d' back) d =
      (s, refl, own, back, refl)
