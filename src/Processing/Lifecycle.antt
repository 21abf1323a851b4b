-- ===== src/Processing/Lifecycle.antt =====
-- `_transition` against the lifecycle that the docstring of the service describes.
use alfa_hackaton.Prelude.{
  ◌≡◌, ◌≢◌, ◌↔◌, ◌⊎◌, inl, inr, refl, ap, ◌∙◌, true, false, Option, none, some, Text, text_eq,
  text_eq_iff, text_eq_refl, arith, if◌then◌else◌, Bool-cases,
}
use alfa_hackaton.Core.Enums.{masked, demasked, RestorationStateStatus}
use alfa_hackaton.Core.Errors.{ok_injective, Result, ok, err}
use alfa_hackaton.Policies.{ConsumerPolicy}
use alfa_hackaton.Restoration.State.{RestorationState}
use alfa_hackaton.Processing.{
  Environment, Draw, hash_payload, prepare_mask, demask_state, transition_known, transition_state,
  mismatch,
}

module _ (env : Environment) where
  -- One step of the lifecycle on a payload, under a policy.
  pub data Step (w : Draw) (payload key : Text) (policy : ConsumerPolicy)
      (prepared : Option RestorationState)
      : Option RestorationState → RestorationState → Type 0 where
    -- The first request is masked.
    prepared_before :
        (p : RestorationState) → prepared ≡ some p → Step w payload key policy prepared none p
    prepared_now :
        (p : RestorationState)
        → prepared ≡ none
        → prepare_mask env w payload key policy ≡ ok p
        → Step w payload key policy prepared none p
    -- A retry of the original keeps the mask.
    masked_again :
        (s : RestorationState)
        → s.consumer_id ≡ policy.consumer_id
        → s.state ≡ masked
        → hash_payload env payload ≡ s.original_hash
        → Step w payload key policy prepared (some s) s
    -- The masked payload is demasked.
    demasked_first :
        (s : RestorationState)
        → s.consumer_id ≡ policy.consumer_id
        → s.state ≡ masked
        → hash_payload env payload ≢ s.original_hash
        → payload ≡ s.masked_text
        → policy.demasking_enabled ≡ true
        → Step w payload key policy prepared (some s) (record s { state = demasked })
    -- A retry of the masked payload keeps the state.
    demasked_again :
        (s : RestorationState)
        → s.consumer_id ≡ policy.consumer_id
        → s.state ≡ demasked
        → payload ≡ s.masked_text
        → Step w payload key policy prepared (some s) s

  equal : {s t : Text} → text_eq s t ≡ true → s ≡ t
  equal {s} {t} h = (text_eq_iff s t).0 h

  unequal : {s t : Text} → text_eq s t ≡ false → s ≢ t
  unequal {s} {t} h e = ground (arith, text_eq_iff s t)

  status-cases : (s : RestorationStateStatus) → (s ≡ masked) ⊎ (s ≡ demasked)
  status-cases masked = inl refl
  status-cases demasked = inr refl

  on_masked :
      (s : RestorationState) (payload : Text) (policy : ConsumerPolicy)
      → s.consumer_id ≡ policy.consumer_id
      → s.state ≡ masked
      → transition_known env s payload policy ≡ (
          if text_eq (hash_payload env payload) s.original_hash
          then ok s
          else if text_eq payload s.masked_text
          then demask_state s policy
          else err mismatch)
  unfolding transition_known
  on_masked s payload policy own m = ground (arith, text_eq_refl policy.consumer_id)

  on_demasked :
      (s : RestorationState) (payload : Text) (policy : ConsumerPolicy)
      → s.consumer_id ≡ policy.consumer_id
      → s.state ≡ demasked
      → transition_known env s payload policy
        ≡ (if text_eq payload s.masked_text then ok s else err mismatch)
  unfolding transition_known
  on_demasked s payload policy own d = ground (arith, text_eq_refl policy.consumer_id)

  Answer :
      (w : Draw) (payload key : Text) (policy : ConsumerPolicy) (prepared : Option RestorationState)
      → Option RestorationState
      → Result RestorationState
      → Type 0
  Answer w payload key policy prepared current (ok s') =
      Step w payload key policy prepared current s'
  Answer w payload key policy prepared current (err e) = Unit

  known-Answer :
      (w : Draw) (payload key : Text) (policy : ConsumerPolicy) (prepared : Option RestorationState)
      (s : RestorationState)
      → Answer w payload key policy prepared (some s) (transition_known env s payload policy)
  unfolding Answer demask_state
  known-Answer w payload key policy prepared s =
      elim (Bool-cases (text_eq s.consumer_id policy.consumer_id)) [
        | inr other ↦ unfold transition_known in rw (other, transition_known) tt
        | inl own ↦ elim (status-cases s.state) [
          | inl m ↦
              rw (on_masked s payload policy (equal own) m)
                (elim (Bool-cases (text_eq (hash_payload env payload) s.original_hash)) [
                  | inl same ↦ simp same (masked_again s (equal own) m (equal same))
                  | inr new ↦ simp new (elim (Bool-cases (text_eq payload s.masked_text)) [
                    | inr differs ↦ simp differs tt
                    | inl back ↦ simp back (elim (Bool-cases policy.demasking_enabled) [
                      | inr differs ↦ simp differs tt
                      | inl can ↦
                          simp can (demasked_first s (equal own) m (unequal new) (equal back) can)
                    ])
                  ])
                ])
          | inr d ↦
              rw (on_demasked s payload policy (equal own) d)
                (elim (Bool-cases (text_eq payload s.masked_text)) [
                  | inr differs ↦ simp differs tt
                  | inl back ↦ simp back (demasked_again s (equal own) d (equal back))
                ])
        ]
      ]

  from_Answer :
      (w : Draw) (payload key : Text) (policy : ConsumerPolicy)
      (prepared current : Option RestorationState) (r : Result RestorationState)
      (s' : RestorationState)
      → Answer w payload key policy prepared current r
      → r ≡ ok s'
      → Step w payload key policy prepared current s'
  unfolding Answer
  from_Answer w payload key policy prepared current (ok s) s' a h = simp (← ok_injective h) a
  from_Answer w payload key policy prepared current (err e) s' a h = absurd (ground arith)

  transition_state_sound :
      (w : Draw) (payload key : Text) (policy : ConsumerPolicy)
      (prepared current : Option RestorationState) (s' : RestorationState)
      → transition_state env w current payload key policy prepared ≡ ok s'
      → Step w payload key policy prepared current s'
  unfolding transition_state
  transition_state_sound w payload key policy prepared (some s) s' h =
      from_Answer w payload key policy prepared (some s) (transition_known env s payload policy) s'
        (known-Answer w payload key policy prepared s) h
  transition_state_sound w payload key policy none none s' h = prepared_now s' refl h
  transition_state_sound w payload key policy (some p) none s' h =
      prepared_before s' (ap some (ok_injective h))

  true_of : {s t : Text} → s ≡ t → text_eq s t ≡ true
  true_of {s} {t} h = (text_eq_iff s t).1 h

  false_of : {s t : Text} → s ≢ t → text_eq s t ≡ false
  false_of {s} {t} h = ground (arith, text_eq_iff s t)

  transition_state_complete :
      (w : Draw) (payload key : Text) (policy : ConsumerPolicy)
      (prepared current : Option RestorationState) (s' : RestorationState)
      → Step w payload key policy prepared current s'
      → transition_state env w current payload key policy prepared ≡ ok s'
  unfolding transition_state demask_state
  transition_state_complete w payload key policy prepared _ _ (prepared_before p h) =
      rw (h, transition_state) refl
  transition_state_complete w payload key policy prepared _ _ (prepared_now p h q) =
      rw (h, transition_state) q
  transition_state_complete w payload key policy prepared _ _ (masked_again s own m same) =
      on_masked s payload policy own m ∙ simp (same, text_eq_refl s.original_hash)
  transition_state_complete w payload key policy prepared _ _
        (demasked_first s own m new back can) =
      on_masked s payload policy own m ∙ simp (false_of new) (simp (true_of back, can))
  transition_state_complete w payload key policy prepared _ _ (demasked_again s own d back) =
      on_demasked s payload policy own d ∙ simp (true_of back)

  -- `_transition` gives a state exactly when the lifecycle has a step to it.
  pub transition_state-Step :
      (w : Draw) (payload key : Text) (policy : ConsumerPolicy)
      (prepared current : Option RestorationState) (s' : RestorationState)
      → (transition_state env w current payload key policy prepared ≡ ok s')
        ↔ Step w payload key policy prepared current s'
  transition_state-Step w payload key policy prepared current s' = (
    transition_state_sound w payload key policy prepared current s',
    transition_state_complete w payload key policy prepared current s',
  )
