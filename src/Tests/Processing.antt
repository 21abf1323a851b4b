-- ===== src/Tests/Processing.antt =====
-- The theorems on app/processing at concrete inputs.
use alfa_hackaton.Prelude.{
  ℕ, ◌≡◌, ◌⊎◌, ◌↔◌, refl, inl, inr, none, some, [], ◌∷◌, ◌++◌, arith, Text, codes,
}
use alfa_hackaton.Core.Enums.{mask, demask, masked}
use alfa_hackaton.Core.Errors.{Result, ok, err}
use alfa_hackaton.Restoration.State.{RestorationState, to_json}
use alfa_hackaton.Restoration.Memory.Invariant.{IsValid, IsValid-later}
use alfa_hackaton.Restoration.Memory.Views.{view}
use alfa_hackaton.Processing.Lifecycle.{Step, transition_state-Step}
use alfa_hackaton.Processing.Service.{Processed, process-Processed}
use alfa_hackaton.Restoration.Memory.{MemoryStore, capacity_exceeded}
use alfa_hackaton.Restoration.Memory.Instance.{memory_store, memory_promise}
use alfa_hackaton.Processing.{
  ProcessOutcome, process, transition_state, prepare_mask, outcome, state_key,
}
use alfa_hackaton.Processing.Key.{state_key-injective}
use alfa_hackaton.Processing.RoundTrip.{process-process}
use alfa_hackaton.Processing.Retry.{process-retry, process-discloses}
use alfa_hackaton.Tests.World.{
  codec, empty_store, empty_store-IsValid, at, at-IsMoment, payload, payload_id, environment, draw,
  consumer, prepared, consumer_key,
}

prepares : prepare_mask environment draw payload consumer_key consumer ≡ ok prepared
unfolding prepare_mask alfa_hackaton.Detection.Engine.detect
    alfa_hackaton.Detection.Engine.candidates_of alfa_hackaton.Detection.Engine.resolve
    alfa_hackaton.Masking.Engine.mask alfa_hackaton.Prelude.Sort.sort_by
    alfa_hackaton.Prelude.Sort.insert_by alfa_hackaton.Masking.Engine.select_spans
    alfa_hackaton.Masking.Engine.valid_of alfa_hackaton.Masking.Engine.is_valid
    alfa_hackaton.Masking.Engine.mask_from alfa_hackaton.Masking.Engine.select_from
    alfa_hackaton.Masking.Engine.start_le alfa_hackaton.Masking.Engine.longest_first
    alfa_hackaton.Masking.Engine.is_blocked alfa_hackaton.Masking.Engine.strategy_of
    alfa_hackaton.Detection.Resolution.resolve_spans
    alfa_hackaton.Detection.Resolution.resolve_sorted alfa_hackaton.Detection.Resolution.best_of
    alfa_hackaton.Detection.Resolution.keep_best alfa_hackaton.Detection.Resolution.resolve_from
    alfa_hackaton.Detection.Resolution.better alfa_hackaton.Detection.Resolution.key_eq
    alfa_hackaton.Detection.Resolution.overlaps alfa_hackaton.Detection.Resolution.priority
    alfa_hackaton.Detection.Resolution.span_le alfa_hackaton.Prelude.Dict.lookup
    alfa_hackaton.Prelude.Dict.insert alfa_hackaton.Core.Enums.type_eq
    alfa_hackaton.Core.Enums.type_index alfa_hackaton.Core.Enums.value alfa_hackaton.Prelude.text_eq
    alfa_hackaton.Prelude.slice alfa_hackaton.Masking.Strategies.apply_strategy
    alfa_hackaton.Masking.Context.context_allows alfa_hackaton.Masking.Context.resolve_context_rules
    alfa_hackaton.Masking.Context.or_default alfa_hackaton.Masking.Strategies.mask_all_alnum
    alfa_hackaton.Masking.Strategies.substitute alfa_hackaton.Processing.distinct
    alfa_hackaton.Processing.enabled_of alfa_hackaton.Processing.hash_payload
    alfa_hackaton.Processing.is_enabled alfa_hackaton.Processing.is_member
    alfa_hackaton.Processing.text_le alfa_hackaton.Processing.type_names
    alfa_hackaton.Masking.Context.intersects alfa_hackaton.Masking.Context.add_rules
    alfa_hackaton.Prelude.Int.◌-ℤ◌
prepares = refl

abbrev first_call : Result ProcessOutcome × MemoryStore codec.Token
first_call =
    process environment (memory_store codec) draw draw 0 (at 1) payload payload_id consumer
      empty_store

process-process_example :
    (first_call.0 ≡ err capacity_exceeded)
    ⊎ (first_call.0 ≡ ok (outcome (codes "id ****") mask prepared))
      × (o : ProcessOutcome) × ((process environment
            (memory_store codec)
            draw
            draw
            5
            (at 6)
            (codes "id ****")
            payload_id
            consumer
            first_call.1).0
          ≡ ok o)
      × (o.result ≡ payload)
unfolding memory_promise alfa_hackaton.Prelude.Dict.lookup alfa_hackaton.Processing.is_missing
    alfa_hackaton.Processing.hash_payload alfa_hackaton.Prelude.text_eq state_key
process-process_example =
    process-process (memory_promise codec 100) environment payload_id consumer draw draw draw draw 0
      5 (at 1) (at 6) payload empty_store prepared (at-IsMoment 1) (at-IsMoment 6) (omega arith)
      (omega arith) (omega arith) (omega arith) (empty_store-IsValid, refl) refl refl refl (λ e. e)
      refl refl prepares

state_key-injective_example : (consumer.consumer_id ≡ codes "c") × (payload_id ≡ codes "p1")
state_key-injective_example =
    state_key-injective environment (codes "c") (codes "p1") (codes "c") (codes "p1") refl (λ e. e)
      refl

abbrev seeded : MemoryStore codec.Token
seeded = record {
  ttl_seconds = 100;
  max_entries = 2;
  entries = (consumer_key, (101, (7, to_json codec prepared))) ∷ [];
}

seeded-IsValid : IsValid 1 seeded
unfolding alfa_hackaton.Prelude.Dict.lookup
seeded-IsValid = record {
  entries = record { distinct = (refl, tt); ordered = (tt, tt); bounded = (omega arith, tt) };
  fits = omega arith;
}

abbrev returned : ProcessOutcome
returned = outcome payload demask prepared

second_answer :
    (process environment
      (memory_store codec)
      draw
      draw
      5
      (at 6)
      (codes "id ****")
      payload_id
      consumer
      seeded).0
    ≡ ok returned
unfolding process alfa_hackaton.Processing.is_missing alfa_hackaton.Processing.prepare_if_absent
    alfa_hackaton.Processing.proceed alfa_hackaton.Processing.finish
    alfa_hackaton.Processing.callback alfa_hackaton.Processing.transition_state
    alfa_hackaton.Processing.transition_known alfa_hackaton.Processing.demask_state
    alfa_hackaton.Processing.hash_payload alfa_hackaton.Processing.outcome_from_state
    alfa_hackaton.Processing.outcome state_key alfa_hackaton.Restoration.Memory.get
    alfa_hackaton.Restoration.Memory.transition alfa_hackaton.Restoration.Memory.read
    alfa_hackaton.Restoration.Memory.check alfa_hackaton.Restoration.Memory.evict_expired
    alfa_hackaton.Restoration.Memory.decode alfa_hackaton.Restoration.Memory.after_callback
    alfa_hackaton.Restoration.Memory.commit alfa_hackaton.Restoration.Memory.write
    alfa_hackaton.Restoration.Memory.has_no_room alfa_hackaton.Restoration.Memory.refresh
    alfa_hackaton.Restoration.Memory.contains alfa_hackaton.Restoration.Memory.move_to_end
    alfa_hackaton.Restoration.State.from_json alfa_hackaton.Restoration.State.from_fields
    alfa_hackaton.Restoration.State.to_json alfa_hackaton.Restoration.State.to_fields
    alfa_hackaton.Restoration.State.texts alfa_hackaton.Restoration.State.pairs
    alfa_hackaton.Restoration.State.optional_date alfa_hackaton.Restoration.State.field_of
    alfa_hackaton.Restoration.State.as_text alfa_hackaton.Restoration.State.as_number
    alfa_hackaton.Restoration.State.read_texts alfa_hackaton.Restoration.State.read_pair
    alfa_hackaton.Restoration.State.read_pairs alfa_hackaton.Restoration.State.as_items
    alfa_hackaton.Restoration.State.as_fields alfa_hackaton.Restoration.State.read_status
    alfa_hackaton.Restoration.State.field_or alfa_hackaton.Restoration.State.read_date
    alfa_hackaton.Restoration.State.read_optional_date alfa_hackaton.Core.Yaml.get
    alfa_hackaton.Core.Yaml.truthy alfa_hackaton.Core.Enums.status_value
    alfa_hackaton.Core.Enums.parse_status alfa_hackaton.Prelude.text_eq
    alfa_hackaton.Prelude.Dict.lookup alfa_hackaton.Prelude.Dict.insert
    alfa_hackaton.Prelude.Dict.remove
second_answer = refl

process-discloses_example :
    (s : RestorationState) × (view codec 6 (state_key environment (codes "c") payload_id) seeded
      ≡ ok (some s))
    × (s.consumer_id ≡ codes "c")
    × (codes "id ****" ≡ s.masked_text)
    × (returned.result ≡ s.original_text)
unfolding memory_promise outcome
process-discloses_example =
    process-discloses (memory_promise codec 100) environment (codes "id ****") payload_id consumer
      draw draw 5 (at 6) seeded returned (at-IsMoment 6) (omega arith)
      (IsValid-later seeded (omega arith) seeded-IsValid, refl) second_answer refl

-- the store after the first call
abbrev answered_store : MemoryStore codec.Token
answered_store =
    (process environment (memory_store codec) draw draw 5 (at 6) (codes "id ****") payload_id
      consumer seeded).1

answered_store-IsValid : (memory_promise codec 100).IsValid 7 answered_store
unfolding memory_promise
answered_store-IsValid =
    (memory_promise codec 100).promise.IsValid-later answered_store (omega arith)
      (process-Processed (memory_promise codec 100) environment draw draw (codes "id ****")
        payload_id consumer (at 6) 5 seeded (at-IsMoment 6) (omega arith)
        (IsValid-later seeded (omega arith) seeded-IsValid, refl)).0

-- Between the two calls the store is read under another key.
process-retry_example :
    (process environment
      (memory_store codec)
      draw
      draw
      7
      (at 8)
      (codes "id ****")
      payload_id
      consumer
      ((memory_store codec).get 7 (codes "other") answered_store).1).0
    ≡ ok returned
unfolding memory_promise
process-retry_example =
    let (got, valid, same) =
      (memory_promise codec 100).promise.get_lem 7 (codes "other") answered_store
        answered_store-IsValid in
    process-retry (memory_promise codec 100) environment (codes "id ****") payload_id consumer draw
      draw draw draw 5 7 (at 6) (at 8) seeded
      ((memory_store codec).get 7 (codes "other") answered_store).1 returned (at-IsMoment 6)
      (at-IsMoment 8) (omega arith) (omega arith) (omega arith) (omega arith)
      (IsValid-later seeded (omega arith) seeded-IsValid, refl) second_answer valid
      (λ u p. same u _ p)

process-Processed_example :
    (memory_promise codec 100).IsValid 6
      (process environment
        (memory_store codec)
        draw
        draw
        5
        (at 6)
        payload
        payload_id
        consumer
        seeded).1
    × Processed
        (memory_promise codec 100)
        environment
        draw
        draw
        payload
        payload_id
        consumer
        (at 6)
        seeded
        (process environment
          (memory_store codec)
          draw
          draw
          5
          (at 6)
          payload
          payload_id
          consumer
          seeded)
unfolding memory_promise
process-Processed_example =
    process-Processed (memory_promise codec 100) environment draw draw payload payload_id consumer
      (at 6) 5 seeded (at-IsMoment 6) (omega arith)
      (IsValid-later seeded (omega arith) seeded-IsValid, refl)

transition_state-Step_example :
    (transition_state environment draw (some prepared) payload consumer_key consumer none
      ≡ ok prepared)
    ↔ Step environment draw payload consumer_key consumer none (some prepared) prepared
transition_state-Step_example =
    transition_state-Step environment draw payload consumer_key consumer none (some prepared)
      prepared
