-- ===== src/Processing/Measured.antt =====
-- app/processing/process_service.py: what `process` records in the metrics after a call that gave an
-- outcome. The timers' milliseconds are arguments.
use alfa_hackaton.Prelude.{
  ℕ, ◌+◌, Option, none, some, List, [], ◌∷◌, Text, codes, ltb, if◌then◌else◌,
}
use alfa_hackaton.Core.Enums.{operation_value}
use alfa_hackaton.Core.Errors.{Result, ok, err}
use alfa_hackaton.Observability.Metrics.{Client, Metrics}
use alfa_hackaton.Observability.Metrics.Recorder.{
  record_request, record_entities, record_payload_size, record_stage,
}
use alfa_hackaton.Policies.{ConsumerPolicy}
use alfa_hackaton.Processing.{Environment, Draw, ProcessOutcome, process, state_key}
use alfa_hackaton.Restoration.State.{RestorationState}
use alfa_hackaton.Restoration.Store.{Moment, RestorationStore}

-- what the timers of a call measure
pub record Timers : Type 0 where
  pub lookup_ms : ℕ
  pub prepare_ms : ℕ
  pub transition_ms : ℕ
  pub elapsed_ms : ℕ

-- `stage_timings`: the preparation has one only where no state was found
unfoldable pub stage_timings : Option RestorationState → Timers → List (Text × ℕ)
stage_timings none t =
    (codes "state_lookup_ms", t.lookup_ms)
    ∷ (codes "prepare_ms", t.prepare_ms)
    ∷ (codes "transition_ms", t.transition_ms)
    ∷ []
stage_timings (some _) t =
    (codes "state_lookup_ms", t.lookup_ms) ∷ (codes "transition_ms", t.transition_ms) ∷ []

-- len(payload.encode("utf-8"))
unfoldable pub utf8_length : Text → ℕ
utf8_length [] = 0
utf8_length (c ∷ s) =
    (if ltb c 128 then 1 else if ltb c 2048 then 2 else if ltb c 65536 then 3 else 4)
    + utf8_length s

module _ (client : Client) (text_of : ℕ → Text) where
  unfoldable pub record_stages : List (Text × ℕ) → Metrics client text_of → Metrics client text_of
  record_stages [] m = m
  record_stages ((stage, duration_ms) ∷ l) m =
      record_stages l (record_stage client text_of stage duration_ms m)

  unfoldable pub record_outcome :
      (payload : Text) (elapsed_ms : ℕ) (stages : List (Text × ℕ))
      → ProcessOutcome
      → Metrics client text_of
      → Metrics client text_of
  record_outcome payload elapsed_ms stages outcome m = record_stages stages (
      record_payload_size client text_of (utf8_length payload) (
        record_entities client text_of outcome.entity_count
          (record_request client text_of (operation_value outcome.operation) elapsed_ms m)))

  -- A call that raises records nothing.
  unfoldable pub record_result :
      (payload : Text) (elapsed_ms : ℕ) (stages : List (Text × ℕ))
      → Result ProcessOutcome
      → Metrics client text_of
      → Metrics client text_of
  record_result payload elapsed_ms stages (ok outcome) m =
      record_outcome payload elapsed_ms stages outcome m
  record_result payload elapsed_ms stages (err e) m = m

  -- what the first lookup found, where it did not raise
  unfoldable pub found_of : Result (Option RestorationState) → Option RestorationState
  found_of (ok found) = found
  found_of (err e) = none

  -- `process` with its metrics
  unfoldable pub measured_process :
      (env : Environment) (r : RestorationStore) (timers : Timers) (v w : Draw) (first : ℕ)
      → Moment
      → (payload payload_id : Text) → ConsumerPolicy
      → Metrics client text_of × r.Store
      → Result ProcessOutcome × (Metrics client text_of × r.Store)
  measured_process env r timers v w first t payload payload_id policy (m, store) =
      let found = (r.get first (state_key env policy.consumer_id payload_id) store).0 in
      let (outcome, store') = process env r v w first t payload payload_id policy store in
      (
        outcome,
        (
          record_result payload timers.elapsed_ms (stage_timings (found_of found) timers) outcome m,
          store',
        ),
      )
