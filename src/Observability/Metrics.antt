-- ===== src/Observability/Metrics.antt =====
-- app/observability/metrics.py: `Metrics` and `Timer`. Durations are natural
-- numbers of ticks of the clock, and a tick lasts a second, so that a millisecond value has 1000 of
-- its units in a tick.
pub mod Recorder
pub mod Stages
use alfa_hackaton.Prelude.{
  ℕ, ◌-◌, ◌*◌, Option, none, some, List, [], ◌∷◌, Text, text_eq, ltb, if◌then◌else◌,
}
use alfa_hackaton.Prelude.Dict.{lookup, insert}
use alfa_hackaton.Core.Errors.{Error}

-- the calls of the instruments, with their labels
pub data Call : Type 0 where
  inc_http_requests : (method path status : Text) → Call
  observe_http_request_duration : (method path : Text) → ℕ → Call
  inc_inflight_requests : Call
  dec_inflight_requests : Call
  inc_operations : (operation : Text) → Call
  observe_operation_duration : (operation : Text) → ℕ → Call
  inc_errors : (error_type : Text) → Call
  inc_detected_entities : ℕ → Call
  observe_payload_size : ℕ → Call
  observe_stage_duration : (stage : Text) → ℕ → Call
  set_stage_max : (stage : Text) → ℕ → Call

-- the registry of prometheus_client; a call may raise an exception
pub record Client : Type 1 where
  pub Registry : Type 0
  pub perform : Call → Registry → Option Error × Registry

module _ (client : Client) (text_of : ℕ → Text) where
  pub record Metrics : Type 0 where
    pub registry : client.Registry
    pub stage_max_values : List (Text × ℕ)

  -- `_safe`: what the call raises is dropped
  unfoldable pub safe : Call → Metrics → Metrics
  safe call m = record m { registry = (client.perform call m.registry).1 }

  -- `track_inflight` around a body that may raise
  unfoldable pub track_inflight {ℓ} : {A : Type ℓ} → (Metrics → A × Metrics) → Metrics → A × Metrics
  unfolding safe
  track_inflight body m =
      let (a, m') = body (safe inc_inflight_requests m) in (a, safe dec_inflight_requests m')

  unfoldable pub observe_http_request :
      (method path : Text) (status_code duration : ℕ) → Metrics → Metrics
  unfolding safe
  observe_http_request method path status_code duration m =
      safe (observe_http_request_duration method path duration)
        (safe (inc_http_requests method path (text_of status_code)) m)

  unfoldable pub record_operation : (operation : Text) (duration : ℕ) → Metrics → Metrics
  unfolding safe
  record_operation operation duration m =
      safe (observe_operation_duration operation duration) (safe (inc_operations operation) m)

  unfoldable pub record_error : (error_type : Text) → Metrics → Metrics
  unfolding safe
  record_error error_type m = safe (inc_errors error_type) m

  unfoldable pub record_entities : ℕ → Metrics → Metrics
  unfolding safe
  record_entities count m = safe (inc_detected_entities count) m

  unfoldable pub record_payload_size : ℕ → Metrics → Metrics
  unfolding safe
  record_payload_size size m = safe (observe_payload_size size) m

  -- self._stage_max_values.get(stage, 0.0)
  unfoldable pub longest : Text → Metrics → ℕ
  longest stage m = elim (lookup text_eq stage m.stage_max_values) [ none ↦ 0 | some d ↦ d ]

  -- the block under the lock
  unfoldable pub raise_max : (stage : Text) (duration : ℕ) → Metrics → Metrics
  unfolding safe longest
  raise_max stage duration m =
      if ltb (longest stage m) duration
      then safe (set_stage_max stage duration)
          (record m { stage_max_values = insert text_eq stage duration m.stage_max_values })
      else m

  unfoldable pub record_stage : (stage : Text) (duration : ℕ) → Metrics → Metrics
  unfolding safe raise_max
  record_stage stage duration m =
      raise_max stage duration (safe (observe_stage_duration stage duration) m)

-- `Timer`
unfoldable pub elapsed_ms : (started stopped : ℕ) → ℕ
elapsed_ms started stopped = (stopped - started) * 1000
