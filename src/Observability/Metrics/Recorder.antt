-- ===== src/Observability/Metrics/Recorder.antt =====
-- app/observability/metrics.py: `MetricsRecorder`, the facade that takes durations in milliseconds.
use alfa_hackaton.Prelude.{ℕ, ◌/◌, Text}
use alfa_hackaton.Observability.Metrics
use alfa_hackaton.Observability.Metrics.{Client, Metrics, record_operation}

module _ (client : Client) (text_of : ℕ → Text) where
  unfoldable pub record_request :
      (operation : Text) (duration_ms : ℕ) → Metrics client text_of → Metrics client text_of
  unfolding record_operation
  record_request operation duration_ms m =
      record_operation client text_of operation (duration_ms / 1000) m

  unfoldable pub record_error :
      (error_type : Text) → Metrics client text_of → Metrics client text_of
  record_error error_type m = Metrics.record_error client text_of error_type m

  unfoldable pub record_entities : ℕ → Metrics client text_of → Metrics client text_of
  record_entities count m = Metrics.record_entities client text_of count m

  unfoldable pub record_payload_size : ℕ → Metrics client text_of → Metrics client text_of
  record_payload_size size m = Metrics.record_payload_size client text_of size m

  unfoldable pub record_stage :
      (stage : Text) (duration_ms : ℕ) → Metrics client text_of → Metrics client text_of
  record_stage stage duration_ms m =
      Metrics.record_stage client text_of stage (duration_ms / 1000) m
