-- ===== src/Tests/Observability.antt =====
-- The theorems on app/observability at concrete inputs.
use alfa_hackaton.Prelude.{
  ℕ, ◌≡◌, refl, Option, none, some, List, [], ◌∷◌, Text, codes, text_eq, if◌then◌else◌, arith,
}
use alfa_hackaton.Core.Yaml.{null, text}
use alfa_hackaton.Observability.Logging.{LogRecord, Payload, format}
use alfa_hackaton.Observability.Logging.Fields.{format-IsSameAt}
use alfa_hackaton.Observability.Metrics.{Call, Client, Metrics, longest}
use alfa_hackaton.Observability.Metrics.Stages.{
  Timing, StageGauge, record_all, record_all-longest_of,
}
use alfa_hackaton.Http.Middleware.Counted.{Ledger, inflight_after, completed_after}

-- A registry of the calls; its gauge of a stage is what it was set to last.
abbrev pub client : Client
client = record { Registry = List Call; perform = λ call r. (none, call ∷ r) }

abbrev shown : Text → List Call → ℕ
shown j [] = 0
shown j (Call.set_stage_max stage d ∷ r) = if text_eq stage j then d else shown j r
shown j (_ ∷ r) = shown j r

abbrev gauge : StageGauge client (λ n. n ∷ [])
gauge = record { shown = shown; set = λ stage j d r. refl; observe = λ stage j d r. refl }

abbrev inflight : List Call → ℕ
inflight [] = 0
inflight (c ∷ r) = inflight_after c (inflight r)

abbrev completed : List Call → List (Text × Text × Text)
completed [] = []
completed (c ∷ r) = completed_after c (completed r)

abbrev pub ledger : Ledger client
ledger = record {
  inflight = inflight;
  completed = completed;
  inflight_lem = λ c r. refl;
  completed_lem = λ c r. refl;
}

abbrev pub no_metrics : Metrics client (λ n. n ∷ [])
no_metrics = record { registry = []; stage_max_values = [] }

abbrev timings : List Timing
timings =
    record { stage = codes "prepare"; started = 3; stopped = 8 }
    ∷ record { stage = codes "prepare"; started = 10; stopped = 12 }
    ∷ []

record_all-longest_of_example :
    (longest client
        (λ n. n ∷ [])
        (codes "prepare")
        (record_all client (λ n. n ∷ []) timings no_metrics)
      ≡ 5)
    × (shown (codes "prepare") (record_all client (λ n. n ∷ []) timings no_metrics).registry ≡ 5)
unfolding longest alfa_hackaton.Prelude.Dict.lookup text_eq
record_all-longest_of_example =
    record_all-longest_of client (λ n. n ∷ []) gauge timings no_metrics (λ j. refl)
      (codes "prepare")

abbrev dumps : Payload → Text
dumps [] = []
dumps ((k, text s) ∷ p) = s
dumps ((k, _) ∷ p) = k

-- two records that differ in their message, in an attribute that is not listed, and in a traceback
abbrev record_with : Text → LogRecord
record_with secret = record {
  created = codes "now";
  levelname = codes "INFO";
  name = codes "api";
  message = secret;
  attributes = (codes "event", text (codes "done")) ∷ (codes "payload", text secret) ∷ [];
  exc_info = some (some (codes "ValueError"), secret);
}

format-IsSameAt_example :
    format dumps (record_with (codes "a")) null ≡ format dumps (record_with (codes "b")) null
unfolding alfa_hackaton.Prelude.Dict.lookup alfa_hackaton.Prelude.text_eq
format-IsSameAt_example =
    format-IsSameAt dumps null (record_with (codes "a")) (record_with (codes "b")) refl refl refl
      (
        refl,
        (
          refl,
          (
            refl,
            (refl, (refl, (refl, (refl, (refl, (refl, (refl, (refl, (refl, (refl, tt)))))))))),
          ),
        ),
      )
      (λ q. absurd (ground arith)) refl
