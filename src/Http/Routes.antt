-- ===== src/Http/Routes.antt =====
-- app/api/routes, app/api/dependencies.py and app/api/schemas: the handlers of the routes. Pydantic's
-- check of the body answers before the handler runs; the store and the policies are arguments.
use alfa_hackaton.Prelude.{
  ℕ, Bool, true, false, Option, none, some, List, [], ◌∷◌, Text, codes, text_eq, if◌then◌else◌,
}
use alfa_hackaton.Prelude.Words.{strip}
use alfa_hackaton.Core.Errors.{Result, ok, err, ◌>>=◌}
use alfa_hackaton.Policies.{ConsumerPolicy}
use alfa_hackaton.Policies.Loader.{get_policy}
use alfa_hackaton.Detection.Engine.{Detector}
use alfa_hackaton.Http.Errors.{Response}
use alfa_hackaton.Processing.{Environment, Draw, ProcessOutcome}
use alfa_hackaton.Processing.Measured.{Timers, measured_process}
use alfa_hackaton.Observability.Metrics.{Client, Metrics}
use alfa_hackaton.Restoration.State.{RestorationState}
use alfa_hackaton.Restoration.Store.{Moment, RestorationStore}

-- `ProcessRequest`
pub record ProcessRequest : Type 0 where
  pub payload : Text
  pub payload_id : Text

-- min_length=1 of both fields
unfoldable pub is_valid_body : ProcessRequest → Bool
is_valid_body body = elim body.payload [
  | [] ↦ false
  | _ ∷ _ ↦ elim body.payload_id [ [] ↦ false | _ ∷ _ ↦ true ]
]

-- `get_consumer_id`; isspace and lower are the interpreter's
unfoldable pub get_consumer_id :
    (is_space : ℕ → Bool) (lower : Text → Text) (default_consumer_id : Text) → Option Text → Text
get_consumer_id is_space lower default_consumer_id none = default_consumer_id
get_consumer_id is_space lower default_consumer_id (some header) =
    let normalized = lower (strip is_space header) in
    if text_eq normalized [] then default_consumer_id else normalized

-- the detectors of `get_detection_engine`
unfoldable pub detectors_of :
    (detection_llm_enabled : Bool) → (regex llm : Detector) → List Detector
detectors_of detection_llm_enabled regex llm =
    if detection_llm_enabled then regex ∷ llm ∷ [] else regex ∷ []

-- `health`
unfoldable pub health : Response
health = record { status = 200; headers = []; content = (codes "status", codes "ok") ∷ [] }

unfoldable pub probe_result : Result ConsumerPolicy → Result (Option RestorationState) → Response
probe_result (ok _) (ok _) = record {
  status = 200;
  headers = [];
  content = (codes "status", codes "ready") ∷ [];
}
probe_result _ _ = record {
  status = 503;
  headers = [];
  content = (codes "status", codes "not_ready") ∷ [];
}

module _ (env : Environment) (r : RestorationStore) (policies : List (Text × ConsumerPolicy)) where
  -- `readiness`: the store is not asked where the policy is missing
  unfoldable pub readiness : (now : ℕ) → r.Store → Response × r.Store
  unfolding probe_result
  readiness now m =
      let policy = get_policy (codes "default") policies in
      let (found, m') = r.get now (codes "__readiness_probe__") m in
      (probe_result policy found, elim policy [ ok _ ↦ m' | err _ ↦ m ])

  -- the answer to an outcome
  unfoldable pub process_response : ProcessOutcome → Response
  process_response outcome = record {
    status = 200;
    headers = [];
    content = (codes "result", outcome.result) ∷ [];
  }

  module _ (client : Client) (text_of : ℕ → Text) where
    -- `process`, the route
    unfoldable pub process_route :
        (timers : Timers) (v w : Draw)
        → (first : ℕ) → Moment
        → (consumer_id : Text) → ProcessRequest
        → Metrics client text_of × r.Store
        → Result Response × (Metrics client text_of × r.Store)
    process_route timers v w first t consumer_id body m = elim (get_policy consumer_id policies) [
      | err e ↦ (err e, m)
      | ok policy ↦
          let (outcome, m') =
            measured_process client text_of env r timers v w first t body.payload body.payload_id
              policy m in
          (outcome >>= λ o. ok (process_response o), m')
    ]
