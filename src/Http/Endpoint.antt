-- ===== src/Http/Endpoint.antt =====
-- The route of the service as an endpoint of the application.
use alfa_hackaton.Prelude.{
  ℕ, ◌≡◌, refl, ◌∙◌, some, List, [], ◌∷◌, Text, codes, ltb, inl, inr, Bool-cases,
}
use alfa_hackaton.Core.Errors.{Result, ok, err, Result-cases}
use alfa_hackaton.Http.Middleware.{Endpoint}
use alfa_hackaton.Http.Middleware.Counted.{Ledger, IsQuietEndpoint, inflight_after, completed_after}
use alfa_hackaton.Http.Routes.{ProcessRequest, process_route}
use alfa_hackaton.Observability.Metrics.{Call, Client, Metrics, safe, raise_max, longest}
use alfa_hackaton.Observability.Metrics.Recorder.{
  record_request, record_entities, record_payload_size, record_stage,
}
use alfa_hackaton.Policies.{ConsumerPolicy}
use alfa_hackaton.Policies.Loader.{get_policy}
use alfa_hackaton.Processing.{Environment, Draw, ProcessOutcome}
use alfa_hackaton.Processing.Measured.{
  Timers, record_stages, record_outcome, record_result, measured_process,
}
use alfa_hackaton.Restoration.Store.{Moment, RestorationStore}

module _ (client : Client) (ledger : Ledger client) (text_of : ℕ → Text) (S : Type 0) where
  -- The second registry shows the running and the completed requests of the first.
  abbrev Quiet : client.Registry → client.Registry → Type 0
  Quiet r r' = (ledger.inflight r' ≡ ledger.inflight r) × (ledger.completed r' ≡ ledger.completed r)

  Quiet-trans : (a b c : client.Registry) → Quiet a b → Quiet b c → Quiet a c
  Quiet-trans a b c (p, q) (p', q') = (p' ∙ p, q' ∙ q)

  perform-Quiet :
      (c : Call) (r : client.Registry)
      → ((n : ℕ) → inflight_after c n ≡ n)
      → ((l : List (Text × Text × Text)) → completed_after c l ≡ l)
      → Quiet r (client.perform c r).1
  perform-Quiet c r p q = (ledger.inflight_lem c r ∙ p _, ledger.completed_lem c r ∙ q _)

  raise_max-Quiet :
      (stage : Text) (d : ℕ) (m : Metrics client text_of)
      → Quiet m.registry (raise_max client text_of stage d m).registry
  unfolding raise_max safe
  raise_max-Quiet stage d m = elim (Bool-cases (ltb (longest client text_of stage m) d)) [
    | inl longer ↦
        simp longer (perform-Quiet (Call.set_stage_max stage d) m.registry (λ n. refl) (λ l. refl))
    | inr other ↦ simp other (refl, refl)
  ]

  record_stage-Quiet :
      (stage : Text) (d : ℕ) (m : Metrics client text_of)
      → Quiet m.registry (record_stage client text_of stage d m).registry
  unfolding record_stage alfa_hackaton.Observability.Metrics.record_stage safe
  record_stage-Quiet stage d m =
      Quiet-trans m.registry _ _
        (perform-Quiet (Call.observe_stage_duration stage _) m.registry (λ n. refl) (λ l. refl))
        (raise_max-Quiet stage _ (safe client text_of (Call.observe_stage_duration stage _) m))

  record_stages-Quiet :
      (l : List (Text × ℕ)) (m : Metrics client text_of)
      → Quiet m.registry (record_stages client text_of l m).registry
  unfolding record_stages
  record_stages-Quiet [] m = (refl, refl)
  record_stages-Quiet ((stage, d) ∷ l) m =
      Quiet-trans m.registry _ _ (record_stage-Quiet stage d m) (record_stages-Quiet l _)

  record_request-Quiet :
      (operation : Text) (d : ℕ) (m : Metrics client text_of)
      → Quiet m.registry (record_request client text_of operation d m).registry
  unfolding record_request alfa_hackaton.Observability.Metrics.record_operation safe
  record_request-Quiet operation d m =
      Quiet-trans m.registry _ _
        (perform-Quiet (Call.inc_operations operation) m.registry (λ n. refl) (λ l. refl))
        (perform-Quiet (Call.observe_operation_duration operation _) _ (λ n. refl) (λ l. refl))

  record_entities-Quiet :
      (n : ℕ) (m : Metrics client text_of)
      → Quiet m.registry (record_entities client text_of n m).registry
  unfolding record_entities alfa_hackaton.Observability.Metrics.record_entities safe
  record_entities-Quiet n m =
      perform-Quiet (Call.inc_detected_entities n) m.registry (λ n. refl) (λ l. refl)

  record_payload_size-Quiet :
      (n : ℕ) (m : Metrics client text_of)
      → Quiet m.registry (record_payload_size client text_of n m).registry
  unfolding record_payload_size alfa_hackaton.Observability.Metrics.record_payload_size safe
  record_payload_size-Quiet n m =
      perform-Quiet (Call.observe_payload_size n) m.registry (λ n. refl) (λ l. refl)

  record_result-Quiet :
      (payload : Text) (d : ℕ) (stages : List (Text × ℕ)) (x : Result ProcessOutcome)
      (m : Metrics client text_of)
      → Quiet m.registry (record_result client text_of payload d stages x m).registry
  unfolding record_result record_outcome
  record_result-Quiet payload d stages (err e) m = (refl, refl)
  record_result-Quiet payload d stages (ok o) m =
      Quiet-trans m.registry _ _ (record_request-Quiet _ d m) (
        Quiet-trans _ _ _ (record_entities-Quiet o.entity_count _)
          (Quiet-trans _ _ _ (record_payload_size-Quiet _ _) (record_stages-Quiet stages _)))

module _ (client : Client) (ledger : Ledger client) (text_of : ℕ → Text) (env : Environment)
    (r : RestorationStore) (policies : List (Text × ConsumerPolicy)) (timers : Timers) (v w : Draw)
    (first : ℕ) (t : Moment) (consumer_id : Text) (body : ProcessRequest) where
  -- the route under its path
  abbrev pub endpoint : Endpoint client text_of r.Store
  endpoint request_id request m =
      let (result, m') =
        process_route env r policies client text_of timers v w first t consumer_id body m in
      ((some (codes "/process"), result), m')

  -- The service leaves the gauge of running requests and the count of the completed ones alone.
  pub endpoint-IsQuietEndpoint : IsQuietEndpoint client ledger text_of r.Store endpoint
  unfolding process_route measured_process
  endpoint-IsQuietEndpoint request_id request (m, store) =
      elim (Result-cases (get_policy consumer_id policies)) [
        | inr (e, q) ↦ rw (q, process_route) (record { inflight = refl; completed = refl })
        | inl (policy, q) ↦
            let (p, c) =
              record_result-Quiet client ledger text_of r.Store body.payload timers.elapsed_ms _ _
                m in
            rw (q, process_route) (record { inflight = p; completed = c })
      ]
