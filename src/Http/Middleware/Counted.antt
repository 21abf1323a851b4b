-- ===== src/Http/Middleware/Counted.antt =====
-- What is counted of a request.
use alfa_hackaton.Prelude.{
  ℕ, suc, ◌-◌, ◌≡◌, refl, ap, ◌∙◌, Option, some, List, ◌∷◌, Text, arith, inl, inr, Bool-cases,
}
use alfa_hackaton.Core.Errors.{Result, ok, err, error_type}
use alfa_hackaton.Http.Errors.{Response, is_domain}
use alfa_hackaton.Http.Middleware.{
  Request, World, Endpoint, answered, handled, status_of, path_of, request_id_of, observe,
}
use alfa_hackaton.Observability.Metrics.{
  Call, inc_http_requests, inc_inflight_requests, dec_inflight_requests, Client, Metrics,
  track_inflight, observe_http_request, record_error, safe,
}

-- what a call does to the number of the gauge of running requests
abbrev pub inflight_after : Call → ℕ → ℕ
inflight_after inc_inflight_requests n = suc n
inflight_after dec_inflight_requests n = n - 1
inflight_after _ n = n

-- and to the list of the completed requests
abbrev pub completed_after : Call → List (Text × Text × Text) → List (Text × Text × Text)
completed_after (inc_http_requests method path status) l = (method, path, status) ∷ l
completed_after _ l = l

back : (n : ℕ) → suc n - 1 ≡ n
back n = omega arith

module _ (client : Client) where
  -- what prometheus_client promises of its gauges and counters, where its calls do not raise
  pub record Ledger : Type 0 where
    pub inflight : client.Registry → ℕ
    pub completed : client.Registry → List (Text × Text × Text)
    pub inflight_lem :
        (c : Call) (r : client.Registry)
        → inflight (client.perform c r).1 ≡ inflight_after c (inflight r)
    pub completed_lem :
        (c : Call) (r : client.Registry)
        → completed (client.perform c r).1 ≡ completed_after c (completed r)

  module _ (ledger : Ledger) (text_of : ℕ → Text) (S : Type 0) where
    -- The two worlds agree on the gauge and on the completed requests.
    pub record IsQuiet (w w' : World client text_of S) : Type 0 where
      pub inflight : ledger.inflight w'.0.registry ≡ ledger.inflight w.0.registry
      pub completed : ledger.completed w'.0.registry ≡ ledger.completed w.0.registry

    abbrev pub IsQuietEndpoint : Endpoint client text_of S → Type 0
    IsQuietEndpoint endpoint =
        (request_id : Option Text) (request : Request) (w : World client text_of S)
        → IsQuiet w (endpoint request_id request w).1

    pub record_error-IsQuiet :
        (e : Text) (m : Metrics client text_of) (s t : S)
        → IsQuiet (m, s) (record_error client text_of e m, t)
    unfolding record_error safe
    record_error-IsQuiet e m s t = record {
      inflight = ledger.inflight_lem _ _;
      completed = ledger.completed_lem _ _;
    }

    answered-IsQuiet :
        (request_id : Option Text) (result : Result Response) (w : World client text_of S)
        → IsQuiet w (answered client text_of S request_id result w).1
    unfolding answered
    answered-IsQuiet request_id (ok r) w = record { inflight = refl; completed = refl }
    answered-IsQuiet request_id (err e) (m, s) = elim (Bool-cases (is_domain e)) [
      | inl domain ↦ rw (domain, answered) (record_error-IsQuiet (error_type e) m s s)
      | inr other ↦ rw (other, answered) (record { inflight = refl; completed = refl })
    ]

    pub handled-IsQuiet :
        (endpoint : Endpoint client text_of S)
        → IsQuietEndpoint endpoint
        → IsQuietEndpoint (handled client text_of S endpoint)
    unfolding handled
    handled-IsQuiet endpoint quiet request_id request w =
        let a =
          answered-IsQuiet request_id (endpoint request_id request w).0.1
            (endpoint request_id request w).1 in
        let q = quiet request_id request w in
        record { inflight = a.inflight ∙ q.inflight; completed = a.completed ∙ q.completed }

    -- One more request is completed, with the status, and the gauge is as before.
    pub record IsObserved (request : Request) (status : ℕ) (w w' : World client text_of S)
        : Type 0 where
      pub path : Text
      pub inflight : ledger.inflight w'.0.registry ≡ ledger.inflight w.0.registry
      pub completed :
          ledger.completed w'.0.registry
          ≡ (request.method, path, text_of status) ∷ ledger.completed w.0.registry

    -- what the application gives inside the observer
    abbrev pub inner :
        Text
        → Endpoint client text_of S
        → Request
        → World client text_of S
        → (Option Text × Result Response) × World client text_of S
    inner uuid app request (m, s) =
        app (some (request_id_of client text_of S uuid request)) request
          (safe client text_of inc_inflight_requests m, s)

    pub observe-IsObserved :
        (uuid : Text) (started stopped : ℕ) (app : Endpoint client text_of S) (request : Request)
        (w : World client text_of S)
        → IsQuietEndpoint app
        → IsObserved request
            (status_of client text_of S (inner uuid app request w).0.1)
            w
            (observe client text_of S uuid started stopped app request w).1
    unfolding observe track_inflight observe_http_request safe
    observe-IsObserved uuid started stopped app request (m, s) quiet =
        let request_id = request_id_of client text_of S uuid request in
        let inside = safe client text_of inc_inflight_requests m in
        let out = app (some request_id) request (inside, s) in
        let q = quiet (some request_id) request (inside, s) in
        record {
          path = path_of client text_of S out.0.0;
          inflight =
              ledger.inflight_lem _ _
              ∙ ledger.inflight_lem _ _
              ∙ ledger.inflight_lem _ _
              ∙ ap (λ n. n - 1) (q.inflight ∙ ledger.inflight_lem inc_inflight_requests m.registry)
              ∙ back (ledger.inflight m.registry);
          completed =
              ledger.completed_lem _ _
              ∙ ledger.completed_lem _ _
              ∙ ap
                  (λ l.
                    (
                      request.method,
                      path_of client text_of S out.0.0,
                      text_of (status_of client text_of S out.0.1),
                    )
                    ∷ l)
                  (ledger.completed_lem _ _
                    ∙ q.completed
                    ∙ ledger.completed_lem inc_inflight_requests m.registry);
        }
