-- ===== src/Http/Middleware/Observed.antt =====
-- What becomes of a request, and what is answered.
use alfa_hackaton.Prelude.{
  ℕ, ◌≡◌, refl, sym, ap, ◌∙◌, Bool, true, false, Option, none, some, List, ◌∷◌, Text, codes,
  text_eq, text_eq_iff, text_eq_refl, if◌then◌else◌, arith, inl, inr, Bool-cases,
}
use alfa_hackaton.Prelude.Dict.{lookup, insert, lookup-insert}
use alfa_hackaton.Core.Errors.{
  Error, Result, ok, err, error_type, status_code, proxy_error, consumer_not_allowed,
  invalid_payload, bad_request, restoration_state_not_found, processing_error, service_overloaded,
  service_unavailable, index_error, value_error, key_error, unexpected,
}
use alfa_hackaton.Core.RateLimit.{Limiter, allow}
use alfa_hackaton.Http.Errors.{Response, is_domain}
use alfa_hackaton.Http.Errors.Answers.{respond-Tells}
use alfa_hackaton.Http.Middleware.{
  Request, World, Endpoint, answered, handled, status_of, set_request_id, request_id_of, observe,
  last_answer, serve_http, pass_through, serve, is_counted, too_many, rate_limit,
}
use alfa_hackaton.Observability.Logging.{is_request_id}
use alfa_hackaton.Observability.Logging.RequestId.{normalize_request_id_lem}
use alfa_hackaton.Observability.Metrics.{Client, track_inflight}
use alfa_hackaton.Http.Middleware.Counted.{
  Ledger, IsQuietEndpoint, observe-IsObserved, handled-IsQuiet, record_error-IsQuiet, IsObserved,
  inner,
}

lookup-inserted :
    (k v : Text) (d : List (Text × Text)) → lookup text_eq k (insert text_eq k v d) ≡ some v
lookup-inserted k v d =
    lookup-insert text_eq text_eq_iff k k v d
    ∙ ap (λ b. if b then some v else lookup text_eq k d) (text_eq_refl k)

if_either :
    {A : Type 0} (P : A → Type 0) (b : Bool) (x y : A)
    → (b ≡ true → P x)
    → (b ≡ false → P y)
    → P (if b then x else y)
if_either P true x y f g = f refl
if_either P false x y f g = g refl

is_domain-status_code : (e : Error) → is_domain e ≡ false → status_code e ≡ 500
unfolding is_domain status_code
is_domain-status_code index_error h = refl
is_domain-status_code value_error h = refl
is_domain-status_code key_error h = refl
is_domain-status_code (unexpected s) h = refl
is_domain-status_code (proxy_error s) h = refl
is_domain-status_code (consumer_not_allowed s) h = absurd (ground arith)
is_domain-status_code (invalid_payload s) h = absurd (ground arith)
is_domain-status_code (bad_request s) h = absurd (ground arith)
is_domain-status_code (restoration_state_not_found s) h = absurd (ground arith)
is_domain-status_code (processing_error s) h = refl
is_domain-status_code (service_overloaded s n) h = absurd (ground arith)
is_domain-status_code (service_unavailable s) h = absurd (ground arith)

module _ (client : Client) (ledger : Ledger client) (text_of : ℕ → Text) (S : Type 0) where
  -- The answer carries an identifier that the pattern of the identifiers accepts.
  abbrev pub IsNamed : (uuid : Text) → Request → Response → Type 0
  IsNamed uuid request r =
      (lookup text_eq (codes "x-request-id") r.headers
        ≡ some (request_id_of client text_of S uuid request))
      × (is_request_id (request_id_of client text_of S uuid request) ≡ true)

  -- What becomes of an HTTP request: the limit refuses it, and then nothing else notices it; or it is
  -- answered, and counted once.
  pub data ServedHttp (now : ℕ) (uuid : Text) (request : Request) (l : Limiter)
      (w : World client text_of S) (out : Response × (Limiter × World client text_of S))
      : Type 0 where
    refused :
        is_counted request ≡ true
        → (allow now (codes "global") l).0 ≡ false
        → out.0 ≡ too_many
        → out.1.1 ≡ w
        → ServedHttp now uuid request l w out
    answered_once :
        (is_counted request ≡ true → (allow now (codes "global") l).0 ≡ true)
        → IsNamed uuid request out.0
        → IsObserved client ledger text_of S request out.0.status w out.1.1
        → ServedHttp now uuid request l w out

  -- What is left for the last handler is answered with 500.
  abbrev pub IsInternal : Result Response → Type 0
  IsInternal result = (e : Error) → result ≡ err e → status_code e ≡ 500

  answered-IsInternal :
      (request_id : Option Text) (result : Result Response) (w : World client text_of S)
      → IsInternal (answered client text_of S request_id result w).0
  unfolding answered
  answered-IsInternal request_id (ok r) w e q = absurd (ground arith)
  answered-IsInternal request_id (err f) (m, s) e q = ground (arith, is_domain-status_code f)

  last_answer-Served :
      (now : ℕ) (uuid : Text) (request : Request) (l l' : Limiter) (w w' : World client text_of S)
      (result : Result Response)
      → is_request_id uuid ≡ true
      → (is_counted request ≡ true → (allow now (codes "global") l).0 ≡ true)
      → IsInternal result
      → IsObserved client ledger text_of S request (status_of client text_of S result) w w'
      → ServedHttp now uuid request l w (
          last_answer client text_of S
            (some (request_id_of client text_of S uuid request))
            (set_request_id client text_of S (request_id_of client text_of S uuid request) result)
            (l', w'))
  unfolding last_answer set_request_id status_of request_id_of
  last_answer-Served now uuid request l l' w w' (ok r) good may internal seen =
      answered_once may
        (
          lookup-inserted (codes "x-request-id") (request_id_of client text_of S uuid request)
              r.headers,
          normalize_request_id_lem uuid _ good,
        )
        seen
  last_answer-Served now uuid request l l' w (m, s) (err e) good may internal seen =
      let id = request_id_of client text_of S uuid request in
      let told = respond-Tells text_of (some id) e in
      let counted = record_error-IsQuiet client ledger text_of S (error_type e) m s s in
      answered_once may (told.request, normalize_request_id_lem uuid _ good)
        (record {
          path = seen.path;
          inflight = counted.inflight ∙ seen.inflight;
          completed =
              counted.completed
              ∙ seen.completed
              ∙ ap (λ n. (request.method, seen.path, text_of n) ∷ ledger.completed w.0.registry)
                  (sym (told.status ∙ internal e refl));
        })

  handled-IsInternal :
      (endpoint : Endpoint client text_of S) (request_id : Option Text) (request : Request)
      (w : World client text_of S)
      → IsInternal (handled client text_of S endpoint request_id request w).0.1
  unfolding handled
  handled-IsInternal endpoint request_id request w =
      answered-IsInternal request_id (endpoint request_id request w).0.1
        (endpoint request_id request w).1

  -- the observed application, let through by the limit
  observe-Served :
      (now : ℕ) (uuid : Text) (started stopped : ℕ) (endpoint : Endpoint client text_of S)
      (request : Request) (l l' : Limiter) (w : World client text_of S)
      → IsQuietEndpoint client ledger text_of S endpoint
      → is_request_id uuid ≡ true
      → (is_counted request ≡ true → (allow now (codes "global") l).0 ≡ true)
      → ServedHttp now uuid request l w (
          last_answer client text_of S
            (some (request_id_of client text_of S uuid request))
            (observe client text_of S uuid started stopped
              (handled client text_of S endpoint)
              request
              w).0
            (
              l',
              (observe client text_of S uuid started stopped
                  (handled client text_of S endpoint)
                  request
                  w).1,
            ))
  unfolding observe track_inflight
  observe-Served now uuid started stopped endpoint request l l' (m, s) quiet good may =
      last_answer-Served now uuid request l l' (m, s) _
        (inner client ledger text_of S uuid (handled client text_of S endpoint) request (m, s)).0.1
        good may (handled-IsInternal endpoint _ request _)
        (observe-IsObserved client ledger text_of S uuid started stopped
          (handled client text_of S endpoint) request (m, s)
          (handled-IsQuiet client ledger text_of S endpoint quiet))

  serve_http-Served :
      (now : ℕ) (uuid : Text) (started stopped : ℕ) (endpoint : Endpoint client text_of S)
      (request : Request) (l : Limiter) (w : World client text_of S)
      → IsQuietEndpoint client ledger text_of S endpoint
      → is_request_id uuid ≡ true
      → ServedHttp now uuid request l w
          (serve_http client text_of S now uuid started stopped endpoint request (l, w))
  unfolding serve_http rate_limit
  serve_http-Served now uuid started stopped endpoint request l w quiet good =
      elim (Bool-cases (is_counted request)) [
        | inr free ↦
            rw (free, serve_http)
              (observe-Served now uuid started stopped endpoint request l l w quiet good
                (λ q. absurd (ground arith)))
        | inl counted ↦ elim (Bool-cases (allow now (codes "global") l).0) [
          | inl admitted ↦
              rw (counted, serve_http)
                (rw (admitted, serve_http)
                  (observe-Served now uuid started stopped endpoint request l
                    (allow now (codes "global") l).1 w quiet good (λ q. admitted)))
          | inr over ↦
              rw (counted, serve_http) (rw (over, serve_http) (refused counted over refl refl))
        ]
      ]

  -- What becomes of a request. What is no HTTP request goes to the application, and nothing else
  -- happens.
  pub data Served (now : ℕ) (uuid : Text) (endpoint : Endpoint client text_of S) (request : Request)
      (l : Limiter) (w : World client text_of S)
      (out : Result Response × (Limiter × World client text_of S)) : Type 0 where
    served :
        (r : Response)
        → request.is_http ≡ true
        → out.0 ≡ ok r
        → ServedHttp now uuid request l w (r, out.1)
        → Served now uuid endpoint request l w out
    passed :
        request.is_http ≡ false
        → out ≡ ((endpoint none request w).0.1, (l, (endpoint none request w).1))
        → Served now uuid endpoint request l w out

  -- Whatever the service behind does, an exception included, an HTTP request is either refused by the limit,
  -- with the answer 429 and nothing else changed but the limiter, or it is answered with an
  -- identifier that the pattern accepts, the gauge of running requests is again what it was, and
  -- exactly one completed request is counted, with the status that the client gets. The service is
  -- assumed to leave the gauge and that counter alone, the calls of prometheus_client not to raise,
  -- and the random identifier to be well-formed. What is no HTTP request goes to the application
  -- unobserved, and what that gives is passed on.
  pub serve-Served :
      (now : ℕ) (uuid : Text) (started stopped : ℕ) (endpoint : Endpoint client text_of S)
      (request : Request) (l : Limiter) (w : World client text_of S)
      → IsQuietEndpoint client ledger text_of S endpoint
      → is_request_id uuid ≡ true
      → Served now uuid endpoint request l w
          (serve client text_of S now uuid started stopped endpoint request (l, w))
  unfolding serve pass_through
  serve-Served now uuid started stopped endpoint request l w quiet good =
      if_either (Served now uuid endpoint request l w) request.is_http _ _
        (λ http.
          served _ http refl
            (serve_http-Served now uuid started stopped endpoint request l w quiet good))
        (λ other. passed other refl)
