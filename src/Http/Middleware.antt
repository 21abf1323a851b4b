-- ===== src/Http/Middleware.antt =====
-- app/api/middleware.py and app/main.py: the limit on requests, the identifier of a request and the
-- observation of its outcome. The scope of ASGI is a request, the messages to the client are one
-- response, and the state of the service behind is a parameter.
pub mod Counted
pub mod Observed
use alfa_hackaton.Prelude.{
  ℕ, ◌-◌, Bool, true, false, ◌&&◌, Option, none, some, List, [], ◌∷◌, ◌++◌, Text, codes, text_eq,
  if◌then◌else◌,
}
use mathlib.Core.List.{reverse}
use alfa_hackaton.Prelude.Dict.{lookup, insert}
use alfa_hackaton.Core.Errors.{Error, Result, ok, err, error_type}
use alfa_hackaton.Core.RateLimit.{Limiter, allow}
use alfa_hackaton.Http.Errors.{Response, is_domain, respond}
use alfa_hackaton.Observability.Logging.{normalize_request_id}
use alfa_hackaton.Observability.Metrics.{
  Client, Metrics, track_inflight, observe_http_request, record_error,
}

pub record Request : Type 0 where
  -- scope["type"] == "http"
  pub is_http : Bool
  pub method : Text
  pub path : Text
  pub headers : List (Text × Text)

-- `RequestContextMiddleware`: what it gives the application, and what it adds to the response; of a
-- header that stands twice the dictionary keeps the last
unfoldable pub context_id : (uuid : Text) → Request → Text
context_id uuid request = elim (lookup text_eq (codes "x-request-id") (reverse request.headers)) [
  | none ↦ uuid
  | some s ↦ if text_eq s [] then uuid else s
]

unfoldable pub request_context {ℓ} :
    {A : Type ℓ}
    → (uuid : Text) → (app : Option Text → Request → Response × A) → Request
    → Response × A
unfolding context_id
request_context uuid app request =
    if request.is_http
    then (let (r, a) = app (some (context_id uuid request)) request in
        (
          record r { headers = r.headers ++ (codes "x-request-id", context_id uuid request) ∷ [] },
          a,
        ))
    else app none request

-- the body of the answer to a request over the limit
unfoldable pub too_many : Response
too_many = record {
  status = 429;
  headers =
      (codes "content-type", codes "application/json") ∷ (codes "retry-after", codes "1") ∷ [];
  content =
      (codes "error", codes "SERVICE_OVERLOADED")
      ∷ (codes "message", codes "too many requests")
      ∷ [];
}

-- is the request one that the limit counts?
unfoldable pub is_counted : Request → Bool
is_counted request = request.is_http && text_eq request.path (codes "/process")

-- `RateLimitMiddleware`
unfoldable pub rate_limit :
    {W : Type 0}
    → (now : ℕ) → (app : W → Result Response × W) → Request
    → Limiter × W
    → Result Response × (Limiter × W)
unfolding too_many is_counted
rate_limit now app request (limiter, w) =
    let (response, w') = app w in
    let (admitted, limiter') = allow now (codes "global") limiter in
    if is_counted request
    then (if admitted then (response, (limiter', w')) else (ok too_many, (limiter', w)))
    else (response, (limiter, w'))

module _ (client : Client) (text_of : ℕ → Text) (S : Type 0) where
  -- the process: its metrics, and the state of the service behind
  abbrev pub World : Type 0
  World = Metrics client text_of × S

  -- A route, with the path that it is registered under; `none` where no route matches.
  abbrev pub Endpoint : Type 0
  Endpoint = (request_id : Option Text) → Request → World → (Option Text × Result Response) × World

  -- the endpoint under the handlers of the domain's errors, which count the error
  unfoldable pub answered :
      (request_id : Option Text) → Result Response → World → Result Response × World
  answered request_id (ok r) w = (ok r, w)
  answered request_id (err e) (m, s) =
      if is_domain e
      then (ok (respond text_of request_id e), (record_error client text_of (error_type e) m, s))
      else (err e, (m, s))

  unfoldable pub handled : Endpoint → Endpoint
  unfolding answered
  handled endpoint request_id request w =
      let ((route, result), w') = endpoint request_id request w in
      let (result', w'') = answered request_id result w' in ((route, result'), w'')

  unfoldable pub status_of : Result Response → ℕ
  status_of (ok r) = r.status
  status_of (err e) = 500

  -- response.headers["X-Request-ID"] = request_id
  unfoldable pub set_request_id : Text → Result Response → Result Response
  set_request_id request_id (ok r) =
      ok (record r { headers = insert text_eq (codes "x-request-id") request_id r.headers })
  set_request_id request_id (err e) = err e

  -- getattr(route, "path", "unmatched")
  unfoldable pub path_of : Option Text → Text
  path_of none = codes "unmatched"
  path_of (some path) = path

  unfoldable pub request_id_of : (uuid : Text) → Request → Text
  request_id_of uuid request =
      normalize_request_id uuid (lookup text_eq (codes "x-request-id") request.headers)

  -- `observe_http_request`
  unfoldable pub observe :
      (uuid : Text) (started stopped : ℕ) → Endpoint → Request → World → Result Response × World
  unfolding handled status_of set_request_id path_of request_id_of
  observe uuid started stopped app request (m, s) =
      let request_id = request_id_of uuid request in
      let (((route, result), s'), m') =
        track_inflight client text_of {A = (Option Text × Result Response) × S}
          (λ n. let (out, (n', t)) = app (some request_id) request (n, s) in ((out, t), n')) m in
      (
        set_request_id request_id result,
        (
          observe_http_request client text_of request.method (path_of route) (status_of result)
              (stopped - started) m',
          s',
        ),
      )

  -- What no other handler took is answered last, outside the middleware.
  unfoldable pub last_answer :
      (request_id : Option Text) → Result Response → Limiter × World → Response × (Limiter × World)
  last_answer request_id (ok r) w = (r, w)
  last_answer request_id (err e) (l, (m, s)) =
      (respond text_of request_id e, (l, (record_error client text_of (error_type e) m, s)))

  -- an HTTP request: the limit stands outside the observer, since it is added after it
  unfoldable pub serve_http :
      (now : ℕ) (uuid : Text) (started stopped : ℕ)
      → Endpoint
      → Request
      → Limiter × World
      → Response × (Limiter × World)
  unfolding rate_limit observe last_answer
  serve_http now uuid started stopped endpoint request w =
      let (result, w') =
        rate_limit now (observe uuid started stopped (handled endpoint) request) request w in
      last_answer (some (request_id_of uuid request)) result w'

  -- what every middleware lets through: it goes to the application, and an exception to the server
  unfoldable pub pass_through :
      Endpoint → Request → Limiter × World → Result Response × (Limiter × World)
  pass_through endpoint request (l, w) =
      let ((route, result), w') = endpoint none request w in (result, (l, w'))

  -- the application: `@app.middleware("http")` and the handlers around it are for HTTP only
  unfoldable pub serve :
      (now : ℕ) (uuid : Text) (started stopped : ℕ)
      → Endpoint
      → Request
      → Limiter × World
      → Result Response × (Limiter × World)
  unfolding serve_http pass_through
  serve now uuid started stopped endpoint request w =
      if request.is_http
      then (let (r, w') = serve_http now uuid started stopped endpoint request w in (ok r, w'))
      else pass_through endpoint request w
