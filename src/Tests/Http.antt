-- ===== src/Tests/Http.antt =====
-- The theorems on app/api and app/main.py at concrete inputs.
use alfa_hackaton.Prelude.{ℕ, true, refl, some, [], ◌∷◌, Text, codes}
use alfa_hackaton.Core.Errors.{service_overloaded}
use alfa_hackaton.Core.RateLimit.{Limiter}
use alfa_hackaton.Http.Errors.{respond}
use alfa_hackaton.Http.Errors.Answers.{Tells, respond-Tells}
use alfa_hackaton.Http.Middleware.{Request, Endpoint, serve}
use alfa_hackaton.Http.Middleware.Observed.{Served, serve-Served}
use alfa_hackaton.Http.Routes.{ProcessRequest}
use alfa_hackaton.Http.Endpoint.{endpoint, endpoint-IsQuietEndpoint}
use alfa_hackaton.Processing.Measured.{Timers}
use alfa_hackaton.Restoration.Memory.{MemoryStore}
use alfa_hackaton.Restoration.Memory.Instance.{memory_store}
use alfa_hackaton.Tests.Observability.{client, ledger, no_metrics}
use alfa_hackaton.Tests.World.{
  codec, empty_store, at, payload, payload_id, environment, draw, consumer,
}

abbrev text_of : ℕ → Text
text_of n = n ∷ []

respond-Tells_example :
    Tells text_of
      (some (codes "r1"))
      (service_overloaded (codes "busy") 1)
      (respond text_of (some (codes "r1")) (service_overloaded (codes "busy") 1))
respond-Tells_example =
    respond-Tells text_of (some (codes "r1")) (service_overloaded (codes "busy") 1)

abbrev timers : Timers
timers = record { lookup_ms = 1; prepare_ms = 4; transition_ms = 2; elapsed_ms = 7 }

abbrev body : ProcessRequest
body = record { payload = payload; payload_id = payload_id }

-- the route of the service for one consumer
abbrev service : Endpoint client text_of (MemoryStore codec.Token)
service =
    endpoint client ledger text_of environment (memory_store codec) ((codes "c", consumer) ∷ [])
      timers draw draw 0 (at 1) (codes "c") body

abbrev request : Request
request = record { is_http = true; method = codes "POST"; path = codes "/process"; headers = [] }

abbrev limiter : Limiter
limiter = record { max_requests = 1; window_seconds = 1; hits = [] }

serve-Served_example :
    Served client ledger text_of
      (MemoryStore codec.Token)
      0
      (codes "u-1")
      service
      request
      limiter
      (no_metrics, empty_store)
      (serve client text_of
        (MemoryStore codec.Token)
        0
        (codes "u-1")
        2
        5
        service
        request
        (limiter, (no_metrics, empty_store)))
unfolding alfa_hackaton.Observability.Logging.is_request_id
serve-Served_example =
    serve-Served client ledger text_of (MemoryStore codec.Token) 0 (codes "u-1") 2 5 service request
      limiter (no_metrics, empty_store)
      (endpoint-IsQuietEndpoint client ledger text_of environment (memory_store codec)
        ((codes "c", consumer) ∷ []) timers draw draw 0 (at 1) (codes "c") body)
      refl
