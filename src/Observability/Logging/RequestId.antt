-- ===== src/Observability/Logging/RequestId.antt =====
-- The identifier of a request.
use alfa_hackaton.Prelude.{◌≡◌, true, Bool-cases, inl, inr, Option, none, some, Text}
use alfa_hackaton.Observability.Logging.{is_request_id, normalize_request_id}

-- Whatever the client sends, the identifier is accepted by the pattern, if the random one is.
pub normalize_request_id_lem :
    (uuid : Text) (candidate : Option Text)
    → is_request_id uuid ≡ true
    → is_request_id (normalize_request_id uuid candidate) ≡ true
unfolding normalize_request_id
normalize_request_id_lem uuid none h = h
normalize_request_id_lem uuid (some candidate) h = elim (Bool-cases (is_request_id candidate)) [
  | inl good ↦ rw (good, normalize_request_id) good
  | inr bad ↦ rw (bad, normalize_request_id) h
]
