-- ===== src/Http/Errors.antt =====
-- app/api/errors.py: the answers to exceptions. Header names are in lower case, as Starlette keeps
-- them.
pub mod Answers
use alfa_hackaton.Prelude.{
  ℕ, Bool, true, false, Option, none, some, List, [], ◌∷◌, Text, codes, text_eq,
}
use alfa_hackaton.Prelude.Dict.{insert}
use alfa_hackaton.Core.Errors.{
  Error, proxy_error, consumer_not_allowed, invalid_payload, bad_request,
  restoration_state_not_found, processing_error, service_overloaded, service_unavailable,
  index_error, value_error, key_error, unexpected, status_code, error_type,
}

pub record Response : Type 0 where
  pub status : ℕ
  pub headers : List (Text × Text)
  -- a JSON object of strings
  pub content : List (Text × Text)

-- `exc.message` of a `PIIProxyError`
unfoldable pub message : Error → Text
message (proxy_error s) = s
message (consumer_not_allowed s) = s
message (invalid_payload s) = s
message (bad_request s) = s
message (restoration_state_not_found s) = s
message (processing_error s) = s
message (service_overloaded s n) = s
message (service_unavailable s) = s
message _ = []

-- isinstance(exc, PIIProxyError)
unfoldable pub is_domain : Error → Bool
is_domain index_error = false
is_domain value_error = false
is_domain key_error = false
is_domain (unexpected _) = false
is_domain _ = true

unfoldable pub request_headers : Option Text → List (Text × Text)
request_headers none = []
request_headers (some request_id) = (codes "x-request-id", request_id) ∷ []

unfoldable pub error_content : (error message : Text) → List (Text × Text)
error_content error message = (codes "error", error) ∷ (codes "message", message) ∷ []

module _ (text_of : ℕ → Text) where
  unfoldable pub retry_after : Error → List (Text × Text) → List (Text × Text)
  retry_after (service_overloaded _ n) headers =
      insert text_eq (codes "retry-after") (text_of n) headers
  retry_after _ headers = headers

  unfoldable pub handle_domain_error : (request_id : Option Text) → Error → Response
  unfolding message request_headers retry_after error_content
  handle_domain_error request_id exc = record {
    status = status_code exc;
    headers = retry_after exc (request_headers request_id);
    content = error_content (error_type exc) (message exc);
  }

  unfoldable pub handle_processing_error : (request_id : Option Text) → Response
  unfolding request_headers error_content
  handle_processing_error request_id = record {
    status = 500;
    headers = request_headers request_id;
    content = error_content (codes "PROCESSING_ERROR") (codes "internal error");
  }

  unfoldable pub handle_unexpected : (request_id : Option Text) → Response
  unfolding request_headers error_content
  handle_unexpected request_id = record {
    status = 500;
    headers = request_headers request_id;
    content = error_content (codes "INTERNAL_ERROR") (codes "internal error");
  }

  -- The handler of the nearest class that has one answers.
  unfoldable pub respond : (request_id : Option Text) → Error → Response
  unfolding handle_domain_error handle_processing_error handle_unexpected
  respond request_id (processing_error s) = handle_processing_error request_id
  respond request_id index_error = handle_unexpected request_id
  respond request_id value_error = handle_unexpected request_id
  respond request_id key_error = handle_unexpected request_id
  respond request_id (unexpected s) = handle_unexpected request_id
  respond request_id exc = handle_domain_error request_id exc
