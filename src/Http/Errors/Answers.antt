-- ===== src/Http/Errors/Answers.antt =====
-- What the client learns of an exception.
use alfa_hackaton.Prelude.{ℕ, ◌≡◌, refl, ap, ◌∙◌, Option, none, some, Text, codes, text_eq}
use alfa_hackaton.Prelude.Dict.{lookup, insert}
use alfa_hackaton.Core.Errors.{
  Error, proxy_error, consumer_not_allowed, invalid_payload, bad_request,
  restoration_state_not_found, processing_error, service_overloaded, service_unavailable,
  index_error, value_error, key_error, unexpected, status_code, error_type,
}
use alfa_hackaton.Http.Errors.{
  Response, message, request_headers, error_content, retry_after, handle_domain_error,
  handle_processing_error, handle_unexpected, respond,
}

-- the header that tells when to try again
abbrev pub wait_of : (ℕ → Text) → Error → Option Text
wait_of text_of (service_overloaded s n) = some (text_of n)
wait_of text_of _ = none

-- the words that the client is told: those of the exception for an error of the request, but
-- nothing of a failure inside
abbrev pub told : Error → Text
told (processing_error s) = codes "internal error"
told index_error = codes "internal error"
told value_error = codes "internal error"
told key_error = codes "internal error"
told (unexpected s) = codes "internal error"
told e = message e

pub record Tells (text_of : ℕ → Text) (request_id : Option Text) (e : Error) (r : Response)
    : Type 0 where
  pub status : r.status ≡ status_code e
  pub error : lookup text_eq (codes "error") r.content ≡ some (error_type e)
  pub message : lookup text_eq (codes "message") r.content ≡ some (told e)
  pub request : lookup text_eq (codes "x-request-id") r.headers ≡ request_id
  pub wait : lookup text_eq (codes "retry-after") r.headers ≡ wait_of text_of e

request-lookup :
    (request_id : Option Text)
    → (lookup text_eq (codes "x-request-id") (request_headers request_id) ≡ request_id)
      × (lookup text_eq (codes "retry-after") (request_headers request_id) ≡ none)
unfolding request_headers lookup text_eq
request-lookup none = (refl, refl)
request-lookup (some s) = (refl, refl)

overload-lookup :
    (request_id : Option Text) (t : Text)
    → (lookup text_eq
          (codes "x-request-id")
          (insert text_eq (codes "retry-after") t (request_headers request_id))
        ≡ request_id)
      × (lookup text_eq
            (codes "retry-after")
            (insert text_eq (codes "retry-after") t (request_headers request_id))
          ≡ some t)
unfolding request_headers lookup insert text_eq
overload-lookup none t = (refl, refl)
overload-lookup (some s) t = (refl, refl)

content-lookup :
    (e m : Text)
    → (lookup text_eq (codes "error") (error_content e m) ≡ some e)
      × (lookup text_eq (codes "message") (error_content e m) ≡ some m)
unfolding error_content lookup text_eq
content-lookup e m = (refl, refl)

module _ (text_of : ℕ → Text) where
  -- an error that is answered with its own message and nothing to wait for
  plain :
      (request_id : Option Text) (e : Error)
      → retry_after text_of e (request_headers request_id) ≡ request_headers request_id
      → message e ≡ told e
      → none ≡ wait_of text_of e
      → Tells text_of request_id e (handle_domain_error text_of request_id e)
  unfolding handle_domain_error
  plain request_id e h q w = record {
    status = refl;
    error = (content-lookup (error_type e) (message e)).0;
    message = (content-lookup (error_type e) (message e)).1 ∙ ap some q;
    request = ap (lookup text_eq (codes "x-request-id")) h ∙ (request-lookup request_id).0;
    wait = ap (lookup text_eq (codes "retry-after")) h ∙ (request-lookup request_id).1 ∙ w;
  }

  -- a failure inside
  hidden :
      (request_id : Option Text) (e : Error) (error : Text)
      → 500 ≡ status_code e
      → error ≡ error_type e
      → codes "internal error" ≡ told e
      → none ≡ wait_of text_of e
      → Tells text_of request_id e (record {
        status = 500;
        headers = request_headers request_id;
        content = error_content error (codes "internal error");
      })
  hidden request_id e error s t q w = record {
    status = s;
    error = (content-lookup error (codes "internal error")).0 ∙ ap some t;
    message = (content-lookup error (codes "internal error")).1 ∙ ap some q;
    request = (request-lookup request_id).0;
    wait = (request-lookup request_id).1 ∙ w;
  }

  overload :
      (request_id : Option Text) (s : Text) (n : ℕ)
      → Tells text_of request_id
          (service_overloaded s n)
          (handle_domain_error text_of request_id (service_overloaded s n))
  unfolding handle_domain_error retry_after
  overload request_id s n = record {
    status = refl;
    error = (content-lookup _ _).0;
    message = (content-lookup _ _).1;
    request = (overload-lookup request_id (text_of n)).0;
    wait = (overload-lookup request_id (text_of n)).1;
  }

  -- The answer to every exception has its status and its error type; it repeats the identifier of
  -- the request, when there is one; it names a time to wait exactly for an overload; and its message
  -- is the one of the exception for an error of the request, but for a failure inside it does not
  -- depend on the exception.
  pub respond-Tells :
      (request_id : Option Text) (e : Error)
      → Tells text_of request_id e (respond text_of request_id e)
  unfolding respond retry_after handle_processing_error handle_unexpected status_code error_type
  respond-Tells rid (proxy_error s) = plain rid _ refl refl refl
  respond-Tells rid (consumer_not_allowed s) = plain rid _ refl refl refl
  respond-Tells rid (invalid_payload s) = plain rid _ refl refl refl
  respond-Tells rid (bad_request s) = plain rid _ refl refl refl
  respond-Tells rid (restoration_state_not_found s) = plain rid _ refl refl refl
  respond-Tells rid (service_unavailable s) = plain rid _ refl refl refl
  respond-Tells rid (service_overloaded s n) = overload rid s n
  respond-Tells rid (processing_error s) = hidden rid _ _ refl refl refl refl
  respond-Tells rid index_error = hidden rid _ _ refl refl refl refl
  respond-Tells rid value_error = hidden rid _ _ refl refl refl refl
  respond-Tells rid key_error = hidden rid _ _ refl refl refl refl
  respond-Tells rid (unexpected s) = hidden rid _ _ refl refl refl refl
