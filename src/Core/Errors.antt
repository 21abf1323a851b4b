-- ===== src/Core/Errors.antt =====
-- app/core/exceptions.py: the errors of the domain, and the other exceptions that the modelled
-- code can raise.
use alfa_hackaton.Prelude.{ℕ, ◌≡◌, ◌≢◌, ◌⊎◌, inl, inr, refl, arith, Text, codes}

pub data Error : Type 0 where
  -- `PIIProxyError` and its subclasses, with their message
  proxy_error : Text → Error
  consumer_not_allowed : Text → Error
  invalid_payload : Text → Error
  bad_request : Text → Error
  restoration_state_not_found : Text → Error
  processing_error : Text → Error
  service_overloaded : Text → ℕ → Error
  service_unavailable : Text → Error
  -- exceptions of Python and of the libraries, by their class name
  index_error : Error
  value_error : Error
  key_error : Error
  unexpected : Text → Error

pub data Result {ℓ} (A : Type ℓ) : Type ℓ where
  ok : A → Result A
  err : Error → Result A

infixl 5 ◌>>=◌
abbrev pub ◌>>=◌ {ℓ κ} : {A : Type ℓ} {B : Type κ} → Result A → (A → Result B) → Result B
ok a >>= f = f a
err e >>= f = err e

-- To split on a computed result and keep the equation.
pub Result-cases {ℓ} :
    {A : Type ℓ} (x : Result A) → ((a : A) × (x ≡ ok a)) ⊎ ((e : Error) × (x ≡ err e))
Result-cases (ok a) = inl (a, refl)
Result-cases (err e) = inr (e, refl)

pub ok_injective : {A : Type 0} {a b : A} → ok a ≡ ok b → a ≡ b
ok_injective q = cc q

pub ok_ne_err : {A : Type 0} {a : A} {e : Error} → ok a ≢ err e
ok_ne_err q = ground arith

-- What a chain that ends well went through.
pub >>=_ok {ℓ κ} :
    {A : Type ℓ} {B : Type κ} (x : Result A) (f : A → Result B) (b : B)
    → x >>= f ≡ ok b
    → (a : A) × (x ≡ ok a) × (f a ≡ ok b)
>>=_ok (ok a) f b h = (a, refl, h)
>>=_ok (err e) f b h = absurd (ground arith)

-- `exc.status_code`; 500 for what is no domain error
unfoldable pub status_code : Error → ℕ
status_code (consumer_not_allowed _) = 403
status_code (invalid_payload _) = 422
status_code (bad_request _) = 400
status_code (restoration_state_not_found _) = 404
status_code (service_overloaded _ _) = 429
status_code (service_unavailable _) = 503
status_code _ = 500

-- `exc.error_type`
unfoldable pub error_type : Error → Text
error_type (proxy_error _) = codes "PROCESSING_ERROR"
error_type (consumer_not_allowed _) = codes "CONSUMER_NOT_ALLOWED"
error_type (invalid_payload _) = codes "INVALID_PAYLOAD"
error_type (bad_request _) = codes "BAD_REQUEST"
error_type (restoration_state_not_found _) = codes "RESTORATION_STATE_NOT_FOUND"
error_type (processing_error _) = codes "PROCESSING_ERROR"
error_type (service_overloaded _ _) = codes "SERVICE_OVERLOADED"
error_type (service_unavailable _) = codes "SERVICE_UNAVAILABLE"
error_type _ = codes "INTERNAL_ERROR"
