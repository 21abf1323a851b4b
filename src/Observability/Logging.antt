-- ===== src/Observability/Logging.antt =====
-- app/observability/logging.py: `JsonFormatter` and `normalize_request_id`. A log record holds the
-- attributes that `extra` sets on it; json.dumps and the random identifier are parameters.
pub mod Fields
pub mod RequestId
use alfa_hackaton.Prelude.{
  ℕ, ◌≡◌, Bool, true, false, ◌&&◌, ◌||◌, Option, none, some, List, [], ◌∷◌, Text, codes, text_eq,
  length, leb, ◌==◌, if◌then◌else◌,
}
use alfa_hackaton.Prelude.Dict.{lookup, insert}
use alfa_hackaton.Core.Yaml.{Yaml, null, text, truthy}

abbrev pub structured_fields : List Text
structured_fields =
    codes "event"
    ∷ codes "request_id"
    ∷ codes "method"
    ∷ codes "path"
    ∷ codes "status_code"
    ∷ codes "operation"
    ∷ codes "consumer_id"
    ∷ codes "payload_id_hash"
    ∷ codes "detected_types"
    ∷ codes "entity_count"
    ∷ codes "duration_ms"
    ∷ codes "error_type"
    ∷ codes "exception_type"
    ∷ []

pub record LogRecord : Type 0 where
  pub created : Text
  pub levelname : Text
  pub name : Text
  pub message : Text
  pub attributes : List (Text × Yaml)
  -- the name of the class, if there is one, and the text with the traceback
  pub exc_info : Option (Option Text × Text)

abbrev pub Payload : Type 0
Payload = List (Text × Yaml)

-- getattr(record, name, default)
unfoldable pub getattr : LogRecord → Text → Yaml → Yaml
getattr r name default = elim (lookup text_eq name r.attributes) [ none ↦ default | some v ↦ v ]

-- payload[k] = v, unless v is None
unfoldable pub put : Text → Yaml → Payload → Payload
put k null p = p
put k v p = insert text_eq k v p

unfoldable pub request_id_of : LogRecord → Yaml → Yaml
unfolding getattr
request_id_of r current =
    if truthy (getattr r (codes "request_id") null)
    then getattr r (codes "request_id") null
    else current

-- the loop over `_STRUCTURED_FIELDS`
unfoldable pub put_fields : LogRecord → List Text → Payload → Payload
unfolding getattr put
put_fields r [] p = p
put_fields r (f ∷ fs) p = put_fields r fs (put f (getattr r f null) p)

unfoldable pub put_exception : Option (Option Text × Text) → Payload → Payload
put_exception (some (some name, trace)) p = insert text_eq (codes "exception_type") (text name) p
put_exception _ p = p

-- the payload before the structured fields; `current` is the identifier of the context, or None
unfoldable pub header_of : LogRecord → (current : Yaml) → Payload
header_of r current = put (codes "request_id") (request_id_of r current) (
    (codes "timestamp", text r.created)
    ∷ (codes "level", text r.levelname)
    ∷ (codes "logger", text r.name)
    ∷ (codes "event", getattr r (codes "event") (text r.message))
    ∷ [])

-- `JsonFormatter.format`
unfoldable pub format : (dumps : Payload → Text) → LogRecord → (current : Yaml) → Text
format dumps r current =
    dumps (put_exception r.exc_info (put_fields r structured_fields (header_of r current)))

-- [A-Za-z0-9._-]
unfoldable pub is_allowed : ℕ → Bool
is_allowed c =
    (leb 65 c && leb c 90)
    || (leb 97 c && leb c 122)
    || (leb 48 c && leb c 57)
    || (c == 46)
    || (c == 95)
    || (c == 45)

unfoldable pub all_allowed : Text → Bool
unfolding is_allowed
all_allowed [] = true
all_allowed (c ∷ s) = is_allowed c && all_allowed s

-- _REQUEST_ID_RE.fullmatch(candidate)
unfoldable pub is_request_id : Text → Bool
unfolding all_allowed
is_request_id s = leb 1 (length s) && leb (length s) 64 && all_allowed s

unfoldable pub normalize_request_id : (uuid : Text) → Option Text → Text
unfolding is_request_id
normalize_request_id uuid none = uuid
normalize_request_id uuid (some candidate) = if is_request_id candidate then candidate else uuid
