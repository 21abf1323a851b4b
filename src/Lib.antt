-- ===== src/Lib.antt =====
-- Verification of the PII security proxy (app/).
--
-- The proxy stands between a consumer and a language model. A request carries a text and an
-- identifier. Detectors report candidate entities in the text (app/detection), the resolution makes
-- them disjoint, the masking engine (app/masking) replaces each by what the strategy of its type
-- gives, and a store (app/restoration) keeps what is needed to give the original back when the
-- masked text returns under the same identifier (app/processing).
--
-- Files:
-- - Prelude and its children: Boolean tests and lists over the native numbers, texts as lists of code
--   points, integers, the stable sort, dictionaries; Words, Search and Prefixes are strip, split, find
--   and replace of texts.
-- - Core/Enums, Core/Errors, Core/Models: app/core/enums.py, exceptions.py, models.py. Core/Yaml is
--   the value type of yaml.safe_load, Core/Spans the order of spans.
-- - Detection/Resolution: app/detection/resolution.py; Ranks and Kept are about what is kept, Spans and
--   Disjoint about the order of the result.
-- - Masking/Strategies: app/masking/strategies/impl.py; Masking/Chars: the character classes of the
--   interpreter, a parameter. Masking/Context and Masking/Engine: app/masking/engine.py; Placed,
--   Coverage, Selection and Overlap are about the selection of spans, Pieces, Weave and Full about the
--   masked text.
-- - Detection/Engine: app/detection/engine.py, with base.py and context/resolver.py; a detector is a
--   function that may fail.
-- - Detection/Validators: the checks of numbers of app/detection/validators.py; Typos is about Luhn.
--   Detection/Dates: the dates of the same file; Ages is about the bound on an age.
-- - Detection/Regex: app/detection/regex/detector.py, with its patterns in Patterns and its tables in
--   Tables; Spanned and Reported are about what it reports. Detection/Llm: app/detection/llm_detector.py, and Found
--   about what that reports.
-- - Core/RateLimit: app/core/ratelimit.py; Window is about the window of a key.
-- - Policies: app/policies/models.py, and Policies/Loader app/policies/loader.py; Loaded is about what
--   is found after loading.
-- - Restoration/State: app/restoration/models.py, and Restoration/State/Libraries what it uses of
--   json, datetime and Fernet. Restoration/Store: app/restoration/base.py, the operations that the
--   service calls and their laws. Restoration/Memory: app/restoration/memory.py; Expiry is about the
--   order of the entries, Invariant about well-formedness, Views about what a reader sees,
--   Evicted and Transition about what changes, and Instance fills the interface. Restoration/Redis:
--   app/restoration/redis_store.py; Atomic is about the transaction among other clients, and Instance
--   fills the interface.
-- - Processing: app/processing/process_service.py and app/core/security.py. Lifecycle states its
--   steps, Finish and Service what one call amounts to over any store that fills the interface,
--   Answers and Retry what a stored state is answered by, RoundTrip the way back of a text, and Key
--   when two requests share a key. Measured is what a call records in the metrics.
-- - Pipeline: app/processing/secure_llm_pipeline.py and app/llm; Prompt is about what the model sees.
-- - Observability/Metrics: app/observability/metrics.py, with the facade in Recorder and the longest
--   durations in Stages. Observability/Logging: app/observability/logging.py; Fields is about what a
--   line depends on, RequestId about the identifier of a request.
-- - Http/Errors: app/api/errors.py; Answers is about what a client is told. Http/Middleware:
--   app/api/middleware.py and app/main.py; Counted is about the metrics of a request, Observed about
--   what becomes of it. Http/Routes: app/api/routes, dependencies.py and schemas; Http/Endpoint sets
--   the route of the service into the application.
-- - Score: benchmarks/score.py; Common, Spans and Tallies are about the counting, Gate about the
--   exit code.
-- - Packaging: scripts/package_submission.py; Collected is about the walk,
--   Archive the validation of an archive.
-- - Tests: the theorems at concrete inputs, and runs of the code.
--
-- What stands for what: offsets are integers, confidences are thousandths, secrets.token_hex is a
-- stream of texts, a raised exception is an `err` of Core/Errors. A store is passed on explicitly, and
-- each reading of a clock is an argument, so that a theorem says what it needs of their order. Log
-- lines are left out, and the durations of an outcome. A call of the service or of the in-memory store
-- is modelled with no other thread between its phases; between WATCH, GET and EXEC of the Redis store
-- other clients do what they like, and time passes. re, json, datetime, redis, prometheus_client and
-- the framework are parameters, with what is documented of them as laws. All loops recur on their
-- list, and the attempts of the Redis store on their number, so no fuel is used.
-- Not modelled: the settings, which are declarations; the reading of keys and files; the other
-- scripts under scripts/, which run processes and measure a network.
pub mod Prelude
pub mod Core
pub mod Detection
pub mod Masking
pub mod Tests
pub mod Restoration
pub mod Policies
pub mod Processing
pub mod Pipeline
pub mod Observability
pub mod Http
pub mod Score
pub mod Packaging
