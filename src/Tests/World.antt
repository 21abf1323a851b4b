-- ===== src/Tests/World.antt =====
-- Concrete libraries, a consumer and a request for the tests.
use alfa_hackaton.Prelude.{
  ℕ, ◌≢◌, refl, Option, none, some, [], ◌∷◌, ◌++◌, Text, codes, arith, true,
}
use alfa_hackaton.Core.Enums.{masked, pin}
use alfa_hackaton.Core.Errors.{ok}
use alfa_hackaton.Core.Yaml.{Yaml}
use alfa_hackaton.Masking.Chars.{latin}
use alfa_hackaton.Policies.{ConsumerPolicy}
use alfa_hackaton.Processing.{Environment, Draw}
use alfa_hackaton.Restoration.State.{RestorationState}
use alfa_hackaton.Restoration.State.Libraries.{Codec}
use alfa_hackaton.Restoration.Store.{Moment, IsMoment}
use alfa_hackaton.Restoration.Memory.{MemoryStore}
use alfa_hackaton.Restoration.Memory.Invariant.{IsValid}
use alfa_hackaton.Tests.Data.{entity}

abbrev pub read_iso : Text → Option ℕ
read_iso [] = none
read_iso (t ∷ _) = some t

pub iso_ne_nil : (t : ℕ) → (t ∷ []) ≢ []
iso_ne_nil t e = ground arith

-- Documents are the values themselves, a date is one character, and a token keeps its content.
abbrev pub codec : Codec
codec = record {
  Document = Yaml;
  dumps = λ v. v;
  loads = λ v. some v;
  loads-dumps = λ v. refl;
  isoformat = λ t. t ∷ [];
  fromisoformat = read_iso;
  fromisoformat-isoformat = λ t. refl;
  isoformat-ne_nil = iso_ne_nil;
  Token = ℕ × Yaml;
  encrypt = λ iv v. (iv, v);
  decrypt = λ t. some t.1;
  decrypt-encrypt = λ iv v. refl;
}

abbrev pub empty_store : MemoryStore (ℕ × Yaml)
empty_store = record { ttl_seconds = 100; max_entries = 2; entries = [] }

pub empty_store-IsValid : IsValid 0 empty_store
empty_store-IsValid = record {
  entries = record { distinct = tt; ordered = tt; bounded = tt };
  fits = omega arith;
}

abbrev pub at : ℕ → Moment
at n = record { now = n; later = n; last = n; iv = 7 }

pub at-IsMoment : (n : ℕ) → IsMoment (at n)
at-IsMoment n = record { first = omega arith; second = omega arith }

-- the request: a text with a code of four digits
abbrev pub payload : Text
payload = codes "id 1234"

abbrev pub payload_id : Text
payload_id = codes "p1"

abbrev pub environment : Environment
environment = record {
  sha256 = λ s. s;
  blake2b = λ s. s;
  chars = latin;
  detectors = (λ text context. ok (entity pin (codes "1234") 3 7 ∷ [])) ∷ [];
}

abbrev pub draw : Draw
draw = record { tokens = λ n. []; created_at = 0 }

abbrev pub consumer : ConsumerPolicy
consumer = record {
  consumer_id = codes "c";
  enabled = true;
  enabled_types = pin ∷ [];
  masking = [];
  demasking_enabled = true;
  context_rules = none;
}

abbrev pub consumer_key : Text
consumer_key = codes "c:c" ++ (0 ∷ codes "p1")

-- what the request prepares
abbrev pub prepared : RestorationState
prepared = record {
  payload_id = consumer_key;
  original_hash = payload;
  original_text = payload;
  masked_text = codes "id ****";
  mappings = (codes "****", codes "1234") ∷ [];
  entity_count = 1;
  detected_types = codes "PIN" ∷ [];
  state = masked;
  created_at = 0;
  expires_at = none;
  consumer_id = codes "c";
}
