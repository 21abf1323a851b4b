-- ===== src/Processing.antt =====
-- app/processing/process_service.py and app/core/security.py: `ProcessService`. Each reading of the
-- clock and each source of randomness is an argument; metrics and timings are left out.
pub mod Lifecycle
pub mod Finish
pub mod Service
pub mod Answers
pub mod Retry
pub mod RoundTrip
pub mod Key
pub mod Measured
use alfa_hackaton.Prelude.{
  ℕ, ◌≡◌, Bool, true, false, ◌||◌, ◌&&◌, Option, none, some, List, [], ◌∷◌, ◌++◌, Text, codes,
  text_eq, length, ltb, ◌==◌, map, take, if◌then◌else◌,
}
use alfa_hackaton.Prelude.Sort.{sort_by}
use alfa_hackaton.Core.Enums.{
  PiiType, Operation, mask, demask, RestorationStateStatus, masked, demasked, value, type_eq,
}
use alfa_hackaton.Core.Errors.{Error, Result, ok, err, ◌>>=◌, invalid_payload, processing_error}
use alfa_hackaton.Core.Models.{PiiEntity}
use alfa_hackaton.Detection.Engine.{Detector, detect}
use alfa_hackaton.Masking.Chars.{CharClass}
use alfa_hackaton.Masking.Engine
use alfa_hackaton.Policies.{ConsumerPolicy}
use alfa_hackaton.Restoration.State.{RestorationState}
use alfa_hackaton.Restoration.Store.{Moment, RestorationStore}

-- What comes from outside: the hashes of `hashlib` as hexadecimal texts, the character classes, and
-- the detectors that the service is built with.
pub record Environment : Type 0 where
  pub sha256 : Text → Text
  pub blake2b : Text → Text
  pub chars : CharClass
  pub detectors : List Detector

-- What one run of `_prepare_mask` takes from outside: random tokens and the time.
pub record Draw : Type 0 where
  pub tokens : ℕ → Text
  pub created_at : ℕ

-- `ProcessOutcome`, without the durations.
pub record ProcessOutcome : Type 0 where
  pub result : Text
  pub operation : Operation
  pub entity_count : ℕ
  pub detected_types : List Text

-- e.type in enabled_types
unfoldable pub is_enabled : List PiiType → PiiType → Bool
is_enabled [] t = false
is_enabled (u ∷ us) t = type_eq u t || is_enabled us t

unfoldable pub enabled_of : List PiiType → List PiiEntity → List PiiEntity
unfolding is_enabled
enabled_of types [] = []
enabled_of types (e ∷ es) =
    let rest = enabled_of types es in if is_enabled types e.type then e ∷ rest else rest

-- The order of Python on texts, by code points.
unfoldable pub text_le : Text → Text → Bool
text_le [] t = true
text_le (a ∷ s) [] = false
text_le (a ∷ s) (b ∷ t) = ltb a b || (a == b && text_le s t)

unfoldable pub is_member : Text → List Text → Bool
is_member s [] = false
is_member s (t ∷ ts) = text_eq s t || is_member s ts

-- set(l), each element once
unfoldable pub distinct : List Text → List Text
unfolding is_member
distinct [] = []
distinct (s ∷ l) = let rest = distinct l in if is_member s rest then rest else s ∷ rest

-- sorted({e.type.value for e in entities})
unfoldable pub type_names : List PiiEntity → List Text
unfolding distinct text_le
type_names es = sort_by text_le (distinct (map (λ (e : PiiEntity). value e.type) es))

-- `_outcome`
unfoldable pub outcome : Text → Operation → RestorationState → ProcessOutcome
outcome result operation s = record {
  result = result;
  operation = operation;
  entity_count = s.entity_count;
  detected_types = s.detected_types;
}

-- `_outcome_from_state`
unfoldable pub outcome_from_state : Option RestorationState → Result ProcessOutcome
unfolding outcome
outcome_from_state none =
    err (processing_error (codes "restoration state was unexpectedly removed"))
outcome_from_state (some s) = elim s.state [
  | masked ↦ ok (outcome s.masked_text mask s)
  | demasked ↦ ok (outcome s.original_text demask s)
]

-- `_demask_state`
unfoldable pub demask_state : RestorationState → ConsumerPolicy → Result RestorationState
demask_state current policy =
    if policy.demasking_enabled
    then ok (record current { state = demasked })
    else err (processing_error (codes "demasking is disabled for this consumer"))

abbrev pub mismatch : Error
mismatch = invalid_payload (codes "payload does not match stored state")

abbrev pub required : Error
required = invalid_payload (codes "payload and payload_id are required")

module _ (env : Environment) where
  -- `hash_identifier`
  unfoldable pub hash_identifier : Text → ℕ → Text
  hash_identifier s n = take n (env.sha256 s)

  -- `hash_payload`
  unfoldable pub hash_payload : Text → Text
  hash_payload s = env.blake2b s

  -- `_state_key`
  unfoldable pub state_key : Text → Text → Text
  state_key consumer_id payload_id =
      consumer_id ++ (codes ":" ++ env.sha256 (consumer_id ++ 0 ∷ payload_id))

  -- `_prepare_mask`
  unfoldable pub prepare_mask : Draw → Text → Text → ConsumerPolicy → Result RestorationState
  unfolding enabled_of type_names hash_payload
  prepare_mask w payload payload_id policy = do
    found ←
        detect env.detectors payload
          (record { consumer_id = policy.consumer_id; language = codes "ru" })
    let entities = enabled_of policy.enabled_types found
    masking ← Engine.mask env.chars w.tokens payload entities policy.masking policy.context_rules
    ok (record {
      payload_id = payload_id;
      original_hash = hash_payload payload;
      original_text = payload;
      masked_text = masking.masked_text;
      mappings = masking.mappings;
      entity_count = length entities;
      detected_types = type_names entities;
      state = masked;
      created_at = w.created_at;
      expires_at = none;
      consumer_id = policy.consumer_id;
    })

  -- The branches of `_transition` on a state.
  unfoldable pub transition_known :
      RestorationState → Text → ConsumerPolicy → Result RestorationState
  unfolding demask_state hash_payload
  transition_known current payload policy =
      if text_eq current.consumer_id policy.consumer_id
      then (elim current.state [
        | masked ↦
            if text_eq (hash_payload payload) current.original_hash
            then ok current
            else if text_eq payload current.masked_text
            then demask_state current policy
            else err mismatch
        | demasked ↦ if text_eq payload current.masked_text then ok current else err mismatch
      ])
      else err mismatch

  -- `_transition`. `w` serves the preparation of the rare race.
  unfoldable pub transition_state :
      Draw
      → Option RestorationState
      → Text
      → Text
      → ConsumerPolicy
      → Option RestorationState
      → Result RestorationState
  unfolding prepare_mask transition_known
  transition_state w (some current) payload payload_id policy prepared =
      transition_known current payload policy
  transition_state w none payload payload_id policy (some p) = ok p
  transition_state w none payload payload_id policy none = prepare_mask w payload payload_id policy

  -- the callback that `process` gives to the store
  unfoldable pub callback :
      Draw
      → Text
      → Text
      → ConsumerPolicy
      → Option RestorationState
      → Option RestorationState
      → Result (Option RestorationState)
  unfolding transition_state
  callback w payload key policy prepared current =
      transition_state w current payload key policy prepared >>= (λ s. ok (some s))

  -- The first lookup of `process`, and the preparation where it finds no state.
  unfoldable pub prepare_if_absent :
      Draw
      → Text
      → Text
      → ConsumerPolicy
      → Result (Option RestorationState)
      → Result (Option RestorationState)
  unfolding prepare_mask
  prepare_if_absent w payload key policy (err e) = err e
  prepare_if_absent w payload key policy (ok (some _)) = ok none
  prepare_if_absent w payload key policy (ok none) =
      prepare_mask w payload key policy >>= (λ p. ok (some p))

  module _ (r : RestorationStore) where
    -- `process` from the call of `transition` on.
    unfoldable pub finish :
        Draw
        → Moment
        → Text
        → Text
        → ConsumerPolicy
        → Option RestorationState
        → r.Store
        → Result ProcessOutcome × r.Store
    unfolding callback outcome_from_state
    finish w t payload key policy prepared m =
        let (state, m') = r.transition t key (callback w payload key policy prepared) m in
        (state >>= outcome_from_state, m')

    unfoldable pub proceed :
        Draw
        → Moment
        → Text
        → Text
        → ConsumerPolicy
        → Result (Option RestorationState)
        → r.Store
        → Result ProcessOutcome × r.Store
    unfolding finish
    proceed w t payload key policy (err e) m = (err e, m)
    proceed w t payload key policy (ok prepared) m = finish w t payload key policy prepared m

    -- the guard of `process`
    unfoldable pub is_missing : Text → Text → Bool
    is_missing payload payload_id = text_eq payload [] || text_eq payload_id []

    -- `process`, with no other request in between: `first` is the time of the lookup, `v` and `w`
    -- serve the two places that prepare.
    unfoldable pub process :
        (v w : Draw)
        → (first : ℕ) → Moment
        → Text
        → Text
        → ConsumerPolicy
        → r.Store
        → Result ProcessOutcome × r.Store
    unfolding is_missing state_key prepare_if_absent proceed
    process v w first t payload payload_id policy m =
        let key = state_key policy.consumer_id payload_id in
        let (found, m') = r.get first key m in
        let out =
          proceed w t payload key policy (prepare_if_absent v payload key policy found) m' in
        if is_missing payload payload_id then (err required, m) else out
