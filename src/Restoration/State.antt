-- ===== src/Restoration/State.antt =====
-- app/restoration/models.py: the state, and its form as JSON.
pub mod Libraries
pub mod RoundTrip
use alfa_hackaton.Prelude.{
  ℕ, ◌≡◌, ◌≢◌, Bool, true, false, ◌&&◌, ◌||◌, text_eq, Option, none, some, List, [], ◌∷◌, Text,
  codes, leb, if◌then◌else◌,
}
use alfa_hackaton.Core.Enums.{RestorationStateStatus, parse_status, status_value}
use alfa_hackaton.Core.Errors.{Error, Result, ok, err, ◌>>=◌, key_error, value_error, unexpected}
use alfa_hackaton.Core.Yaml
use alfa_hackaton.Core.Yaml.{Yaml, Items, Fields, truthy}
use alfa_hackaton.Restoration.State.Libraries.{Codec}

-- `RestorationState`; a `datetime` is a number of microseconds.
pub record RestorationState : Type 0 where
  pub payload_id : Text
  pub original_hash : Text
  pub original_text : Text
  pub masked_text : Text
  pub mappings : List (Text × Text)
  pub entity_count : ℕ
  pub detected_types : List Text
  pub state : RestorationStateStatus
  pub created_at : ℕ
  pub expires_at : Option ℕ
  pub consumer_id : Text

-- the property `expired`; `now` is `datetime.now(UTC)`
unfoldable pub expired : ℕ → RestorationState → Bool
expired now s = elim s.expires_at [ none ↦ false | some t ↦ leb t now ]

unfoldable pub texts : List Text → Items
texts [] = Items.nil
texts (s ∷ l) = Items.cons (Yaml.text s) (texts l)

unfoldable pub pairs : List (Text × Text) → Items
pairs [] = Items.nil
pairs ((a, b) ∷ l) =
    Items.cons (Yaml.sequence (Items.cons (Yaml.text a) (Items.cons (Yaml.text b) Items.nil)))
      (pairs l)

-- data[k]
unfoldable pub field_of : Text → Fields → Result Yaml
field_of k d = elim (Yaml.get k d) [ none ↦ err key_error | some v ↦ ok v ]

-- a parameter of the constructor without a default
unfoldable pub required_of : Text → Fields → Result Yaml
required_of k d = elim (Yaml.get k d) [
  | none ↦ err (unexpected (codes "TypeError"))
  | some v ↦ ok v
]

-- the parameters of the constructor
abbrev pub parameters : List Text
parameters =
    codes "payload_id"
    ∷ codes "original_hash"
    ∷ codes "original_text"
    ∷ codes "masked_text"
    ∷ codes "mappings"
    ∷ codes "entity_count"
    ∷ codes "detected_types"
    ∷ codes "state"
    ∷ codes "created_at"
    ∷ codes "expires_at"
    ∷ codes "consumer_id"
    ∷ []

unfoldable pub is_parameter_of : Text → List Text → Bool
is_parameter_of k [] = false
is_parameter_of k (l ∷ ls) = text_eq k l || is_parameter_of k ls

-- Does every key name a parameter?
unfoldable pub are_parameters : Fields → Bool
unfolding is_parameter_of
are_parameters Fields.end = true
are_parameters (Fields.field k v d) = is_parameter_of k parameters && are_parameters d

-- `cls(**data)` on another key
unfoldable pub only_parameters : Fields → Result Fields
unfolding are_parameters
only_parameters d = if are_parameters d then ok d else err (unexpected (codes "TypeError"))

-- A value of another type, which Python would carry along, is an error of the model.
unfoldable pub as_text : Yaml → Result Text
as_text (Yaml.text s) = ok s
as_text _ = err (unexpected (codes "TypeError"))

unfoldable pub as_number : Yaml → Result ℕ
as_number (Yaml.number n) = ok n
as_number _ = err (unexpected (codes "TypeError"))

unfoldable pub read_texts : Items → Result (List Text)
unfolding as_text
read_texts Items.nil = ok []
read_texts (Items.cons v l) = do s ← as_text v; rest ← read_texts l; ok (s ∷ rest)

-- tuple(pair) for a pair of texts
unfoldable pub read_pair : Yaml → Result (Text × Text)
unfolding as_text
read_pair (Yaml.sequence (Items.cons a (Items.cons b Items.nil))) = do
  s ← as_text a
  t ← as_text b
  ok (s, t)
read_pair _ = err (unexpected (codes "TypeError"))

unfoldable pub read_pairs : Items → Result (List (Text × Text))
unfolding read_pair
read_pairs Items.nil = ok []
read_pairs (Items.cons v l) = do p ← read_pair v; rest ← read_pairs l; ok (p ∷ rest)

unfoldable pub as_items : Yaml → Result Items
as_items (Yaml.sequence l) = ok l
as_items _ = err (unexpected (codes "TypeError"))

unfoldable pub as_fields : Yaml → Result Fields
as_fields (Yaml.mapping d) = ok d
as_fields _ = err (unexpected (codes "TypeError"))

unfoldable pub read_status : Yaml → Result RestorationStateStatus
unfolding as_text parse_status
read_status v = do s ← as_text v; elim (parse_status s) [ none ↦ err value_error | some st ↦ ok st ]

-- data.get(k, default)
unfoldable pub field_or : Text → Yaml → Fields → Yaml
field_or k v d = elim (Yaml.get k d) [ none ↦ v | some w ↦ w ]

module _ (c : Codec) where
  open c use {dumps, loads, isoformat, fromisoformat}

  unfoldable pub optional_date : Option ℕ → Yaml
  optional_date none = Yaml.null
  optional_date (some t) = Yaml.text (isoformat t)

  -- the dictionary of `to_json`
  unfoldable pub to_fields : RestorationState → Fields
  unfolding texts pairs optional_date status_value
  to_fields s =
      (Fields.field (codes "payload_id") (Yaml.text s.payload_id) (
        Fields.field (codes "original_hash") (Yaml.text s.original_hash) (
          Fields.field (codes "original_text") (Yaml.text s.original_text) (
            Fields.field (codes "masked_text") (Yaml.text s.masked_text) (
              Fields.field (codes "mappings") (Yaml.sequence (pairs s.mappings)) (
                Fields.field (codes "entity_count") (Yaml.number s.entity_count) (
                  Fields.field (codes "detected_types") (Yaml.sequence (texts s.detected_types)) (
                    Fields.field (codes "state") (Yaml.text (status_value s.state)) (
                      Fields.field (codes "created_at") (Yaml.text (isoformat s.created_at)) (
                        Fields.field (codes "expires_at") (optional_date s.expires_at) (
                          Fields.field (codes "consumer_id") (Yaml.text s.consumer_id)
                            Fields.end)))))))))))

  -- `to_json`
  unfoldable pub to_json : RestorationState → c.Document
  to_json s = dumps (Yaml.mapping (to_fields s))

  unfoldable pub read_date : Yaml → Result ℕ
  unfolding as_text
  read_date v = do s ← as_text v; elim (fromisoformat s) [ none ↦ err value_error | some t ↦ ok t ]

  -- `if data.get("expires_at")`: what is falsy stays as it is, here None
  unfoldable pub read_optional_date : Yaml → Result (Option ℕ)
  unfolding read_date truthy
  read_optional_date v = elim (truthy v) [
    | true ↦ (do t ← read_date v; ok (some t))
    | false ↦ ok none
  ]

  unfoldable pub from_fields : Text → Fields → Result RestorationState
  unfolding field_of required_of only_parameters as_text as_number as_items field_or Yaml.get
  from_fields payload_id d = do
    state ← field_of (codes "state") d >>= read_status
    created_at ← field_of (codes "created_at") d >>= read_date
    expires_at ← read_optional_date (field_or (codes "expires_at") Yaml.null d)
    consumer_id ← as_text (field_or (codes "consumer_id") (Yaml.text []) d)
    mappings ← as_items (field_or (codes "mappings") (Yaml.sequence Items.nil) d) >>= read_pairs
    given ← only_parameters d
    original_hash ← required_of (codes "original_hash") given >>= as_text
    original_text ← required_of (codes "original_text") given >>= as_text
    masked_text ← required_of (codes "masked_text") given >>= as_text
    entity_count ← as_number (field_or (codes "entity_count") (Yaml.number 0) given)
    detected_types ←
        as_items (field_or (codes "detected_types") (Yaml.sequence Items.nil) given) >>= read_texts
    ok (record {
      payload_id = payload_id;
      original_hash = original_hash;
      original_text = original_text;
      masked_text = masked_text;
      mappings = mappings;
      entity_count = entity_count;
      detected_types = detected_types;
      state = state;
      created_at = created_at;
      expires_at = expires_at;
      consumer_id = consumer_id;
    })

  -- `from_json`
  unfoldable pub from_json : Text → c.Document → Result RestorationState
  unfolding as_fields
  from_json payload_id raw = elim (loads raw) [
    | none ↦ err value_error
    | some v ↦ as_fields v >>= from_fields payload_id
  ]
