-- ===== src/Restoration/State/RoundTrip.antt =====
-- Reading back what was written.
use alfa_hackaton.Prelude.{
  ℕ, ◌≡◌, refl, false, ◌≢◌, Option, none, some, List, [], ◌∷◌, Text, text_eq,
}
use alfa_hackaton.Core.Enums.{RestorationStateStatus, masked, demasked, status_value}
use alfa_hackaton.Core.Errors.{ok}
use alfa_hackaton.Core.Yaml.{Yaml}
use alfa_hackaton.Restoration.State.Libraries.{Codec}
use alfa_hackaton.Restoration.State.{
  RestorationState, texts, pairs, read_texts, read_pairs, read_status, read_date, optional_date,
  read_optional_date, to_fields, to_json, from_json, from_fields,
}

read_texts-texts : (l : List Text) → read_texts (texts l) ≡ ok l
unfolding read_texts texts
read_texts-texts [] = refl
read_texts-texts (s ∷ l) = rw (read_texts-texts l)

read_pairs-pairs : (l : List (Text × Text)) → read_pairs (pairs l) ≡ ok l
unfolding read_pairs pairs
read_pairs-pairs [] = refl
read_pairs-pairs ((a, b) ∷ l) = rw (read_pairs-pairs l)

read_status-status_value :
    (s : RestorationStateStatus) → read_status (Yaml.text (status_value s)) ≡ ok s
unfolding read_status status_value text_eq
read_status-status_value masked = refl
read_status-status_value demasked = refl

text_eq_nil : (s : Text) → s ≢ [] → text_eq s [] ≡ false
unfolding text_eq
text_eq_nil [] h = absurd (h refl)
text_eq_nil (c ∷ s) h = refl

module _ (c : Codec) where
  read_date-isoformat : (t : ℕ) → read_date c (Yaml.text (c.isoformat t)) ≡ ok t
  unfolding read_date
  read_date-isoformat t = rw (c.fromisoformat-isoformat t)

  read_optional_date-optional_date :
      (o : Option ℕ) → read_optional_date c (optional_date c o) ≡ ok o
  unfolding read_optional_date optional_date
  read_optional_date-optional_date none = refl
  read_optional_date-optional_date (some t) =
      rw (text_eq_nil (c.isoformat t) (c.isoformat-ne_nil t), read_optional_date)
        (rw (read_date-isoformat t))

  from_fields-to_fields :
      (payload_id : Text) (s : RestorationState)
      → from_fields c payload_id (to_fields c s) ≡ ok (record s { payload_id = payload_id })
  unfolding from_fields to_fields text_eq
  from_fields-to_fields payload_id s = rw (read_status-status_value s.state) (
      rw (read_date-isoformat s.created_at) (
        rw (read_optional_date-optional_date s.expires_at)
          (rw (read_pairs-pairs s.mappings) (rw (read_texts-texts s.detected_types)))))

  -- A stored state that is read back under a key is the state, with the key as its payload id.
  pub from_json-to_json :
      (payload_id : Text) (s : RestorationState)
      → from_json c payload_id (to_json c s) ≡ ok (record s { payload_id = payload_id })
  unfolding from_json to_json
  from_json-to_json payload_id s =
      rw (c.loads-dumps (Yaml.mapping (to_fields c s)), from_json)
        (from_fields-to_fields payload_id s)
