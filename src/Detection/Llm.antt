-- ===== src/Detection/Llm.antt =====
-- app/detection/llm_detector.py: `LLMDetector`. The client and `json.loads` are parameters; the cache
-- of completions is left out.
pub mod Found
use alfa_hackaton.Prelude.{
  ℕ, ◌+◌, Bool, true, false, Option, none, some, List, [], ◌∷◌, Text, codes, length, if◌then◌else◌,
}
use alfa_hackaton.Prelude.Int.{pos}
use alfa_hackaton.Prelude.Search.{find}
use alfa_hackaton.Core.Enums.{PiiType, parse_pii_type}
use alfa_hackaton.Core.Errors.{Result, ok, err, ◌>>=◌, key_error, value_error, unexpected}
use alfa_hackaton.Core.Models.{PiiEntity, DetectionContext}
use alfa_hackaton.Core.Yaml
use alfa_hackaton.Core.Yaml.{Yaml, Items, Fields}

-- v[k] with a text as the key
unfoldable pub get_item : Text → Yaml → Result Yaml
get_item k (Yaml.mapping d) = elim (Yaml.get k d) [ none ↦ err key_error | some v ↦ ok v ]
get_item k _ = err (unexpected (codes "TypeError"))

-- `for item in v`: the characters of a text and the keys of a dictionary are texts.
unfoldable pub texts_of : Text → Items
texts_of [] = Items.nil
texts_of (c ∷ s) = Items.cons (Yaml.text (c ∷ [])) (texts_of s)

unfoldable pub keys_of : Fields → Items
keys_of Fields.end = Items.nil
keys_of (Fields.field k _ d) = Items.cons (Yaml.text k) (keys_of d)

unfoldable pub iterate : Yaml → Result Items
unfolding texts_of keys_of
iterate (Yaml.sequence l) = ok l
iterate (Yaml.text s) = ok (texts_of s)
iterate (Yaml.mapping d) = ok (keys_of d)
iterate _ = err (unexpected (codes "TypeError"))

-- `PIIType(v)`, where ValueError means that the item is skipped
unfoldable pub type_or_skip : Yaml → Option PiiType
type_or_skip (Yaml.text s) = parse_pii_type s
type_or_skip _ = none

-- the argument of `text.find`
unfoldable pub needle_of : Yaml → Result Text
needle_of (Yaml.text s) = ok s
needle_of _ = err (unexpected (codes "TypeError"))

unfoldable pub entity_at : PiiType → Text → ℕ → PiiEntity
entity_at t needle start = record {
  type = t;
  value = needle;
  start = pos start;
  end = pos (start + length needle);
  confidence = 800;
  detector = codes "llm";
}

-- what `text.find` gives, as no entity or one
unfoldable pub entity_found : PiiType → Text → Option ℕ → List PiiEntity → List PiiEntity
unfolding entity_at
entity_found t needle none rest = rest
entity_found t needle (some start) rest = entity_at t needle start ∷ rest

-- The loop of `_parse_response`.
unfoldable pub parse_items : Text → Items → Result (List PiiEntity)
unfolding get_item type_or_skip needle_of entity_found
parse_items text Items.nil = ok []
parse_items text (Items.cons item l) = get_item (codes "type") item >>= λ kind.
    elim (type_or_skip kind) [
      | none ↦ parse_items text l
      | some t ↦ do
        v ← get_item (codes "text") item
        needle ← needle_of v
        rest ← parse_items text l
        ok (entity_found t needle (find needle text) rest)
    ]

module _ (loads : Text → Option Yaml) (complete : Text → Result Text) where
  -- `_parse_response`
  unfoldable pub parse_response : Text → Text → Result (List PiiEntity)
  unfolding get_item iterate parse_items
  parse_response text response = elim (loads response) [
    | none ↦ err value_error
    | some payload ↦ do v ← get_item (codes "entities") payload; l ← iterate v; parse_items text l
  ]

  unfoldable pub or_nothing : Result (List PiiEntity) → List PiiEntity
  or_nothing (ok es) = es
  or_nothing (err e) = []

  -- `detect`: every exception means that nothing is found.
  unfoldable pub detect : Bool → Text → DetectionContext → Result (List PiiEntity)
  unfolding parse_response or_nothing
  detect enabled text context =
      let found = or_nothing (complete text >>= parse_response text) in
      if enabled then ok found else ok []
