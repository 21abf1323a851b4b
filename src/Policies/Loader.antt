-- ===== src/Policies/Loader.antt =====
-- app/policies/loader.py: `FilePolicyProvider`. A file is its stem with what `yaml.safe_load` reads.
pub mod Loaded
use alfa_hackaton.Prelude.{
  Bool, true, false, Option, none, some, List, [], ◌∷◌, ◌++◌, Text, codes, text_eq, if◌then◌else◌,
}
use alfa_hackaton.Prelude.Dict.{lookup, insert}
use alfa_hackaton.Core.Enums.{PiiType, MaskingStrategy, parse_pii_type, parse_strategy, type_eq}
use alfa_hackaton.Core.Errors.{
  Error, Result, ok, err, ◌>>=◌, consumer_not_allowed, value_error, unexpected,
}
use alfa_hackaton.Core.Yaml
use alfa_hackaton.Core.Yaml.{Yaml, Items, Fields, truthy}
use alfa_hackaton.Policies.{ConsumerPolicy}

-- raw.get(k, default)
unfoldable pub value_or : Text → Yaml → Fields → Yaml
value_or k v d = elim (Yaml.get k d) [ none ↦ v | some w ↦ w ]

-- the value as something that has `get` and `items`
unfoldable pub as_mapping : Yaml → Result Fields
as_mapping (Yaml.mapping d) = ok d
as_mapping _ = err (unexpected (codes "AttributeError"))

-- PIIType(v)
unfoldable pub member_of : Yaml → Result PiiType
member_of (Yaml.text s) = elim (parse_pii_type s) [ none ↦ err value_error | some t ↦ ok t ]
member_of _ = err value_error

-- MaskingStrategy(v)
unfoldable pub strategy_from : Yaml → Result MaskingStrategy
strategy_from (Yaml.text s) = elim (parse_strategy s) [ none ↦ err value_error | some t ↦ ok t ]
strategy_from _ = err value_error

unfoldable pub members_of : Items → Result (List PiiType)
unfolding member_of
members_of Items.nil = ok []
members_of (Items.cons v l) = do t ← member_of v; rest ← members_of l; ok (t ∷ rest)

-- over the keys of a dictionary
unfoldable pub key_members : Fields → Result (List PiiType)
unfolding member_of
key_members Fields.end = ok []
key_members (Fields.field k _ d) = do
  t ← member_of (Yaml.text k)
  rest ← key_members d
  ok (t ∷ rest)

-- [PIIType(t) for t in v]; no character is the name of a member
unfoldable pub enabled_types_of : Yaml → Result (List PiiType)
unfolding members_of key_members
enabled_types_of (Yaml.sequence l) = members_of l
enabled_types_of (Yaml.mapping d) = key_members d
enabled_types_of (Yaml.text []) = ok []
enabled_types_of (Yaml.text (_ ∷ _)) = err value_error
enabled_types_of _ = err (unexpected (codes "TypeError"))

-- {PIIType(k): MaskingStrategy(v) for k, v in d.items()}
unfoldable pub masking_of :
    Fields → List (PiiType × MaskingStrategy) → Result (List (PiiType × MaskingStrategy))
unfolding member_of strategy_from
masking_of Fields.end m = ok m
masking_of (Fields.field k v d) m = do
  t ← member_of (Yaml.text k)
  s ← strategy_from v
  masking_of d (insert type_eq t s m)

-- The rules as the masking engine reads them. The loader passes any value on; one that is no list of
-- dictionaries, on which every later request fails, is an error of the model.
unfoldable pub rules_of : Items → Result (List Fields)
unfolding as_mapping
rules_of Items.nil = ok []
rules_of (Items.cons v l) = do d ← as_mapping v; rest ← rules_of l; ok (d ∷ rest)

unfoldable pub context_rules_of : Yaml → Result (Option (List Fields))
unfolding rules_of
context_rules_of Yaml.null = ok none
context_rules_of (Yaml.sequence l) = rules_of l >>= (λ r. ok (some r))
context_rules_of _ = err (unexpected (codes "TypeError"))

-- yaml.safe_load(...) or {}
unfoldable pub or_empty : Yaml → Yaml
or_empty v = if truthy v then v else Yaml.mapping Fields.end

-- `_load_file` on the dictionary
unfoldable pub policy_of : Text → Fields → Result ConsumerPolicy
unfolding value_or as_mapping enabled_types_of masking_of context_rules_of
policy_of consumer_id raw = do
  detection ← as_mapping (value_or (codes "detection") (Yaml.mapping Fields.end) raw)
  enabled_types ←
      enabled_types_of (value_or (codes "enabled_types") (Yaml.sequence Items.nil) detection)
  masking_raw ← as_mapping (value_or (codes "masking") (Yaml.mapping Fields.end) raw)
  masking ← masking_of masking_raw []
  demasking ← as_mapping (value_or (codes "demasking") (Yaml.mapping Fields.end) raw)
  context_rules ← context_rules_of (value_or (codes "context_rules") (Yaml.sequence Items.nil) raw)
  ok (record {
    consumer_id = consumer_id;
    enabled = truthy (value_or (codes "enabled") (Yaml.boolean true) raw);
    enabled_types = enabled_types;
    masking = masking;
    demasking_enabled = truthy (value_or (codes "enabled") (Yaml.boolean true) demasking);
    context_rules = context_rules;
  })

-- `_load_file`
unfoldable pub load_file : Text → Yaml → Result ConsumerPolicy
unfolding or_empty as_mapping policy_of
load_file stem content = as_mapping (or_empty content) >>= policy_of stem

-- `_load_all`, from the policies that are there
unfoldable pub load_all :
    List (Text × Yaml) → List (Text × ConsumerPolicy) → Result (List (Text × ConsumerPolicy))
unfolding load_file
load_all [] policies = ok policies
load_all ((stem, content) ∷ files) policies = do
  policy ← load_file stem content
  load_all files (insert text_eq policy.consumer_id policy policies)

-- `get_policy`
unfoldable pub get_policy : Text → List (Text × ConsumerPolicy) → Result ConsumerPolicy
get_policy consumer_id policies = elim (lookup text_eq consumer_id policies) [
  | none ↦ err (consumer_not_allowed (codes "consumer not allowed: " ++ consumer_id))
  | some policy ↦
      if policy.enabled
      then ok policy
      else err (consumer_not_allowed (codes "consumer not allowed: " ++ consumer_id))
]
