-- ===== src/Masking/Context.antt =====
-- app/masking/engine.py: the context rules, which say that a type is masked only beside others.
use alfa_hackaton.Prelude.{
  Bool, true, false, ◌||◌, Option, none, some, List, [], ◌∷◌, codes, if◌then◌else◌,
}
use alfa_hackaton.Prelude.Dict.{lookup, insert}
use alfa_hackaton.Core.Enums.{PiiType, type_eq, parse_pii_type}
use alfa_hackaton.Core.Yaml
use alfa_hackaton.Core.Yaml.{Yaml, Items, Fields}
use alfa_hackaton.Masking.Strategies.{one_of}

-- a map from a type to the set of types that it requires
abbrev pub Rules : Type 0
Rules = List (PiiType × List PiiType)

-- `CONTEXT_REQUIRES`
abbrev pub default_rules : Rules
default_rules = []

-- `PIIType(v)` for any value; `none` is the ValueError
unfoldable pub parse_member : Yaml → Option PiiType
unfolding parse_pii_type
parse_member (Yaml.text s) = parse_pii_type s
parse_member _ = none

-- `_parse_rule_type`
unfoldable pub parse_rule_type : Fields → Option PiiType
unfolding parse_member Yaml.get
parse_rule_type rule = elim (Yaml.get (codes "type") rule) [ none ↦ none | some v ↦ parse_member v ]

-- the loop of `_parse_required_types`
unfoldable pub required_items : Items → Option (List PiiType)
required_items Items.nil = some []
required_items (Items.cons v items) =
    let rest = required_items items in
    elim (parse_member v) [
      | none ↦ none
      | some t ↦ elim rest [ none ↦ none | some l ↦ some (t ∷ l) ]
    ]

-- `_parse_required_types`; `none` stands for the key that is not there
unfoldable pub parse_required_types : Option Yaml → Option (List PiiType)
unfolding required_items parse_member
parse_required_types (some (Yaml.sequence (Items.cons v items))) =
    required_items (Items.cons v items)
parse_required_types _ = none

-- `rule.get("enabled", True) is False`
unfoldable pub is_disabled : Fields → Bool
unfolding Yaml.get
is_disabled rule = elim (Yaml.get (codes "enabled") rule) [
  | some (Yaml.boolean false) ↦ true
  | _ ↦ false
]

-- one round of the loop of `_resolve_context_rules`
unfoldable pub add_rule : Rules → Fields → Rules
unfolding parse_rule_type parse_required_types is_disabled Yaml.get
add_rule rules rule = elim (parse_rule_type rule) [
  | none ↦ rules
  | some t ↦
      if is_disabled rule
      then insert type_eq t [] rules
      else elim (parse_required_types (Yaml.get (codes "requires") rule)) [
        | none ↦ rules
        | some required ↦ insert type_eq t required rules
      ]
]

unfoldable pub add_rules : Rules → List Fields → Rules
add_rules rules [] = rules
add_rules rules (r ∷ rs) = add_rules (add_rule rules r) rs

unfoldable pub or_default : Rules → Rules
or_default [] = default_rules
or_default (r ∷ rules) = r ∷ rules

-- `_resolve_context_rules`; `none` is Python's None
unfoldable pub resolve_context_rules : Option (List Fields) → Rules
unfolding add_rules add_rule or_default
resolve_context_rules none = default_rules
resolve_context_rules (some []) = default_rules
resolve_context_rules (some (r ∷ rs)) = or_default (add_rules [] (r ∷ rs))

-- `required & present_types`, as a truth value
unfoldable pub intersects : List PiiType → List PiiType → Bool
unfolding one_of
intersects [] present = false
intersects (t ∷ l) present = one_of t present || intersects l present

-- `_context_allows`
unfoldable pub context_allows : PiiType → List PiiType → Rules → Bool
unfolding intersects
context_allows t present rules = elim (lookup type_eq t rules) [
  | none ↦ true
  | some [] ↦ true
  | some (r ∷ required) ↦ intersects (r ∷ required) present
]
