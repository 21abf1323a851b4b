-- ===== src/Tests/Policies.antt =====
-- The theorem on app/policies/loader.py at a concrete input.
use alfa_hackaton.Prelude.{
  ◌≡◌, ◌↔◌, refl, true, false, none, some, List, [], ◌∷◌, Text, codes, text_eq,
}
use alfa_hackaton.Prelude.Dict.{lookup}
use alfa_hackaton.Core.Enums.{pin, full_mask}
use alfa_hackaton.Core.Errors.{ok}
use alfa_hackaton.Core.Yaml.{Yaml, Items, Fields}
use alfa_hackaton.Policies.{ConsumerPolicy}
use alfa_hackaton.Policies.Loader.{load_all, load_file, get_policy}
use alfa_hackaton.Policies.Loader.Loaded.{get_policy-load_all}

-- detection: {enabled_types: [PIN]}, masking: {PIN: FULL_MASK}, demasking: {enabled: false}
abbrev content : Yaml
content = Yaml.mapping (
    Fields.field (codes "detection")
      (Yaml.mapping (
        Fields.field (codes "enabled_types")
          (Yaml.sequence (Items.cons (Yaml.text (codes "PIN")) Items.nil)) Fields.end))
      (Fields.field (codes "masking")
        (Yaml.mapping (Fields.field (codes "PIN") (Yaml.text (codes "FULL_MASK")) Fields.end))
        (Fields.field (codes "demasking")
          (Yaml.mapping (Fields.field (codes "enabled") (Yaml.boolean false) Fields.end))
          Fields.end)))

abbrev policy : ConsumerPolicy
policy = record {
  consumer_id = codes "c";
  enabled = true;
  enabled_types = pin ∷ [];
  masking = (pin, full_mask) ∷ [];
  demasking_enabled = false;
  context_rules = some [];
}

abbrev files : List (Text × Yaml)
files = (codes "c", content) ∷ []

loads : load_all files [] ≡ ok ((codes "c", policy) ∷ [])
unfolding load_all alfa_hackaton.Policies.Loader.value_or alfa_hackaton.Policies.Loader.as_mapping
    alfa_hackaton.Policies.Loader.member_of alfa_hackaton.Policies.Loader.strategy_from
    alfa_hackaton.Policies.Loader.members_of alfa_hackaton.Policies.Loader.enabled_types_of
    alfa_hackaton.Policies.Loader.masking_of alfa_hackaton.Policies.Loader.rules_of
    alfa_hackaton.Policies.Loader.context_rules_of alfa_hackaton.Policies.Loader.or_empty
    alfa_hackaton.Policies.Loader.policy_of load_file alfa_hackaton.Core.Yaml.get
    alfa_hackaton.Core.Yaml.truthy alfa_hackaton.Core.Enums.parse_pii_type
    alfa_hackaton.Core.Enums.parse_strategy alfa_hackaton.Core.Enums.members
    alfa_hackaton.Core.Enums.value alfa_hackaton.Core.Enums.type_eq
    alfa_hackaton.Core.Enums.type_index text_eq alfa_hackaton.Prelude.Dict.insert
loads = refl

get_policy-load_all_example : (get_policy (codes "c") ((codes "c", policy) ∷ []) ≡ ok policy) ↔ (
    (v : Yaml) × (lookup text_eq (codes "c") files ≡ some v)
    × (load_file (codes "c") v ≡ ok policy)
    × (policy.enabled ≡ true))
unfolding lookup
get_policy-load_all_example =
    get_policy-load_all (codes "c") files ((codes "c", policy) ∷ []) policy (refl, tt) loads
