-- ===== src/Policies.antt =====
-- app/policies: what a consumer may do.
pub mod Loader
use alfa_hackaton.Prelude.{Bool, Option, none, some, List, Text}
use alfa_hackaton.Prelude.Dict.{lookup}
use alfa_hackaton.Core.Enums.{PiiType, MaskingStrategy, full_mask, type_eq}
use alfa_hackaton.Core.Yaml.{Fields}

-- `ConsumerPolicy`
pub record ConsumerPolicy : Type 0 where
  pub consumer_id : Text
  pub enabled : Bool
  pub enabled_types : List PiiType
  pub masking : List (PiiType × MaskingStrategy)
  pub demasking_enabled : Bool
  pub context_rules : Option (List Fields)

-- `strategy_for`
unfoldable pub strategy_for : ConsumerPolicy → PiiType → MaskingStrategy
strategy_for p t = elim (lookup type_eq t p.masking) [ none ↦ full_mask | some s ↦ s ]
