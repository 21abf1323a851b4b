-- ===== src/Pipeline.antt =====
-- app/processing/secure_llm_pipeline.py and app/llm: `SecureLLMPipeline`. The language model is a
-- function on texts that may fail.
pub mod Prompt
use alfa_hackaton.Prelude.{ℕ, List, [], ◌∷◌, Text, codes}
use alfa_hackaton.Prelude.Search.{replace}
use alfa_hackaton.Core.Errors.{Result, ok, ◌>>=◌}
use alfa_hackaton.Detection.Engine
use alfa_hackaton.Detection.Engine.{Detector}
use alfa_hackaton.Masking.Chars.{CharClass}
use alfa_hackaton.Masking.Engine.{mask}
use alfa_hackaton.Policies.{ConsumerPolicy}
use alfa_hackaton.Processing.{enabled_of}

-- `LLMAdapter.generate`
abbrev pub Adapter : Type 0
Adapter = Text → Result Text

-- `MockLLMAdapter.generate`
unfoldable pub mock_generate : Adapter
mock_generate prompt = ok prompt

-- the loop over the mappings
unfoldable pub restore : List (Text × Text) → Text → Text
unfolding replace
restore [] s = s
restore ((replacement, original) ∷ l) s = restore l (replace replacement original s)

-- `run`
unfoldable pub run :
    CharClass → (ℕ → Text) → List Detector → Adapter → Text → ConsumerPolicy → Result Text
unfolding restore
run chars tokens detectors generate text policy = do
  found ←
      Engine.detect detectors text
        (record { consumer_id = policy.consumer_id; language = codes "ru" })
  masking ←
      mask chars tokens text (enabled_of policy.enabled_types found) policy.masking
        policy.context_rules
  output ← generate masking.masked_text
  ok (restore masking.mappings output)
