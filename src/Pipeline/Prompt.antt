-- ===== src/Pipeline/Prompt.antt =====
-- What the language model is shown.
use alfa_hackaton.Prelude.{ℕ, ◌≡◌, refl, ap, List, All, Text, codes, inl, inr}
use alfa_hackaton.Core.Errors.{Result, ok, ◌>>=◌, Result-cases}
use alfa_hackaton.Core.Models.{PiiEntity}
use alfa_hackaton.Detection.Engine
use alfa_hackaton.Detection.Engine.{Detector}
use alfa_hackaton.Masking.Chars.{CharClass}
use alfa_hackaton.Masking.Context.{resolve_context_rules}
use alfa_hackaton.Masking.Engine.Full.{IsFull, IsHidden, masked_of, mask_full}
use alfa_hackaton.Masking.Engine.Pieces.{HasDecimals}
use alfa_hackaton.Policies.{ConsumerPolicy}
use alfa_hackaton.Processing.{enabled_of}
use alfa_hackaton.Pipeline.{Adapter, restore, run}

module _ (chars : CharClass) (tokens : ℕ → Text) (detectors : List Detector) where
  -- Under the full mask of every type, and where the digits of the detected entities are decimal,
  -- two models give the same result if they agree on the texts that the original becomes when every
  -- value to be masked is hidden, which means its letters and digits are replaced by stars: the model
  -- is shown no text in which one of these values still has a letter or digit at its place. The
  -- values to be masked are those of the detected entities of the enabled types that the masking
  -- engine selects and the context rules allow.
  pub run-IsHidden :
      (generate generate' : Adapter) (text : Text) (policy : ConsumerPolicy)
      → IsFull policy.masking
      → ((es : List PiiEntity)
          → Engine.detect detectors text
              (record { consumer_id = policy.consumer_id; language = codes "ru" })
            ≡ ok es
          → All (HasDecimals chars) (enabled_of policy.enabled_types es))
      → ((es : List PiiEntity)
          → Engine.detect detectors text
              (record { consumer_id = policy.consumer_id; language = codes "ru" })
            ≡ ok es
          → (prompt : Text)
          → IsHidden chars text
              (masked_of text
                (enabled_of policy.enabled_types es)
                (resolve_context_rules policy.context_rules))
              prompt
          → generate prompt ≡ generate' prompt)
      → run chars tokens detectors generate text policy
        ≡ run chars tokens detectors generate' text policy
  unfolding run
  run-IsHidden generate generate' text policy full decimals agree =
      elim (Result-cases (
        Engine.detect detectors text
          (record { consumer_id = policy.consumer_id; language = codes "ru" }))) [
            | inr (e, q) ↦ rw (q, run) refl
            | inl (es, q) ↦
                let (r, masked, hidden) =
                  mask_full chars tokens text (enabled_of policy.enabled_types es) policy.masking
                    policy.context_rules full (decimals es q) in
                rw (q, run)
                  (rw (masked, run)
                    (ap (λ (x : Result Text). x >>= λ output. ok (restore r.mappings output))
                      (agree es q r.masked_text hidden)))
          ]
