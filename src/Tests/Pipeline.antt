-- ===== src/Tests/Pipeline.antt =====
-- The theorems on app/processing/secure_llm_pipeline.py at concrete inputs.
use alfa_hackaton.Prelude.{
  ℕ, ◌≡◌, refl, sym, ap, ◌∙◌, false, ◌++◌, [], ◌∷◌, All, Text, codes, List, slice, if◌then◌else◌,
}
use alfa_hackaton.Core.Enums.{pin}
use alfa_hackaton.Core.Errors.{ok, err, value_error, ok_injective}
use alfa_hackaton.Core.Models.{PiiEntity}
use alfa_hackaton.Detection.Engine
use alfa_hackaton.Masking.Chars.{latin, is_alnum}
use alfa_hackaton.Masking.Engine.Pieces.{Piece, replacements, HasDecimals}
use alfa_hackaton.Masking.Strategies.Hiding.{IsStarred}
use alfa_hackaton.Masking.Context.{resolve_context_rules}
use alfa_hackaton.Masking.Engine.Full.{IsHidden, AreHidden, masked_of}
use alfa_hackaton.Pipeline.{restore, Adapter, mock_generate, run}
use alfa_hackaton.Pipeline.Prompt.{run-IsHidden}
use alfa_hackaton.Processing.{enabled_of}
use alfa_hackaton.Tests.Data.{entity}
use alfa_hackaton.Tests.World.{environment, consumer, payload}

-- A model that refuses a prompt with a letter or digit at the place of the code, as in the original.
abbrev strict : Adapter
strict (a ∷ b ∷ c ∷ d ∷ s) = if is_alnum latin d then err value_error else ok (a ∷ b ∷ c ∷ d ∷ s)
strict s = ok s

refuses : strict payload ≡ err value_error
refuses = refl

abbrev code : PiiEntity
code = entity pin (codes "1234") 3 7

found :
    Engine.detect environment.detectors payload
      (record { consumer_id = codes "c"; language = codes "ru" })
    ≡ ok (code ∷ [])
unfolding alfa_hackaton.Detection.Engine.detect Engine.candidates_of
    alfa_hackaton.Detection.Resolution.resolve_spans
    alfa_hackaton.Detection.Resolution.resolve_sorted alfa_hackaton.Detection.Resolution.best_of
    alfa_hackaton.Detection.Resolution.keep_best alfa_hackaton.Detection.Resolution.resolve_from
    alfa_hackaton.Prelude.Sort.sort_by alfa_hackaton.Prelude.Dict.lookup
    alfa_hackaton.Prelude.Dict.insert
found = refl

decimal : All (HasDecimals latin) (enabled_of consumer.enabled_types (code ∷ []))
unfolding enabled_of alfa_hackaton.Core.Enums.type_eq
decimal = ((refl, (refl, (refl, (refl, tt)))), tt)

same :
    (es : List PiiEntity)
    → Engine.detect environment.detectors payload
        (record { consumer_id = codes "c"; language = codes "ru" })
      ≡ ok es
    → code ∷ [] ≡ es
same es q = ok_injective (sym found ∙ q)

-- the code is what is masked
hidden_code :
    masked_of payload
      (enabled_of consumer.enabled_types (code ∷ []))
      (resolve_context_rules consumer.context_rules)
    ≡ code ∷ []
unfolding enabled_of alfa_hackaton.Masking.Engine.select_spans alfa_hackaton.Prelude.Sort.sort_by
    alfa_hackaton.Masking.Engine.valid_of alfa_hackaton.Core.Enums.type_eq
    alfa_hackaton.Masking.Engine.is_valid alfa_hackaton.Prelude.text_eq slice
    alfa_hackaton.Masking.Context.context_allows alfa_hackaton.Prelude.Dict.lookup
    resolve_context_rules
hidden_code = refl

agree_text :
    (gap r tail : Text)
    → gap ≡ slice payload 0 3
    → IsStarred (is_alnum latin) (codes "1234") r
    → All (λ c. is_alnum latin c ≡ false) r
    → mock_generate (gap ++ (r ++ tail)) ≡ strict (gap ++ (r ++ tail))
unfolding mock_generate slice
agree_text gap [] tail g starred h = elim starred [ ]
agree_text gap (d ∷ r) tail g starred (hidden, h) = rw g (rw hidden refl)

agree_pieces :
    (ps : List Piece) (tail : Text)
    → AreHidden latin payload 0 (code ∷ []) ps
    → mock_generate (replacements ps tail) ≡ strict (replacements ps tail)
agree_pieces [] tail h = elim h [ ]
agree_pieces (p ∷ q ∷ ps) tail (gap, value, starred, hides, h) = elim h [ ]
agree_pieces (p ∷ []) tail (gap, value, starred, hides, h) =
    agree_text p.gap p.replacement tail gap starred hides

agree :
    (prompt : Text)
    → IsHidden latin payload (code ∷ []) prompt
    → mock_generate prompt ≡ strict prompt
agree prompt h = rw (h.replaced) (agree_pieces h.pieces h.tail h.hidden)

run-IsHidden_example :
    run latin (λ n. []) environment.detectors mock_generate payload consumer
    ≡ run latin (λ n. []) environment.detectors strict payload consumer
unfolding alfa_hackaton.Masking.Engine.strategy_of alfa_hackaton.Prelude.Dict.lookup
run-IsHidden_example =
    run-IsHidden latin (λ n. []) environment.detectors mock_generate strict payload consumer
      (λ t. refl) (λ es q. rw (← same es q) decimal)
      (λ es q prompt h. agree prompt (rw (← same es q, hidden_code) at h))

-- Two values with the same mask: the first comes back in the place of both.
collision :
    restore ((codes "****", codes "1234") ∷ (codes "****", codes "5678") ∷ []) (codes "**** ****")
    ≡ codes "1234 1234"
unfolding restore alfa_hackaton.Prelude.Search.replace
collision = refl
