-- ===== src/Detection/Engine.antt =====
-- app/detection/engine.py and app/detection/context/resolver.py.
use alfa_hackaton.Prelude.{List, [], ◌∷◌, ◌++◌, Text}
use alfa_hackaton.Core.Errors.{Result, ok, ◌>>=◌}
use alfa_hackaton.Core.Models.{PiiEntity, DetectionContext}
use alfa_hackaton.Detection.Resolution.{resolve_spans}

-- `PIIDetector.detect`
abbrev pub Detector : Type 0
Detector = Text → DetectionContext → Result (List PiiEntity)

-- `ContextResolver.resolve`
unfoldable pub resolve : List PiiEntity → DetectionContext → List PiiEntity
resolve entities context = entities

-- the loop over the detectors
unfoldable pub candidates_of : List Detector → Text → DetectionContext → Result (List PiiEntity)
candidates_of [] text context = ok []
candidates_of (d ∷ ds) text context = do
  found ← d text context
  rest ← candidates_of ds text context
  ok (found ++ rest)

-- `DetectionEngine.detect`, without the processing time
unfoldable pub detect : List Detector → Text → DetectionContext → Result (List PiiEntity)
unfolding resolve
detect detectors text context = do
  candidates ← candidates_of detectors text context
  ok (resolve_spans (resolve candidates context))
