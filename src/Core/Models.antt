-- ===== src/Core/Models.antt =====
-- app/core/models.py: what a detector finds.
use alfa_hackaton.Prelude.{ℕ, Text}
use alfa_hackaton.Prelude.Int.{ℤ}
use alfa_hackaton.Core.Enums.{PiiType}

-- `PIIEntity`. The confidence is in thousandths (the program's values are 1.0 and 0.8); the
-- free-form `metadata`, which nothing reads, is left out.
pub record PiiEntity : Type 0 where
  pub type : PiiType
  pub value : Text
  pub start : ℤ
  pub end : ℤ
  pub confidence : ℕ
  pub detector : Text

-- `DetectionContext`, without the `metadata`.
pub record DetectionContext : Type 0 where
  pub consumer_id : Text
  pub language : Text
