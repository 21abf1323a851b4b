-- ===== src/Masking/Engine/Overlap.antt =====
-- Which of two overlapping spans is masked.
use alfa_hackaton.Prelude.{◌≡◌, true, false, some, [], ◌∷◌, arith, Text}
use alfa_hackaton.Prelude.Int.{◌<ℤ◌}
use alfa_hackaton.Prelude.Sort.{sort_by, insert_by}
use alfa_hackaton.Core.Models.{PiiEntity}
use alfa_hackaton.Masking.Engine.{
  valid_of, is_valid, longest_first, is_blocked, select_from, select_spans,
}
use alfa_hackaton.Masking.Engine.Placed.{IsPlaced, is_valid_complete}

selects_first :
    (text : Text) (a b : PiiEntity)
    → is_valid text a ≡ true
    → is_valid text b ≡ true
    → longest_first a b ≡ true
    → longest_first b a ≡ false
    → is_blocked (some a) b ≡ true
    → (select_spans text (a ∷ b ∷ []) ≡ a ∷ []) × (select_spans text (b ∷ a ∷ []) ≡ a ∷ [])
unfolding select_spans valid_of sort_by insert_by
selects_first text a b va vb le gt bl =
    (rw (va, vb) (rw le (rw (bl, select_from))), rw (va, vb) (rw gt (rw (bl, select_from))))

earlier_first :
    (a b : PiiEntity)
    → a.start <ℤ b.start
    → (longest_first a b ≡ true) × (longest_first b a ≡ false)
unfolding longest_first
earlier_first a b h = ground arith

starts_inside : (a b : PiiEntity) → b.start <ℤ a.end → is_blocked (some a) b ≡ true
unfolding is_blocked
starts_inside a b h = ground arith

-- Of two placed spans that overlap, the one that starts earlier is selected and the other dropped,
-- whichever of them is longer and in whichever order they come.
pub select_spans-earlier :
    (text : Text) (a b : PiiEntity)
    → IsPlaced text a
    → IsPlaced text b
    → a.start <ℤ b.start
    → b.start <ℤ a.end
    → (select_spans text (a ∷ b ∷ []) ≡ a ∷ []) × (select_spans text (b ∷ a ∷ []) ≡ a ∷ [])
select_spans-earlier text a b pa pb lt over =
    let (le, gt) = earlier_first a b lt in
    selects_first text a b (is_valid_complete text a pa) (is_valid_complete text b pb) le gt
      (starts_inside a b over)
