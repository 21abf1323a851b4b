-- ===== src/Tests/Detection.antt =====
-- The theorems on app/detection at concrete inputs.
use alfa_hackaton.Prelude.{◌≡◌, refl, inl, inr, [], ◌∷◌, arith, In}
use alfa_hackaton.Prelude.Sort.{sort_by}
use alfa_hackaton.Prelude.Dict.{lookup, insert}
use alfa_hackaton.Core.Spans.{AreDisjoint}
use alfa_hackaton.Detection.Resolution.{
  resolve_spans, resolve_sorted, overlaps, better, priority, best_of, keep_best, key_eq, span_le,
  resolve_from,
}
use alfa_hackaton.Detection.Resolution.Disjoint.{resolve_spans-AreDisjoint}
use alfa_hackaton.Detection.Resolution.Kept.{resolve_spans-In, resolve_sorted-chain}
use alfa_hackaton.Core.Enums.{type_eq}
use alfa_hackaton.Tests.Data.{chain_a, chain_b, chain_c, mail, code_pin}

resolve_spans_runs : resolve_spans (chain_c ∷ chain_a ∷ chain_b ∷ []) ≡ chain_c ∷ []
unfolding resolve_spans resolve_sorted resolve_from overlaps better priority best_of keep_best
    key_eq span_le sort_by lookup insert type_eq
resolve_spans_runs = refl

resolve_spans-AreDisjoint_example : AreDisjoint (resolve_spans (chain_b ∷ chain_a ∷ mail ∷ []))
resolve_spans-AreDisjoint_example =
    resolve_spans-AreDisjoint (chain_b ∷ chain_a ∷ mail ∷ []) (omega arith)

resolve_spans-In_example : In chain_b (resolve_spans (chain_a ∷ chain_b ∷ code_pin ∷ []))
unfolding overlaps priority
resolve_spans-In_example =
    resolve_spans-In chain_b (chain_a ∷ chain_b ∷ code_pin ∷ []) (omega arith) (inr (inl refl))
      (inr (inr refl), (inl refl, (inr (inr refl), tt)))

resolve_sorted-chain_example :
    (resolve_sorted (chain_a ∷ chain_b ∷ chain_c ∷ []) ≡ chain_c ∷ [])
    × (¬ In chain_a (resolve_sorted (chain_a ∷ chain_b ∷ chain_c ∷ [])))
unfolding overlaps priority
resolve_sorted-chain_example = resolve_sorted-chain chain_a chain_b chain_c refl refl refl refl refl
