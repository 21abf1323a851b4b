-- ===== src/Tests/Masking.antt =====
-- The theorems on app/masking at concrete inputs.
use alfa_hackaton.Prelude.{
  ℕ, ◌-◌, false, ◌≡◌, refl, inl, inr, none, [], ◌∷◌, ◌++◌, arith, In, All, Text, codes, length,
  slice, text_eq, drop, take, leb, if◌then◌else◌,
}
use alfa_hackaton.Prelude.Sort.{sort_by}
use alfa_hackaton.Prelude.Dict.{lookup}
use alfa_hackaton.Core.Errors.{ok, err, index_error}
use alfa_hackaton.Core.Models.{PiiEntity}
use alfa_hackaton.Core.Spans.{AreDisjoint}
use alfa_hackaton.Detection.Resolution.{resolve_spans}
use alfa_hackaton.Masking.Chars.{latin, is_alnum}
use alfa_hackaton.Masking.Context.{context_allows, resolve_context_rules}
use alfa_hackaton.Masking.Strategies.{
  apply_strategy, mask_all_alnum, mask_numeric_edges, mask_email, find_all, mask_initials,
}
use alfa_hackaton.Masking.Strategies.Hiding.{mask_all_alnum-hides}
use alfa_hackaton.Masking.Strategies.Edges.{
  shown, mask_numeric_edges-shown, mask_numeric_edges-raises,
}
use alfa_hackaton.Masking.Strategies.Email.{mask_email-parts}
use alfa_hackaton.Masking.Engine.{
  valid_of, is_valid, longest_first, start_le, MaskingResult, select_spans, mask, strategy_of,
}
use alfa_hackaton.Masking.Engine.Selection.{
  select_spans-IsPlaced, select_spans-Covers, select_spans-resolve_spans,
}
use alfa_hackaton.Masking.Engine.Coverage.{Covers}
use alfa_hackaton.Masking.Engine.Placed.{IsPlaced}
use alfa_hackaton.Masking.Engine.Overlap.{select_spans-earlier}
use alfa_hackaton.Masking.Engine.Weave.{IsWoven, mask-IsWoven}
use alfa_hackaton.Masking.Engine.Pieces.{HasDecimals}
use alfa_hackaton.Masking.Engine.Full.{IsHidden, masked_of, mask_full}
use alfa_hackaton.Tests.Data.{letter, mail, code_pin, short, long}

numeric_runs :
    (mask_numeric_edges latin (codes "4509 123456") ≡ ok (codes "45** ****56"))
    × (mask_numeric_edges latin (codes "4567 8901 2345 6756") ≡ ok (codes "45** **** **** **56"))
unfolding mask_numeric_edges
numeric_runs = (refl, refl)

email_runs : mask_email latin (codes "test@example.com") ≡ codes "t***@example.com"
unfolding mask_email
email_runs = refl

initials_run : mask_initials latin (codes "Ivanov Ivan Ivanovich") ≡ codes "I. I. I."
unfolding mask_initials
initials_run = refl

mask_all_alnum-hides_example :
    (length (mask_all_alnum latin (codes "a-1")) ≡ 3)
    × All (λ c. is_alnum latin c ≡ false) (mask_all_alnum latin (codes "a-1"))
    × (mask_all_alnum latin (codes "a-1") ≡ mask_all_alnum latin (codes "9-z"))
mask_all_alnum-hides_example =
    mask_all_alnum-hides latin (codes "a-1") (codes "9-z")
      (inr (refl, refl), (inl refl, (inr (refl, refl), tt)))

mask_numeric_edges-shown_example :
    (r : Text) × (mask_numeric_edges latin (codes "12-345") ≡ ok r)
    × (length r ≡ 6)
    × (shown latin r ≡ (
        if leb (length (shown latin (codes "12-345"))) 4
        then []
        else take 2 (shown latin (codes "12-345"))
          ++ drop (length (shown latin (codes "12-345")) - 2) (shown latin (codes "12-345"))))
mask_numeric_edges-shown_example =
    mask_numeric_edges-shown latin (codes "12-345")
      (refl, (refl, (refl, (refl, (refl, (refl, tt))))))

-- 178 is the superscript two.
mask_numeric_edges-raises_example :
    mask_numeric_edges latin (codes "12345" ++ (178 ∷ [])) ≡ err index_error
unfolding find_all
mask_numeric_edges-raises_example =
    mask_numeric_edges-raises latin (codes "12345" ++ (178 ∷ [])) (omega arith) (omega arith)

mask_email-parts_example :
    (mask_email latin (codes "ab@c.de") ≡ codes "a***@c.de")
    × (mask_email latin (codes "@c.de") ≡ codes "*@c.de")
mask_email-parts_example = mask_email-parts latin b'a' (codes "b") (codes "c.de") (omega arith)

letter-mail : IsPlaced letter mail
unfolding slice
letter-mail = (omega arith, omega arith, omega arith, refl)

letter_pin : IsPlaced letter code_pin
unfolding slice
letter_pin = (omega arith, omega arith, omega arith, refl)

select_spans-IsPlaced_example :
    All (λ e. Unit {0} × IsPlaced letter e) (select_spans letter (code_pin ∷ mail ∷ []))
    × AreDisjoint (select_spans letter (code_pin ∷ mail ∷ []))
select_spans-IsPlaced_example = select_spans-IsPlaced letter (code_pin ∷ mail ∷ [])

select_spans-Covers_example :
    (s : PiiEntity) × In s (select_spans letter (mail ∷ code_pin ∷ [])) × Covers s code_pin
select_spans-Covers_example =
    select_spans-Covers letter code_pin (mail ∷ code_pin ∷ []) letter_pin (inr (inl refl))

select_spans-resolve_spans_example :
    select_spans letter (resolve_spans (mail ∷ code_pin ∷ []))
    ≡ resolve_spans (mail ∷ code_pin ∷ [])
select_spans-resolve_spans_example =
    select_spans-resolve_spans letter (mail ∷ code_pin ∷ []) (letter-mail, (letter_pin, tt))

select_spans-earlier_example :
    (select_spans letter (short ∷ long ∷ []) ≡ short ∷ [])
    × (select_spans letter (long ∷ short ∷ []) ≡ short ∷ [])
unfolding slice
select_spans-earlier_example =
    select_spans-earlier letter short long (omega arith, omega arith, omega arith, refl)
      (omega arith, omega arith, omega arith, refl) (omega arith) (omega arith)

abbrev no_tokens : ℕ → Text
no_tokens n = []

mask_runs :
    mask latin no_tokens letter (code_pin ∷ mail ∷ []) [] none
    ≡ ok (record {
      masked_text = codes "to **@*.** ****";
      entities = mail ∷ code_pin ∷ [];
      mappings = (codes "**@*.**", codes "ab@c.de") ∷ (codes "****", codes "1234") ∷ [];
    })
unfolding mask sort_by select_spans valid_of is_valid text_eq slice longest_first start_le
    context_allows lookup resolve_context_rules apply_strategy strategy_of
mask_runs = refl

decimals : HasDecimals latin code_pin × HasDecimals latin mail × Unit {0}
decimals = (
  (refl, (refl, (refl, (refl, tt)))),
  (refl, (refl, (refl, (refl, (refl, (refl, (refl, tt))))))),
  tt,
)

mask-IsWoven_example :
    IsWoven latin no_tokens [] letter
      (code_pin ∷ mail ∷ [])
      (resolve_context_rules none)
      (mask latin no_tokens letter (code_pin ∷ mail ∷ []) [] none)
mask-IsWoven_example =
    mask-IsWoven latin no_tokens letter (code_pin ∷ mail ∷ []) [] none
      (decimals.0, (decimals.1, tt))

mask_full_example :
    (r : MaskingResult) × (mask latin no_tokens letter (code_pin ∷ mail ∷ []) [] none ≡ ok r)
    × IsHidden latin letter
        (masked_of letter (code_pin ∷ mail ∷ []) (resolve_context_rules none))
        r.masked_text
mask_full_example =
    mask_full latin no_tokens letter (code_pin ∷ mail ∷ []) [] none
      (λ t. unfold strategy_of lookup in refl) (decimals.0, (decimals.1, tt))

masked_of_runs :
    masked_of letter (code_pin ∷ mail ∷ []) (resolve_context_rules none) ≡ mail ∷ code_pin ∷ []
unfolding sort_by select_spans valid_of is_valid text_eq slice longest_first context_allows
    resolve_context_rules lookup
masked_of_runs = refl
