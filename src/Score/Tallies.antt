-- ===== src/Score/Tallies.antt =====
-- What the counters add up to.
use alfa_hackaton.Prelude.{
  ℕ, ◌+◌, ◌≡◌, refl, sym, ap, ◌∙◌, Bool, not, ◌&&◌, List, [], ◌∷◌, Text, text_eq, arith,
  if◌then◌else◌,
}
use alfa_hackaton.Prelude.Dict.{AreDistinct}
use alfa_hackaton.Core.Errors.{Result, ok, err, >>=_ok, ok_injective}
use alfa_hackaton.Core.Models.{PiiEntity}
use alfa_hackaton.Score.Common.{one, count, count-swap}
use alfa_hackaton.Score.{
  SpanKey, span_key_eq, Spans, Case, Tally, count_of, increment, spans_of, found_spans, contains,
  score_found, score_all_found, score_all_expected, score_case, score,
}
use alfa_hackaton.Score.Spans.{span_key_eq_iff, spans_of-AreDistinct, count_of-increment}

module _ (type : Text) where
  -- the test of a key for the type
  abbrev pub is_of : SpanKey → Bool
  is_of k = text_eq k.0 type

  score_found-counts :
      (id : Text) (e : Spans) (k : SpanKey) (v : Text) (t : Tally)
      → (count_of type (score_found id e k v t).tp
          ≡ one (is_of k && contains k e) + count_of type t.tp)
        × (count_of type (score_found id e k v t).fp
            ≡ one (is_of k && not (contains k e)) + count_of type t.fp)
        × ((score_found id e k v t).fn ≡ t.fn)
  unfolding score_found
  score_found-counts id e k v t =
      ground (arith, count_of-increment k.0 type t.tp, count_of-increment k.0 type t.fp)

  score_all_found-counts :
      (id : Text) (e l : Spans) (t : Tally)
      → (count_of type (score_all_found id e l t).tp
          ≡ count span_key_eq (λ k. is_of k && contains k e) l + count_of type t.tp)
        × (count_of type (score_all_found id e l t).fp
            ≡ count span_key_eq (λ k. is_of k && not (contains k e)) l + count_of type t.fp)
        × ((score_all_found id e l t).fn ≡ t.fn)
  unfolding score_all_found count
  score_all_found-counts id e [] t = (omega arith, omega arith, refl)
  score_all_found-counts id e ((k, v) ∷ l) t =
      let (tp, fp, fn) = score_found-counts id e k v t in
      let (tp', fp', fn') = score_all_found-counts id e l (score_found id e k v t) in
      (omega (arith, tp, tp'), omega (arith, fp, fp'), fn' ∙ fn)

  missed-counts :
      (f : Spans) (k : SpanKey) (t : Tally)
      → count_of type (if contains k f then t else record t { fn = increment k.0 t.fn }).fn
        ≡ one (is_of k && not (contains k f)) + count_of type t.fn
  missed-counts f k t = ground (arith, count_of-increment k.0 type t.fn)

  missed-others :
      (f : Spans) (k : SpanKey) (t : Tally)
      → ((if contains k f then t else record t { fn = increment k.0 t.fn }).tp ≡ t.tp)
        × ((if contains k f then t else record t { fn = increment k.0 t.fn }).fp ≡ t.fp)
  missed-others f k t = ground arith

  score_all_expected-counts :
      (f l : Spans) (t : Tally)
      → (count_of type (score_all_expected f l t).fn
          ≡ count span_key_eq (λ k. is_of k && not (contains k f)) l + count_of type t.fn)
        × ((score_all_expected f l t).tp ≡ t.tp)
        × ((score_all_expected f l t).fp ≡ t.fp)
  unfolding score_all_expected count
  score_all_expected-counts f [] t = (omega arith, refl, refl)
  score_all_expected-counts f ((k, v) ∷ l) t =
      let (tp, fp) = missed-others f k t in
      let (fn', tp', fp') = score_all_expected-counts f l _ in
      (omega (arith, missed-counts f k t, fn'), tp' ∙ tp, fp' ∙ fp)

  count-split :
      (q : SpanKey → Bool) (d : Spans)
      → count span_key_eq (λ k. is_of k && q k) d + count span_key_eq (λ k. is_of k && not (q k)) d
        ≡ count span_key_eq is_of d
  unfolding count
  count-split q [] = refl
  count-split q ((k, v) ∷ d) = ground (arith, count-split q d)

  count-hits :
      (d e : Spans)
      → AreDistinct span_key_eq d
      → AreDistinct span_key_eq e
      → count span_key_eq (λ k. is_of k && contains k e) d
        ≡ count span_key_eq (λ k. is_of k && contains k d) e
  unfolding contains
  count-hits d e h h' = count-swap span_key_eq span_key_eq_iff is_of d e h h'

  -- the distinct expected spans of the type, and the distinct spans found
  abbrev pub expected_count : List Case → ℕ
  expected_count [] = 0
  expected_count (c ∷ cs) = count span_key_eq is_of (spans_of c.expected []) + expected_count cs

  abbrev pub found_count : (engine : Text → Result (List PiiEntity)) → List Case → ℕ
  found_count engine [] = 0
  found_count engine (c ∷ cs) =
      elim (engine c.text) [
        | ok es ↦ count span_key_eq is_of (spans_of (found_spans es) [])
        | err _ ↦ 0
      ]
      + found_count engine cs

  score_case-counts :
      (c : Case) (es : List PiiEntity) (t : Tally)
      → (count_of type (score_case c es t).tp + count_of type (score_case c es t).fn
          ≡ count span_key_eq is_of (spans_of c.expected [])
            + (count_of type t.tp + count_of type t.fn))
        × (count_of type (score_case c es t).tp + count_of type (score_case c es t).fp
            ≡ count span_key_eq is_of (spans_of (found_spans es) [])
              + (count_of type t.tp + count_of type t.fp))
  unfolding score_case
  score_case-counts c es t =
      let found = spans_of (found_spans es) [] in
      let expected = spans_of c.expected [] in
      let (tp, fp, fn) = score_all_found-counts c.id expected found t in
      let (fn', tp', fp') =
        score_all_expected-counts found expected (score_all_found c.id expected found t) in
      let swap =
        count-hits found expected (spans_of-AreDistinct (found_spans es) [] tt)
          (spans_of-AreDistinct c.expected [] tt) in
      (
        omega (
          arith,
          ap (count_of type) tp',
          tp,
          fn',
          ap (count_of type) fn,
          swap,
          count-split (λ k. contains k found) expected,
        ),
        omega (
          arith,
          ap (count_of type) tp',
          tp,
          ap (count_of type) fp',
          fp,
          count-split (λ k. contains k expected) found,
        ),
      )

  pub score-from :
      (engine : Text → Result (List PiiEntity)) (cs : List Case) (t t' : Tally)
      → score engine cs t ≡ ok t'
      → (count_of type t'.tp + count_of type t'.fn
          ≡ expected_count cs + (count_of type t.tp + count_of type t.fn))
        × (count_of type t'.tp + count_of type t'.fp
            ≡ found_count engine cs + (count_of type t.tp + count_of type t.fp))
  unfolding score
  score-from engine [] t t' h = (
    ap (λ u. count_of type u.tp + count_of type u.fn) (sym (ok_injective h)) ∙ omega arith,
    ap (λ u. count_of type u.tp + count_of type u.fp) (sym (ok_injective h)) ∙ omega arith,
  )
  score-from engine (c ∷ cs) t t' h =
      let (es, q, rest) = >>=_ok (engine c.text) (λ es. score engine cs (score_case c es t)) t' h in
      let (expected, found) = score_case-counts c es t in
      let (expected', found') = score-from engine cs (score_case c es t) t' rest in
      let seen =
        ap
          (λ (r : Result (List PiiEntity)). elim r as (λ _. ℕ) [
            | ok es ↦ count span_key_eq is_of (spans_of (found_spans es) [])
            | err _ ↦ 0
          ])
          q in
      (omega (arith, expected, expected'), omega (arith, found, found', seen))
