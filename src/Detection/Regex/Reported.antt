-- ===== src/Detection/Regex/Reported.antt =====
-- What the detector reports stands in the text where it says, and passed the tests of its type.
use alfa_hackaton.Prelude.{
  ℕ, ◌≡◌, refl, ap, ◌∙◌, inl, inr, true, ◌&&◌, some, List, [], ◌∷◌, ◌++◌, All, Text, arith,
  Bool-cases, Option-cases,
}
use alfa_hackaton.Prelude.Int.{pos}
use alfa_hackaton.Core.Enums.{PiiType}
use alfa_hackaton.Core.Errors.{Result, ok, err, ◌>>=◌, Result-cases}
use alfa_hackaton.Core.Models.{PiiEntity, DetectionContext}
use alfa_hackaton.Detection.Dates.{Date}
use alfa_hackaton.Detection.Regex.Tables.{rules, markers_of}
use alfa_hackaton.Detection.Regex.{
  Match, IsMatch, Libraries, Span, has_marker, span_of, passes, is_kept, entity_of, report_span,
  report, report_all, apply_rules, detect,
}
use alfa_hackaton.Detection.Regex.Spanned.{IsSpanned, span_of-MaySpan, marked_if_kept}

-- An entity that stands in the text, that its validator accepts, and that has a marker near it if its
-- type needs one.
pub record IsReported (lib : Libraries) (today : Date) (text : Text) (e : PiiEntity) : Type 0 where
  pub start : ℕ
  pub end : ℕ
  pub starts : e.start ≡ pos start
  pub ends : e.end ≡ pos end
  pub spanned : IsSpanned text (e.value, (start, end))
  pub valid : passes lib today e.type e.value ≡ ok true
  pub marked :
      (ms : List Text) → markers_of e.type ≡ some ms → has_marker lib text start end ms ≡ true

module _ (lib : Libraries) (today : Date) (text : Text) where
  All-append :
      (xs ys : List PiiEntity)
      → All (IsReported lib today text) xs
      → All (IsReported lib today text) ys
      → All (IsReported lib today text) (xs ++ ys)
  All-append [] ys p q = q
  All-append (x ∷ xs) ys (p, h) q = (p, All-append xs ys h q)

  -- Every entity of a result, if there is one.
  abbrev AllReported : Result (List PiiEntity) → Type 0
  AllReported (ok es) = All (IsReported lib today text) es
  AllReported (err e) = Unit

  report_span-Reported :
      (t : PiiType) (x : Span) → IsSpanned text x → AllReported (report_span lib today text t x)
  unfolding report_span entity_of
  report_span-Reported t (v, (i, j)) h = elim (Result-cases (passes lib today t v)) [
    | inr (e, q) ↦ rw (q, report_span) tt
    | inl (valid, q) ↦
        rw (q, report_span)
          (elim (Bool-cases (valid && is_kept lib text t (v, (i, j)))) [
            | inr dropped ↦ simp dropped tt
            | inl kept ↦ simp kept (
              record {
                start = i;
                end = j;
                starts = refl;
                ends = refl;
                spanned = h;
                valid = q ∙ ap ok (ground arith);
                marked = marked_if_kept lib text t v i j (ground arith);
              },
              tt,
            )
          ])
  ]

  report-Reported :
      (t : PiiType) (m : Match) → IsMatch text m → AllReported (report lib today text t m)
  unfolding report
  report-Reported t m h = elim (Option-cases (span_of lib text t m)) [
    | inl skipped ↦ rw (skipped, report) tt
    | inr (x, found) ↦
        rw (found, report) (report_span-Reported t x (rw found at (span_of-MaySpan lib text t m h)))
  ]

  append-Reported :
      (x y : Result (List PiiEntity))
      → AllReported x
      → AllReported y
      → AllReported (x >>= λ a. y >>= λ b. ok (a ++ b))
  append-Reported (err e) y p q = tt
  append-Reported (ok a) (err e) p q = tt
  append-Reported (ok a) (ok b) p q = All-append a b p q

  report_all-Reported :
      (t : PiiType) (ms : List Match)
      → All (IsMatch text) ms
      → AllReported (report_all lib today text t ms)
  unfolding report_all
  report_all-Reported t [] h = tt
  report_all-Reported t (m ∷ ms) (p, h) =
      append-Reported _ _ (report-Reported t m p) (report_all-Reported t ms h)

  apply_rules-Reported : (rs : List (PiiType × Text)) → AllReported (apply_rules lib today text rs)
  unfolding apply_rules
  apply_rules-Reported [] = tt
  apply_rules-Reported ((t, pattern) ∷ rs) =
      append-Reported _ _
        (report_all-Reported t (lib.finditer pattern text) (lib.finditer-IsMatch pattern text))
        (apply_rules-Reported rs)

  -- Every entity that the detector reports stands in the text at its offsets, is accepted by the
  -- validator of its type, and has a marker near it if its type asks for one.
  pub detect-IsReported :
      (context : DetectionContext) (es : List PiiEntity)
      → detect lib today text context ≡ ok es
      → All (IsReported lib today text) es
  unfolding detect
  detect-IsReported context es h = rw h at (apply_rules-Reported rules)
