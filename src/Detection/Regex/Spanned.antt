-- ===== src/Detection/Regex/Spanned.antt =====
-- Where the values of the matches stand in the text.
use alfa_hackaton.Prelude.{
  ℕ, ◌+◌, ◌≤◌, ◌≡◌, refl, sym, ap, ◌∙◌, Bool, true, false, Option, none, some, List, [], ◌∷◌, Text,
  slice, length, length-slice, take, arith, if◌then◌else◌,
}
use alfa_hackaton.Prelude.Prefixes.{
  IsPrefix, IsPrefix-trans, IsPrefix-take, IsPrefix-rstrip, slice-IsPrefix, length-IsPrefix,
}
use alfa_hackaton.Prelude.Words.{rstrip}
use alfa_hackaton.Core.Enums.{PiiType, type_eq, passport_issuer}
use alfa_hackaton.Detection.Regex.Tables.{grouped_types, markers_of}
use alfa_hackaton.Detection.Regex.{
  Match, IsMatch, Libraries, Span, is_among, is_trailing, strip_end, has_marker, before_date,
  before_fragment, drop_numbers, clean_issuer, unless_empty, span_of, is_kept,
}

-- A span of the text with the text there.
abbrev pub IsSpanned : Text → Span → Type 0
IsSpanned text (value, (start, end)) =
    (start ≤ end) × (end ≤ length text) × (slice text start end ≡ value)

-- Cutting the end of a value off keeps it in its place.
IsSpanned-cut :
    (text v w : Text) (i j : ℕ)
    → IsSpanned text (v, (i, j))
    → IsPrefix w v
    → IsSpanned text (w, (i, i + length w))
IsSpanned-cut text v w i j (p, q, e) (rest, h) =
    let n = length-slice text i j p q in
    let m = length-IsPrefix w v (rest, h) in
    (
      omega arith,
      omega (arith, ap length e),
      slice-IsPrefix text i (i + length w) j w rest p q (h ∙ sym e) refl,
    )

IsSpanned-empty :
    (text v : Text) (i j : ℕ) → IsSpanned text (v, (i, j)) → IsSpanned text ([], (i, i))
unfolding slice
IsSpanned-empty text v i j (p, q, e) =
    (omega arith, omega arith, slice-IsPrefix text i i j [] v p q (sym e) (omega arith))

IsSpanned-if :
    (text : Text) (b : Bool) (x y : Span)
    → IsSpanned text x
    → IsSpanned text y
    → IsSpanned text (if b then x else y)
IsSpanned-if text true x y p q = p
IsSpanned-if text false x y p q = q

IsSpanned-match :
    (text : Text) (i j : ℕ) → i ≤ j → j ≤ length text → IsSpanned text (slice text i j, (i, j))
IsSpanned-match text i j p q = (p, q, refl)

module _ (lib : Libraries) (text : Text) where
  before_date-IsSpanned :
      (v : Text) (i j : ℕ)
      → IsSpanned text (v, (i, j))
      → IsSpanned text (before_date lib text v i j)
  unfolding before_date
  before_date-IsSpanned v i j h =
      let w = rstrip lib.calendar.is_space v in
      IsSpanned-if text _ (w, (i, i + length w)) (v, (i, j))
        (IsSpanned-cut text v w i j h (IsPrefix-rstrip lib.calendar.is_space v)) h

  IsSpanned-fragment :
      (v : Text) (i j : ℕ) (o : Option ℕ)
      → IsSpanned text (v, (i, j))
      → IsSpanned text (elim o [
        | none ↦ (v, (i, j))
        | some k ↦ let w = rstrip lib.calendar.is_space (take k v) in (w, (i, i + length w))
      ])
  IsSpanned-fragment v i j none h = h
  IsSpanned-fragment v i j (some k) h =
      let w = rstrip lib.calendar.is_space (take k v) in
      IsSpanned-cut text v w i j h (
        IsPrefix-trans w (take k v) v (IsPrefix-rstrip lib.calendar.is_space (take k v))
          (IsPrefix-take k v))

  before_fragment-IsSpanned : (x : Span) → IsSpanned text x → IsSpanned text (before_fragment lib x)
  unfolding before_fragment
  before_fragment-IsSpanned (v, (i, j)) h = IsSpanned-fragment v i j (lib.search _ v) h

  drop_numbers-IsSpanned : (x : Span) → IsSpanned text x → IsSpanned text (drop_numbers lib x)
  unfolding drop_numbers
  drop_numbers-IsSpanned (v, (i, j)) h =
      let none_left = IsSpanned-empty text v i j h in
      IsSpanned-if text _ ([], (i, i)) _ none_left
        (IsSpanned-if text _ ([], (i, i)) (v, (i, j)) none_left h)

  strip_end-IsSpanned :
      (v : Text) (i j : ℕ) → IsSpanned text (v, (i, j)) → IsSpanned text (strip_end v i)
  unfolding strip_end
  strip_end-IsSpanned v i j h =
      IsSpanned-cut text v (rstrip is_trailing v) i j h (IsPrefix-rstrip is_trailing v)

  clean_issuer-IsSpanned :
      (v : Text) (i j : ℕ)
      → IsSpanned text (v, (i, j))
      → IsSpanned text (clean_issuer lib text v i j)
  unfolding clean_issuer
  clean_issuer-IsSpanned v i j h =
      drop_numbers-IsSpanned (before_fragment lib (before_date lib text v i j))
        (before_fragment-IsSpanned (before_date lib text v i j) (before_date-IsSpanned v i j h))

  -- What may be no span at all.
  abbrev pub MaySpan : Option Span → Type 0
  MaySpan none = Unit
  MaySpan (some x) = IsSpanned text x

  unless_empty-MaySpan : (x : Span) → IsSpanned text x → MaySpan (unless_empty lib x)
  unfolding unless_empty
  unless_empty-MaySpan ([], p) h = tt
  unless_empty-MaySpan (c ∷ s, p) h = h

  MaySpan-if : (b : Bool) (x y : Option Span) → MaySpan x → MaySpan y → MaySpan (if b then x else y)
  MaySpan-if true x y p q = p
  MaySpan-if false x y p q = q

  pub span_of-MaySpan : (t : PiiType) (m : Match) → IsMatch text m → MaySpan (span_of lib text t m)
  unfolding span_of
  span_of-MaySpan t m h =
      let group = slice text m.group_start m.group_end in
      let (v, (i, j)) = strip_end group m.group_start in
      let stripped =
        strip_end-IsSpanned group m.group_start m.group_end
          (IsSpanned-match text m.group_start m.group_end h.group_ordered h.group_inside) in
      MaySpan-if (is_among grouped_types t) (if type_eq t passport_issuer then _ else _) _
        (MaySpan-if (type_eq t passport_issuer) _ _
          (unless_empty-MaySpan (clean_issuer lib text v i j)
            (clean_issuer-IsSpanned v i j stripped))
          stripped)
        (IsSpanned-match text m.start m.end h.ordered h.inside)

  pub marked_if_kept :
      (t : PiiType) (v : Text) (i j : ℕ)
      → is_kept lib text t (v, (i, j)) ≡ true
      → (ms : List Text) → markers_of t ≡ some ms
      → has_marker lib text i j ms ≡ true
  unfolding is_kept
  marked_if_kept t v i j h ms e = ground arith
