-- ===== src/Packaging/Collected.antt =====
-- The walk that leaves out directories against the test of every path.
use alfa_hackaton.Prelude.{
  ◌≡◌, refl, sym, ap, ◌∙◌, Bool, true, false, not, ◌||◌, List, [], ◌∷◌, ◌++◌, Text, arith,
  if◌then◌else◌, Bool-cases, inl, inr,
}
use mathlib.Core.Path.{ap₂}
use alfa_hackaton.Prelude.Sort.{sort_by}
use alfa_hackaton.Processing.{text_le}
use alfa_hackaton.Packaging.{
  FilePath, regular, link, directory, Children, nil, cons, is_listed, as_posix, any_excluded,
  is_excluded_part, is_excluded_relative, collect_from, collect_files,
}

-- every regular file below a directory
abbrev pub all_files : FilePath → Children → List FilePath
all_files dirpath nil = []
all_files dirpath (cons name regular es) = (dirpath ++ name ∷ []) ∷ all_files dirpath es
all_files dirpath (cons name link es) = all_files dirpath es
all_files dirpath (cons name (directory below) es) =
    all_files (dirpath ++ name ∷ []) below ++ all_files dirpath es

-- the elements that pass a test
abbrev pub select : {A : Type 0} → (A → Bool) → List A → List A
select p [] = []
select p (x ∷ xs) = if p x then x ∷ select p xs else select p xs

select-append :
    {A : Type 0} (p : A → Bool) (xs ys : List A) → select p (xs ++ ys) ≡ select p xs ++ select p ys
select-append p [] ys = refl
select-append p (x ∷ xs) ys = elim (Bool-cases (p x)) [
  | inl yes_p ↦ simp yes_p (ap (◌∷◌ x) (select-append p xs ys))
  | inr no_p ↦ simp no_p (select-append p xs ys)
]

or_true : (a b : Bool) → b ≡ true → (a || b) ≡ true
or_true a b h = ground (arith, h)

or_false : (a b : Bool) → a ≡ false → b ≡ false → (a || b) ≡ false
or_false a b h k = ground (arith, h, k)

not_if :
    {A : Type 0} (b : Bool) (x : A) (xs ys : List A)
    → xs ≡ ys
    → (if b then xs else x ∷ xs) ≡ (if not b then x ∷ ys else ys)
not_if true x xs ys e = e
not_if false x xs ys e = ap (◌∷◌ x) e

module _ (lower : Text → Text) where
  any_excluded-append :
      (p q : FilePath)
      → any_excluded lower (p ++ q) ≡ (any_excluded lower p || any_excluded lower q)
  unfolding any_excluded
  any_excluded-append [] q = refl
  any_excluded-append (part ∷ p) q = ground (arith, any_excluded-append p q)

  any_excluded-name :
      (dirpath : FilePath) (name : Text)
      → any_excluded lower (dirpath ++ name ∷ [])
        ≡ (any_excluded lower dirpath || is_excluded_part lower name)
  unfolding any_excluded
  any_excluded-name [] name = ground arith
  any_excluded-name (part ∷ p) name = ground (arith, any_excluded-name p name)

  below_excluded :
      (dirpath : FilePath) (name : Text)
      → any_excluded lower dirpath ≡ true
      → any_excluded lower (dirpath ++ name ∷ []) ≡ true
  below_excluded dirpath name h =
      any_excluded-name dirpath name ∙ ap (λ b. b || is_excluded_part lower name) h

  module _ (excluded : List FilePath) where
    -- a file that is packed, by its path alone
    abbrev pub is_packed : FilePath → Bool
    is_packed path = not (is_listed excluded path || is_excluded_relative lower path)

    excluded-is_packed : (path : FilePath) → any_excluded lower path ≡ true → is_packed path ≡ false
    unfolding is_excluded_relative
    excluded-is_packed path h = ground (arith, h)

    -- Nothing below an excluded directory is packed.
    select-excluded :
        (dirpath : FilePath) (es : Children)
        → any_excluded lower dirpath ≡ true
        → select is_packed (all_files dirpath es) ≡ []
    select-excluded dirpath nil h = refl
    select-excluded dirpath (cons name regular es) h =
        rw (excluded-is_packed (dirpath ++ name ∷ []) (below_excluded dirpath name h))
          (select-excluded dirpath es h)
    select-excluded dirpath (cons name link es) h = select-excluded dirpath es h
    select-excluded dirpath (cons name (directory below) es) h =
        select-append is_packed (all_files (dirpath ++ name ∷ []) below) (all_files dirpath es)
        ∙ ap₂ (λ xs ys. xs ++ ys)
            (select-excluded (dirpath ++ name ∷ []) below (below_excluded dirpath name h))
            (select-excluded dirpath es h)

    collect_from-select :
        (dirpath : FilePath) (es : Children)
        → any_excluded lower dirpath ≡ false
        → collect_from lower excluded dirpath es ≡ select is_packed (all_files dirpath es)
    unfolding collect_from
    collect_from-select dirpath nil h = refl
    collect_from-select dirpath (cons name regular es) h =
        not_if
          (is_listed excluded (dirpath ++ name ∷ [])
            || is_excluded_relative lower (dirpath ++ name ∷ []))
          _ _ _ (collect_from-select dirpath es h)
    collect_from-select dirpath (cons name link es) h = collect_from-select dirpath es h
    collect_from-select dirpath (cons name (directory below) es) h =
        elim (Bool-cases (is_excluded_part lower name)) [
          | inl out ↦ simp out (
              collect_from-select dirpath es h
              ∙ sym (
                  select-append is_packed (all_files (dirpath ++ name ∷ []) below)
                    (all_files dirpath es)
                  ∙ ap (λ xs. xs ++ select is_packed (all_files dirpath es))
                      (select-excluded (dirpath ++ name ∷ []) below (
                        any_excluded-name dirpath name
                        ∙ or_true (any_excluded lower dirpath) (is_excluded_part lower name) out))))
          | inr other ↦ simp other (
              ap₂ (λ xs ys. xs ++ ys)
                (collect_from-select (dirpath ++ name ∷ []) below (
                  any_excluded-name dirpath name
                  ∙ or_false (any_excluded lower dirpath) (is_excluded_part lower name) h other))
                (collect_from-select dirpath es h)
              ∙ sym (
                  select-append is_packed (all_files (dirpath ++ name ∷ []) below)
                    (all_files dirpath es)))
        ]

    root_included : any_excluded lower [] ≡ false
    unfolding any_excluded
    root_included = refl

    -- The files that are packed are the regular files of the whole tree that the test of their own
    -- path lets pass, in the order of their names: leaving out directories on the way loses none.
    pub collect_files-select :
        (root : Children)
        → collect_files lower excluded root
          ≡ sort_by
              (λ p q. text_le (as_posix p) (as_posix q))
              (select is_packed (all_files [] root))
    unfolding collect_files
    collect_files-select root =
        ap (sort_by (λ p q. text_le (as_posix p) (as_posix q)))
          (collect_from-select [] root root_included)
