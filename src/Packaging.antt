-- ===== src/Packaging.antt =====
-- scripts/package_submission.py: which files of a directory are packed. The directory is a tree of
-- names, as os.walk reads it without following links, and a path is the list of its parts. `lower` is
-- the interpreter's.
pub mod Collected
pub mod Archive
use alfa_hackaton.Prelude.{
  ℕ, Bool, true, false, not, ◌&&◌, ◌||◌, Option, none, some, List, [], ◌∷◌, ◌++◌, Text, codes,
  text_eq, length, ◌==◌, if◌then◌else◌,
}
use alfa_hackaton.Prelude.Search.{starts_with, ends_with, contains_text}
use alfa_hackaton.Prelude.Sort.{sort_by}
use alfa_hackaton.Processing.{text_le}

abbrev pub excluded_dirs : List Text
excluded_dirs =
    codes ".git"
    ∷ codes ".kilo"
    ∷ codes ".idea"
    ∷ codes ".vscode"
    ∷ codes ".venv"
    ∷ codes ".deps"
    ∷ codes "venv"
    ∷ codes "env"
    ∷ codes "__pycache__"
    ∷ codes ".pytest_cache"
    ∷ codes ".mypy_cache"
    ∷ codes ".ruff_cache"
    ∷ codes "coverage"
    ∷ codes "htmlcov"
    ∷ codes "node_modules"
    ∷ codes "target"
    ∷ codes "build"
    ∷ codes "dist"
    ∷ codes "out"
    ∷ codes "bin"
    ∷ codes "obj"
    ∷ codes "artifacts"
    ∷ codes ".egg-info"
    ∷ []

abbrev pub excluded_suffixes : List Text
excluded_suffixes = codes ".pyc" ∷ codes ".pyo" ∷ codes ".log" ∷ codes ".zip" ∷ []

abbrev pub FilePath : Type 0
FilePath = List Text

-- s in l
unfoldable pub is_one_of : List Text → Text → Bool
is_one_of [] s = false
is_one_of (t ∷ l) s = text_eq t s || is_one_of l s

unfoldable pub is_secret_environment_file : Text → Bool
is_secret_environment_file name =
    starts_with (codes ".env") name && not (text_eq name (codes ".env.example"))

-- the text from its last dot on
unfoldable pub from_last_dot : Text → Option Text
from_last_dot [] = none
from_last_dot (c ∷ s) = elim (from_last_dot s) [
  | some t ↦ some t
  | none ↦ if c == b'.' then some (c ∷ s) else none
]

-- `path.suffix` of a name: a dot at its start or at its end makes none
unfoldable pub suffix : Text → Text
suffix [] = []
suffix (c ∷ s) = elim (from_last_dot s) [ none ↦ [] | some t ↦ if length t == 1 then [] else t ]

-- `path.name`
unfoldable pub name_of : FilePath → Text
name_of [] = []
name_of (part ∷ []) = part
name_of (part ∷ next ∷ path) = name_of (next ∷ path)

unfoldable pub path_eq : FilePath → FilePath → Bool
path_eq [] [] = true
path_eq (a ∷ p) (b ∷ q) = text_eq a b && path_eq p q
path_eq _ _ = false

-- path in excluded
unfoldable pub is_listed : List FilePath → FilePath → Bool
is_listed [] path = false
is_listed (p ∷ ps) path = path_eq p path || is_listed ps path

mutual
  pub data Node : Type 0 where
    regular : Node
    link : Node
    directory : Children → Node

  pub data Children : Type 0 where
    nil : Children
    cons : Text → Node → Children → Children

-- `path.as_posix()`
unfoldable pub as_posix : FilePath → Text
as_posix [] = []
as_posix (part ∷ []) = part
as_posix (part ∷ next ∷ path) = part ++ b'/' ∷ as_posix (next ∷ path)

module _ (lower : Text → Text) where
  -- on the name in lower case
  unfoldable pub is_pytest_name : Text → Bool
  is_pytest_name lowered =
      starts_with (codes ".pytest") lowered
      || starts_with (codes "pytest-") lowered
      || contains_text (codes "pytest-basetemp") lowered
      || contains_text (codes "pytest-temp") lowered
      || contains_text (codes ".pytest") lowered

  unfoldable pub is_pytest_temp_dir : Text → Bool
  is_pytest_temp_dir name = is_pytest_name (lower name)

  -- the test of a part of a path, which is also the one of a directory
  unfoldable pub is_excluded_part : Text → Bool
  is_excluded_part part =
      is_one_of excluded_dirs part || ends_with (codes ".egg-info") part || is_pytest_temp_dir part

  unfoldable pub any_excluded : FilePath → Bool
  any_excluded [] = false
  any_excluded (part ∷ path) = is_excluded_part part || any_excluded path

  unfoldable pub is_excluded_relative : FilePath → Bool
  is_excluded_relative path =
      is_secret_environment_file (name_of path)
      || is_one_of excluded_suffixes (lower (suffix (name_of path)))
      || any_excluded path

  module _ (excluded : List FilePath) where
    -- the walk, below a directory with this path
    unfoldable pub collect_from : FilePath → Children → List FilePath
    collect_from dirpath nil = []
    collect_from dirpath (cons name regular es) =
        let rest = collect_from dirpath es in
        let path = dirpath ++ name ∷ [] in
        if is_listed excluded path || is_excluded_relative path then rest else path ∷ rest
    collect_from dirpath (cons name link es) = collect_from dirpath es
    collect_from dirpath (cons name (directory below) es) =
        let rest = collect_from dirpath es in
        let found = collect_from (dirpath ++ name ∷ []) below in
        if is_excluded_part name then rest else found ++ rest

    -- `collect_files`
    unfoldable pub collect_files : Children → List FilePath
    collect_files root = sort_by (λ p q. text_le (as_posix p) (as_posix q)) (collect_from [] root)
