-- ===== src/Packaging/Archive.antt =====
-- scripts/package_submission.py: the validation of an archive, which is the list of its names and the
-- first corrupt entry, if there is one.
use alfa_hackaton.Prelude.{
  ℕ, Bool, true, false, ◌||◌, Option, none, some, List, [], ◌∷◌, Text, codes, text_eq, ◌==◌,
  if◌then◌else◌,
}
use alfa_hackaton.Prelude.Search.{ends_with}
use alfa_hackaton.Prelude.Words.{split}
use alfa_hackaton.Core.Errors.{Error, unexpected}
use alfa_hackaton.Packaging.{FilePath, is_one_of, is_excluded_relative}

abbrev pub required_files : List Text
required_files =
    codes "README.md"
    ∷ codes "pyproject.toml"
    ∷ codes "app/main.py"
    ∷ codes "configs/consumers/default.yaml"
    ∷ codes "Dockerfile"
    ∷ codes "docker-compose.yml"
    ∷ codes ".env.example"
    ∷ codes "tests/conftest.py"
    ∷ codes "tests/unit/test_masking.py"
    ∷ codes "scripts/package_submission.py"
    ∷ codes "docs/architecture.md"
    ∷ []

-- a slash, or a backslash, which is replaced by one
abbrev is_separator : ℕ → Bool
is_separator c = c == b'/' || c == b'\\'

-- The parts of a path without those that pathlib drops.
unfoldable pub without_dots : List Text → List Text
without_dots [] = []
without_dots (part ∷ parts) =
    let rest = without_dots parts in if text_eq part (codes ".") then rest else part ∷ rest

unfoldable pub is_absolute : Text → Bool
is_absolute [] = false
is_absolute (c ∷ s) = is_separator c

-- PurePosixPath(name.replace("\\", "/")).parts
unfoldable pub parts_of : Text → FilePath
parts_of name =
    let parts = without_dots (split is_separator name) in
    if is_absolute name then codes "/" ∷ parts else parts

unfoldable pub has_drive : FilePath → Bool
has_drive [] = false
has_drive (part ∷ parts) = ends_with (codes ":") part

unfoldable pub is_root : FilePath → Bool
is_root [] = true
is_root (_ ∷ _) = false

-- `_unsafe_archive_name`
unfoldable pub is_unsafe_archive_name : Text → Bool
is_unsafe_archive_name name =
    is_absolute name
    || has_drive (parts_of name)
    || is_one_of (parts_of name) (codes "..")
    || is_root (parts_of name)

unfoldable pub missing_of : List Text → List Text → List Text
missing_of [] names = []
missing_of (file ∷ files) names =
    let rest = missing_of files names in if is_one_of names file then rest else file ∷ rest

module _ (lower : Text → Text) where
  unfoldable pub is_forbidden : Text → Bool
  is_forbidden name = is_unsafe_archive_name name || is_excluded_relative lower (parts_of name)

  unfoldable pub forbidden_of : List Text → List Text
  forbidden_of [] = []
  forbidden_of (name ∷ names) =
      let rest = forbidden_of names in if is_forbidden name then name ∷ rest else rest

  -- `validate_zip`: the exception, if it raises one
  unfoldable pub validate_zip : (bad : Option Text) → (names : List Text) → Option Error
  validate_zip (some entry) names = some (unexpected (codes "RuntimeError"))
  validate_zip none names = elim (forbidden_of names) [
    | _ ∷ _ ↦ some (unexpected (codes "RuntimeError"))
    | [] ↦ elim (missing_of required_files names) [
      | _ ∷ _ ↦ some (unexpected (codes "RuntimeError"))
      | [] ↦ none
    ]
  ]
