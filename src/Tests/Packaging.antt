-- ===== src/Tests/Packaging.antt =====
-- The theorem on scripts/package_submission.py at a concrete input.
use alfa_hackaton.Prelude.{◌≡◌, refl, true, false, [], ◌∷◌, Text, codes}
use alfa_hackaton.Prelude.Sort.{sort_by}
use alfa_hackaton.Processing.{text_le}
use alfa_hackaton.Packaging.{Children, regular, link, directory, nil, cons, as_posix, collect_files}
use alfa_hackaton.Packaging.Archive.{is_unsafe_archive_name, is_forbidden}
use alfa_hackaton.Packaging.Collected.{select, all_files, is_packed, collect_files-select}

abbrev root : Children
root = cons (codes "README.md") regular (
    cons (codes ".env") regular (
      cons (codes "build") (directory (cons (codes "a.txt") regular nil)) (
        cons (codes "app") (directory (cons (codes "main.py") regular (cons (codes "x") link nil)))
          nil)))

abbrev same : Text → Text
same s = s

collect_files-select_example :
    collect_files same ((codes "out.zip" ∷ []) ∷ []) root
    ≡ sort_by
        (λ p q. text_le (as_posix p) (as_posix q))
        (select (is_packed same ((codes "out.zip" ∷ []) ∷ [])) (all_files [] root))
collect_files-select_example = collect_files-select same ((codes "out.zip" ∷ []) ∷ []) root

archive_runs :
    (is_unsafe_archive_name (codes "..\\x") ≡ true)
    × (is_unsafe_archive_name (codes "C:/x") ≡ true)
    × (is_unsafe_archive_name (codes "app/main.py") ≡ false)
    × (is_forbidden same (codes "app/.env") ≡ true)
unfolding is_unsafe_archive_name is_forbidden alfa_hackaton.Packaging.Archive.is_absolute
    alfa_hackaton.Packaging.Archive.has_drive alfa_hackaton.Packaging.Archive.parts_of
    alfa_hackaton.Packaging.Archive.without_dots alfa_hackaton.Prelude.Words.split
    alfa_hackaton.Prelude.text_eq alfa_hackaton.Prelude.Search.ends_with
    alfa_hackaton.Packaging.is_one_of alfa_hackaton.Packaging.Archive.is_root
    alfa_hackaton.Packaging.is_excluded_relative alfa_hackaton.Packaging.is_secret_environment_file
    alfa_hackaton.Packaging.name_of
archive_runs = (refl, refl, refl, refl)
