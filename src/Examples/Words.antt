-- ===== src/Examples/Words.antt =====
-- The string functions.
use parity_backup.Base.{
  ℕ, ◌+◌, true, List, [], ◌∷◌, ◌++◌, length, ◌≡◌, ◌↔◌, ◌⊎◌, arith, refl, All, some,
}
use parity_backup.Base.Int.{pos}
use parity_backup.Text.{path4shell, get_disk_index, is_blank, is_space}
use parity_backup.Text.Shell.{plain, shell_word, path4shell-word}
use parity_backup.Text.Sizes.{format_file_size, read_size, format_file_size-read_size}
use parity_backup.Text.Paths.{
  add_path_separator, split_path, file_basename, add_path_separator-split_path,
}
use parity_backup.Text.Names.{IsDiskId, get_disk_index_lem, is_blank_lem}

-- it's
abbrev its : List ℕ
its = 105 ∷ 116 ∷ 39 ∷ 115 ∷ []

shell_example :
    ((path4shell its 20).0 ≡ pos (length (path4shell its 20).1))
    × (shell_word plain (path4shell its 20).1 ≡ some its)
shell_example = path4shell-word its 20 (omega arith)

-- D10/
index_example :
    (get_disk_index (68 ∷ 49 ∷ 48 ∷ 47 ∷ []) ≡ pos 10) ↔ IsDiskId (68 ∷ 49 ∷ 48 ∷ 47 ∷ []) 10
index_example = get_disk_index_lem (68 ∷ 49 ∷ 48 ∷ 47 ∷ []) 10

blank_example : (is_blank (32 ∷ 120 ∷ []) ≡ true) ↔ (
    (blanks : List ℕ) × All (λ c. is_space c ≡ true) blanks
    × ((32 ∷ 120 ∷ [] ≡ blanks) ⊎ ((c : ℕ) × (32 ∷ 120 ∷ [] ≡ blanks ++ c ∷ []))))
blank_example = is_blank_lem (32 ∷ 120 ∷ [])

size_example : read_size (format_file_size 1050000) ≡ 1050000
size_example = format_file_size-read_size 1050000

-- a/b and the name cd
paths_example :
    (dir : List ℕ) × ((97 ∷ 47 ∷ 98 ∷ [] ≡ dir) ⊎ (97 ∷ 47 ∷ 98 ∷ [] ≡ dir ++ 47 ∷ []))
    × (add_path_separator (97 ∷ 47 ∷ 98 ∷ []) ≡ (length dir + 1, dir ++ 47 ∷ []))
    × (add_path_separator (add_path_separator (97 ∷ 47 ∷ 98 ∷ [])).1
        ≡ add_path_separator (97 ∷ 47 ∷ 98 ∷ []))
    × (split_path ((add_path_separator (97 ∷ 47 ∷ 98 ∷ [])).1 ++ 99 ∷ 100 ∷ [])
        ≡ (dir, 99 ∷ 100 ∷ []))
    × (file_basename ((add_path_separator (97 ∷ 47 ∷ 98 ∷ [])).1 ++ 99 ∷ 100 ∷ []) ≡ 99 ∷ 100 ∷ [])
paths_example = add_path_separator-split_path (97 ∷ 47 ∷ 98 ∷ []) (99 ∷ 100 ∷ []) refl
