-- ===== src/Prefix.antt =====
-- Paths that stand for a file by the id of its disk: prefix2path, path2prefix and disk2prefix of
-- backup.cpp, with removeLastNewline of utils.cpp. `none` is what the code leaves undefined.
pub mod RoundTrip
use parity_backup.Base.{
  ℕ, zero, suc, ◌+◌, ◌-◌, ◌≤◌, ◌<◌, Bool, true, false, ◌||◌, Option, none, some, List, [], ◌∷◌,
  ◌++◌, length, drop, append_assoc, if◌then◌else◌, ◌==◌, ltb, leb, ◌≡◌, ◌⊎◌, inl, inr, arith, refl,
  sym, ap, ◌∙◌, Bool-cases, if_true, if_false, length-append, ==_refl,
}
use parity_backup.Base.Int.{ℤ, pos, negsuc}
use parity_backup.Text.{is_prefix, occurs, get_disk_index}

-- The id and the path of a DISK.
pub record DiskName : Type 0 where
  pub id : List ℕ
  pub path : List ℕ

-- The test of an empty line reads the byte before it; here it stays empty.
unfoldable pub remove_last_newline : List ℕ → List ℕ
remove_last_newline [] = []
remove_last_newline (c ∷ []) = if c == 10 then [] else c ∷ []
remove_last_newline (c ∷ d ∷ line) = c ∷ remove_last_newline (d ∷ line)

-- strchr(path, '/')
abbrev pub from_slash : List ℕ → Option (List ℕ)
from_slash [] = none
from_slash (c ∷ s) = let rest = from_slash s in if c == 47 then some (c ∷ s) else rest

-- A disk's path that is not longer than its id makes the code write before the buffer; a text shorter
-- than the disk's path makes it read what follows the text.
unfoldable pub disk2prefix : DiskName → Bool → List ℕ → Option (List ℕ)
disk2prefix disk remove_nl path =
    let line = if remove_nl then remove_last_newline path else path in
    let from = length disk.path - 1 in
    if leb (length disk.path) (length disk.id) || ltb (length line) from
    then none
    else some (disk.id ++ drop from line)

unfoldable pub convert_at : DiskName → Bool → List ℕ → Option (List ℕ)
convert_at disk remove_nl path =
    if is_prefix disk.path path then disk2prefix disk remove_nl path else some path

-- The loop from disk `i` on. The text may be converted more than once.
unfoldable pub path2prefix : (ℕ → DiskName) → Bool → (left : ℕ) (i : ℕ) → List ℕ → Option (List ℕ)
path2prefix disks remove_nl zero i path = some path
path2prefix disks remove_nl (suc left) i path = elim (convert_at (disks i) remove_nl path) [
  | none ↦ none
  | some path1 ↦ path2prefix disks remove_nl left (i + 1) path1
]

abbrev pub at_disk : List ℕ → Option (List ℕ) → Option (List ℕ)
at_disk mount none = none
at_disk mount (some rest) = some (mount ++ rest)

abbrev pub path_of_index : (ℕ → DiskName) → List ℕ → ℤ → Option (List ℕ)
path_of_index disks spath (negsuc n) = some spath
path_of_index disks spath (pos i) = at_disk (disks i).path (from_slash spath)

unfoldable pub prefix2path : (ℕ → DiskName) → List ℕ → Option (List ℕ)
prefix2path disks spath = path_of_index disks spath (get_disk_index spath)
