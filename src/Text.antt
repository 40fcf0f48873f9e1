-- ===== src/Text.antt =====
-- The string functions of utils.cpp. A C string is the list of its characters before the final NUL.
-- isspace and isdigit are those of the C locale.
pub mod Shell
pub mod Names
pub mod Numbers
pub mod Atol
pub mod Sizes
pub mod Paths
use parity_backup.Base.{
  ℕ, zero, suc, ◌+◌, ◌-◌, ◌*◌, Bool, true, false, not, ◌&&◌, ◌||◌, Option, none, some, List, [],
  ◌∷◌, ◌++◌, length, drop, if◌then◌else◌, ◌==◌, ltb, leb,
}
use parity_backup.Base.Int.{ℤ, pos, negsuc, sub_ℕ}

abbrev pub is_space : ℕ → Bool
is_space c = (c == 32) || leb 9 c && leb c 13

abbrev pub is_digit : ℕ → Bool
is_digit c = leb 48 c && leb c 57

unfoldable pub is_prefix : List ℕ → List ℕ → Bool
is_prefix [] str = true
is_prefix (p ∷ pref) [] = false
is_prefix (p ∷ pref) (c ∷ str) = (p == c) && is_prefix pref str

-- The first character of `chars` that occurs in the string, or 0.
abbrev pub occurs : ℕ → List ℕ → Bool
occurs c [] = false
occurs c (d ∷ ds) = (c == d) || occurs c ds

unfoldable pub find_any_char : List ℕ → List ℕ → ℕ
find_any_char str [] = 0
find_any_char str (c ∷ chars) =
    let rest = find_any_char str chars in if occurs c str then c else rest

unfoldable pub ltrim : List ℕ → List ℕ
ltrim [] = []
ltrim (c ∷ s) = let rest = ltrim s in if is_space c then rest else c ∷ s

-- Blanks at the end are cut off, from the last on.
unfoldable pub rtrim : List ℕ → List ℕ
rtrim [] = []
rtrim (c ∷ s) = elim (rtrim s) [ [] ↦ if is_space c then [] else c ∷ [] | d ∷ ds ↦ c ∷ d ∷ ds ]

unfoldable pub all_trim : List ℕ → List ℕ
all_trim s = ltrim (rtrim s)

-- `while(*str && isspace(*str++));` moves past the character that ends it.
unfoldable pub is_blank : List ℕ → Bool
is_blank [] = true
is_blank (c ∷ s) =
    let rest = is_blank s in if is_space c then rest else elim s [ [] ↦ true | d ∷ ds ↦ false ]

-- strstr: what stands before the first occurrence, and after it.
unfoldable pub find_first : List ℕ → List ℕ → Option (List ℕ × List ℕ)
find_first from [] = if is_prefix from [] then some ([], []) else none
find_first from (c ∷ s) =
    let later = find_first from s in
    if is_prefix from (c ∷ s)
    then some ([], drop (length from) (c ∷ s))
    else elim later [ none ↦ none | some (before, rest) ↦ some (c ∷ before, rest) ]

-- The loop of replaceStr, on fuel; `none` when the buffer is too small. The first part of the state is
-- what has been written.
unfoldable pub replace_loop : ℕ → ℕ → List ℕ → List ℕ → List ℕ → List ℕ → Option (List ℕ)
replace_loop zero buf_size from to dest start = none
replace_loop (suc fuel) buf_size from to dest start = elim (find_first from start) [
  | none ↦ if leb buf_size (length (dest ++ start)) then none else some (dest ++ start)
  | some (before, rest) ↦
      let dest1 = dest ++ (before ++ to) in
      let more = replace_loop fuel buf_size from to dest1 rest in
      if leb buf_size (length dest1) then none else more
]

-- The lines after the loop: the return value and the buffer. An empty result leaves the buffer as it is.
abbrev pub store_back : List ℕ → Option (List ℕ) → ℤ × List ℕ
store_back buf none = (negsuc 0, buf)
store_back buf (some []) = (pos (length buf), buf)
store_back buf (some (c ∷ cs)) = (pos (length (c ∷ cs)), c ∷ cs)

unfoldable pub replace_str : List ℕ → ℕ → List ℕ → List ℕ → ℤ × List ℕ
replace_str buf buf_size from to =
    store_back buf (replace_loop (suc (length buf)) buf_size from to [] buf)

abbrev pub quote : ℕ
quote = 39

abbrev pub quoted_quote : List ℕ
quoted_quote = 39 ∷ 34 ∷ 39 ∷ 34 ∷ 39 ∷ []

abbrev pub quote_around : ℕ → ℤ × List ℕ → ℤ × List ℕ
quote_around size (negsuc n, path) = (negsuc n, path)
quote_around size (pos n, path) =
    if ltb (n + 3) size then (pos (n + 2), quote ∷ (path ++ quote ∷ [])) else (pos n, path)

unfoldable pub path4shell : List ℕ → ℕ → ℤ × List ℕ
path4shell path size = quote_around size (
    if occurs quote path
    then replace_str path size (quote ∷ []) quoted_quote
    else (pos (length path), path))

-- getDiskIndex: the index of a disk, or -1.
abbrev pub ends_id : List ℕ → Bool
ends_id [] = true
ends_id (e ∷ es) = (e == 47) || (e == 61)

abbrev pub index_of : ℕ → List ℕ → ℤ
index_of rv p = if ends_id p then sub_ℕ rv 1 else negsuc 0

-- What stands after the first digit.
abbrev pub second_digit : ℕ → List ℕ → ℤ
second_digit rv [] = index_of rv []
second_digit rv (e ∷ es) =
    if is_digit e then index_of (rv + (rv * 10 + (e - 48))) es else index_of rv (e ∷ es)

unfoldable pub get_disk_index : List ℕ → ℤ
get_disk_index [] = negsuc 0
get_disk_index (c ∷ []) = negsuc 0
get_disk_index (c ∷ d ∷ rest) =
    if not (c == 68) || not (is_digit d) then negsuc 0 else second_digit (d - 48) rest
