-- ===== src/Prefix/RoundTrip.antt =====
-- path2prefix and prefix2path: what one writes the other reads.
use mathlib.Core.Path.{subst}
use parity_backup.Base.{
  ℕ, zero, suc, ◌+◌, ◌-◌, ◌≤◌, ◌<◌, Bool, true, false, ◌||◌, Option, none, some, List, [], ◌∷◌,
  ◌++◌, length, drop, append_assoc, if◌then◌else◌, ◌==◌, ltb, leb, ◌≡◌, inl, inr, arith, refl, sym,
  ap, ◌∙◌, Bool-cases, if_true, if_false, length-append, ==_refl,
}
use parity_backup.Base.Int.{pos}
use parity_backup.Text.{is_prefix, occurs, get_disk_index}
use parity_backup.Prefix.{
  DiskName, remove_last_newline, from_slash, disk2prefix, convert_at, path2prefix, at_disk,
  path_of_index, prefix2path,
}

-- The disks as the configuration names them: each id gives the index back, begins with D and has no
-- slash; each path begins and ends with a slash and is longer than the id.
pub record Named (disks : ℕ → DiskName) (n : ℕ) : Type 0 where
  pub index : (i : ℕ) → i < n → (s : List ℕ) → get_disk_index ((disks i).id ++ 47 ∷ s) ≡ pos i
  pub begins : (i : ℕ) → i < n → (s : List ℕ) × ((disks i).id ≡ 68 ∷ s)
  pub plain : (i : ℕ) → i < n → occurs 47 (disks i).id ≡ false
  pub absolute : (i : ℕ) → i < n → (s : List ℕ) × ((disks i).path ≡ 47 ∷ s)
  pub base : ℕ → List ℕ
  pub folder : (i : ℕ) → i < n → (disks i).path ≡ base i ++ 47 ∷ []
  pub longer : (i : ℕ) → i < n → length (disks i).id < length (disks i).path

-- A text as it is, or with the newline that is to be removed.
abbrev pub line_of : Bool → List ℕ → List ℕ
line_of remove_nl s = if remove_nl then s ++ 10 ∷ [] else s

pub remove_last_newline-append : (s : List ℕ) → remove_last_newline (s ++ 10 ∷ []) ≡ s
unfolding remove_last_newline
remove_last_newline-append [] = refl
remove_last_newline-append (c ∷ []) = refl
remove_last_newline-append (c ∷ d ∷ s) =
    ap (λ (t : List ℕ). c ∷ t) (remove_last_newline-append (d ∷ s))

drop-append : (s t : List ℕ) → drop (length s) (s ++ t) ≡ t
drop-append [] t = refl
drop-append (c ∷ s) t = drop-append s t

from_slash-append :
    (id rest : List ℕ) → occurs 47 id ≡ false → from_slash (id ++ 47 ∷ rest) ≡ some (47 ∷ rest)
from_slash-append [] rest h = refl
from_slash-append (c ∷ id) rest h =
    let other : (c == 47) ≡ false = ground arith in
    let none_later : occurs 47 id ≡ false = ground arith in
    if_false _ _ _ other ∙ from_slash-append id rest none_later

line_is :
    (remove_nl : Bool) (s : List ℕ)
    → (if remove_nl then remove_last_newline (line_of remove_nl s) else line_of remove_nl s) ≡ s
line_is true s = remove_last_newline-append s
line_is false s = refl

disk2prefix-line_of :
    (disks : ℕ → DiskName) (n i : ℕ) (remove_nl : Bool) (rest : List ℕ)
    → Named disks n
    → i < n
    → disk2prefix (disks i) remove_nl (line_of remove_nl ((disks i).path ++ rest))
      ≡ some ((disks i).id ++ 47 ∷ rest)
unfolding disk2prefix
disk2prefix-line_of disks n i remove_nl rest h lt =
    let path = (disks i).path in
    let base = h.base i in
    let folder = h.folder i lt in
    let longer = h.longer i lt in
    let split : path ++ rest ≡ base ++ 47 ∷ rest =
      ap (λ (p : List ℕ). p ++ rest) folder ∙ append_assoc base (47 ∷ []) rest in
    let size : length path ≡ length base + 1 =
      ap (λ (p : List ℕ). length p) folder ∙ length-append base (47 ∷ []) in
    let whole = length-append path rest in
    let from : length path - 1 ≡ length base = omega arith in
    let defined : leb (length path) (length (disks i).id)
          || ltb (length (path ++ rest)) (length path - 1)
        ≡ false =
      ground arith in
    rw (line_is remove_nl (path ++ rest), defined, from, split, drop-append base (47 ∷ rest)) refl

path2prefix_step :
    (disks : ℕ → DiskName) (remove_nl : Bool) (left i : ℕ) (path converted : List ℕ)
    → convert_at (disks i) remove_nl path ≡ some converted
    → path2prefix disks remove_nl (suc left) i path
      ≡ path2prefix disks remove_nl left (i + 1) converted
unfolding path2prefix
path2prefix_step disks remove_nl left i path converted e =
    ap
      (λ (o : Option (List ℕ)). elim o [
        | none ↦ none
        | some path1 ↦ path2prefix disks remove_nl left (i + 1) path1
      ])
      e

at_miss :
    (disks : ℕ → DiskName) (remove_nl : Bool) (left i : ℕ) (path : List ℕ)
    → is_prefix (disks i).path path ≡ false
    → path2prefix disks remove_nl (suc left) i path ≡ path2prefix disks remove_nl left (i + 1) path
unfolding convert_at
at_miss disks remove_nl left i path miss =
    path2prefix_step disks remove_nl left i path path (if_false _ _ _ miss)

later_same :
    (disks : ℕ → DiskName) (n left i : ℕ) (remove_nl : Bool) (s : List ℕ)
    → Named disks n
    → i + left ≤ n
    → path2prefix disks remove_nl left i (68 ∷ s) ≡ some (68 ∷ s)
unfolding path2prefix is_prefix
later_same disks n zero i remove_nl s h le = refl
later_same disks n (suc left) i remove_nl s h le =
    let (p, absolute) = h.absolute i (omega arith) in
    let misses : is_prefix (disks i).path (68 ∷ s) ≡ false =
      ap (λ (q : List ℕ). is_prefix q (68 ∷ s)) absolute in
    at_miss disks remove_nl left i (68 ∷ s) misses
    ∙ later_same disks n left (i + 1) remove_nl s h (omega arith)

is_prefix-append : (p rest : List ℕ) → is_prefix p (p ++ rest) ≡ true
unfolding is_prefix
is_prefix-append [] rest = refl
is_prefix-append (c ∷ p) rest = ground (arith, ==_refl c, is_prefix-append p rest)

is_prefix-line_of :
    (remove_nl : Bool) (p rest : List ℕ) → is_prefix p (line_of remove_nl (p ++ rest)) ≡ true
is_prefix-line_of true p rest =
    ap (is_prefix p) (append_assoc p rest (10 ∷ [])) ∙ is_prefix-append p (rest ++ 10 ∷ [])
is_prefix-line_of false p rest = is_prefix-append p rest

path2prefix_loop :
    (disks : ℕ → DiskName) (n left k i : ℕ) (remove_nl : Bool) (rest : List ℕ)
    → Named disks n
    → k + left ≡ n
    → k ≤ i
    → i < n
    → ((j : ℕ)
        → j < i
        → is_prefix (disks j).path (line_of remove_nl ((disks i).path ++ rest)) ≡ false)
    → path2prefix disks remove_nl left k (line_of remove_nl ((disks i).path ++ rest))
      ≡ some ((disks i).id ++ 47 ∷ rest)
unfolding convert_at
path2prefix_loop disks n zero k i remove_nl rest h e le lt first = absurd (omega arith)
path2prefix_loop disks n (suc left) k i remove_nl rest h e le lt first =
    elim (Bool-cases (k == i)) [
      | inl here ↦
          let same : k ≡ i = ground arith in
          let (s, begins) = h.begins i lt in
          let converted : (disks i).id ++ 47 ∷ rest ≡ 68 ∷ (s ++ 47 ∷ rest) =
            ap (λ (d : List ℕ). d ++ 47 ∷ rest) begins in
          subst
            (λ (j : ℕ).
              path2prefix disks remove_nl (suc left) j (line_of remove_nl ((disks i).path ++ rest))
              ≡ some ((disks i).id ++ 47 ∷ rest))
            (sym same)
            (path2prefix_step disks remove_nl left i _ _ (
                if_true _ _ _ (is_prefix-line_of remove_nl (disks i).path rest)
                ∙ disk2prefix-line_of disks n i remove_nl rest h lt)
              ∙ ap (path2prefix disks remove_nl left (i + 1)) converted
              ∙ later_same disks n left (i + 1) remove_nl (s ++ 47 ∷ rest) h (omega arith)
              ∙ ap (λ (t : List ℕ). some t) (sym converted))
      | inr other ↦
          at_miss disks remove_nl left k _ (first k (ground arith))
          ∙ path2prefix_loop disks n left (k + 1) i remove_nl rest h (omega arith) (ground arith) lt
              first
    ]

-- For disks that are named as the configuration names them, a path under the mount point of a disk,
-- and under none of the disks before it, becomes the id, a slash and the rest of the path, whether
-- a newline is to be removed or not; and prefix2path makes of this the mount point, a slash and
-- the same rest.
pub path2prefix-prefix2path :
    (disks : ℕ → DiskName) (n i : ℕ) (remove_nl : Bool) (rest : List ℕ)
    → Named disks n
    → i < n
    → ((j : ℕ)
        → j < i
        → is_prefix (disks j).path (line_of remove_nl ((disks i).path ++ rest)) ≡ false)
    → (path2prefix disks remove_nl n 0 (line_of remove_nl ((disks i).path ++ rest))
        ≡ some ((disks i).id ++ 47 ∷ rest))
      × (prefix2path disks ((disks i).id ++ 47 ∷ rest) ≡ some ((disks i).path ++ 47 ∷ rest))
unfolding prefix2path
path2prefix-prefix2path disks n i remove_nl rest h lt first = (
  path2prefix_loop disks n n 0 i remove_nl rest h (omega arith) (omega arith) lt first,
  ap (path_of_index disks ((disks i).id ++ 47 ∷ rest)) (h.index i lt rest)
      ∙ ap (at_disk (disks i).path) (from_slash-append (disks i).id rest (h.plain i lt)),
)
