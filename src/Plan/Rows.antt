-- ===== src/Plan/Rows.antt =====
-- The rows of newfiles for one disk: what the statements of fillHole and insert2slice select and mark.
use parity_backup.Base.{
  eq_bytes, All, ℕ, suc, ◌+◌, ◌≤◌, ◌<◌, true, not, ◌&&◌, List, [], ◌∷◌, ◌++◌, length, if◌then◌else◌,
  leb, ◌≡◌, inl, inr, arith, refl, Bool-cases, if_split,
}
use parity_backup.Plan.{NewFile}
use parity_backup.Plan.Insert.{select_between, mark_between, between}
use parity_backup.Plan.Hole.{candidates}

-- Seqs ascend from above `lo`, and sizes descend from `big`.
abbrev pub Listed : ℕ → ℕ → List NewFile → Type 0
Listed lo big [] = Unit {0}
Listed lo big (f ∷ fs) = (lo < f.seq) × (f.size ≤ big) × Listed f.seq f.size fs

pub Listed-weaken :
    (lo lo' big big' : ℕ) (rows : List NewFile)
    → lo' ≤ lo
    → big ≤ big'
    → Listed lo big rows
    → Listed lo' big' rows
Listed-weaken lo lo' big big' [] le le' h = tt
Listed-weaken lo lo' big big' (f ∷ fs) le le' h = (omega arith, omega arith, h.2)

-- How many rows are not marked.
unfoldable pub left_count : List NewFile → ℕ
left_count [] = 0
left_count (f ∷ fs) = let rest = left_count fs in if f.marked then rest else suc rest

abbrev pub total : List NewFile → ℕ
total [] = 0
total (f ∷ fs) = f.size + total fs

abbrev pub first_seq : List NewFile → ℕ
first_seq [] = 0
first_seq (f ∷ fs) = f.seq

-- The bytes of the rows that are not marked.
unfoldable pub left_total : List NewFile → ℕ
left_total [] = 0
left_total (f ∷ fs) = let rest = left_total fs in if f.marked then rest else f.size + rest

abbrev pub row_sizes : List NewFile → List ℕ
row_sizes [] = []
row_sizes (f ∷ fs) = f.size ∷ row_sizes fs

-- How many of the files have the name `nm`.
abbrev pub named : List ℕ → List NewFile → ℕ
named nm [] = 0
named nm (f ∷ fs) = (if eq_bytes f.name nm then 1 else 0) + named nm fs

-- How many of the rows with the name `nm` are marked.
unfoldable pub marked_count : List ℕ → List NewFile → ℕ
marked_count nm [] = 0
marked_count nm (f ∷ fs) = (if f.marked && eq_bytes f.name nm then 1 else 0) + marked_count nm fs

-- The seq of the last row, or `d`.
abbrev pub last_from : ℕ → List NewFile → ℕ
last_from d [] = d
last_from d (f ∷ fs) = last_from f.seq fs

pub total-append : (xs ys : List NewFile) → total (xs ++ ys) ≡ total xs + total ys
total-append [] ys = omega arith
total-append (x ∷ xs) ys = omega (arith, total-append xs ys)

pub last_from-append :
    (d : ℕ) (xs : List NewFile) (f : NewFile) → last_from d (xs ++ f ∷ []) ≡ f.seq
last_from-append d [] f = refl
last_from-append d (x ∷ xs) f = last_from-append x.seq xs f

pub mark_between-Listed :
    (start last lo big : ℕ) (rows : List NewFile)
    → Listed lo big rows
    → Listed lo big (mark_between start last rows)
unfolding mark_between
mark_between-Listed start last lo big [] h = tt
mark_between-Listed start last lo big (f ∷ fs) h =
    if_split (λ (g : NewFile). Listed lo big (g ∷ mark_between start last fs))
      (not f.marked && between start last f.seq) (record f { marked = true }) f
      (λ e. (h.0, h.1, mark_between-Listed start last f.seq f.size fs h.2))
      (λ e. (h.0, h.1, mark_between-Listed start last f.seq f.size fs h.2))

-- The update marks the rows that the selection gives, and no other.
pub mark_between-left_count :
    (start last : ℕ) (rows : List NewFile)
    → left_count (mark_between start last rows) + length (select_between start last rows)
      ≡ left_count rows
unfolding mark_between select_between left_count
mark_between-left_count start last [] = refl
mark_between-left_count start last (f ∷ fs) = ground (arith, mark_between-left_count start last fs)

pub mark_between-left_total :
    (start last : ℕ) (rows : List NewFile)
    → left_total (mark_between start last rows) + total (select_between start last rows)
      ≡ left_total rows
unfolding mark_between select_between left_total
mark_between-left_total start last [] = refl
mark_between-left_total start last (f ∷ fs) = ground (arith, mark_between-left_total start last fs)

pub marked_count-mark_between :
    (nm : List ℕ) (start last : ℕ) (rows : List NewFile)
    → marked_count nm (mark_between start last rows)
      ≡ marked_count nm rows + named nm (select_between start last rows)
unfolding mark_between select_between marked_count
marked_count-mark_between nm start last [] = refl
marked_count-mark_between nm start last (f ∷ fs) =
    ground (arith, marked_count-mark_between nm start last fs)

pub row_sizes-mark_between :
    (start last : ℕ) (rows : List NewFile)
    → row_sizes (mark_between start last rows) ≡ row_sizes rows
unfolding mark_between
row_sizes-mark_between start last [] = refl
row_sizes-mark_between start last (f ∷ fs) = ground (arith, row_sizes-mark_between start last fs)

-- Where no file is empty, the files that are left have at least as many bytes as there are files.
pub left_count-le :
    (rows : List NewFile) → All (λ n. 0 < n) (row_sizes rows) → left_count rows ≤ left_total rows
unfolding left_count left_total
left_count-le [] h = omega arith
left_count-le (f ∷ fs) h = let some_bytes = h.0 in ground (arith, left_count-le fs h.1)

pub named-append :
    (nm : List ℕ) (xs ys : List NewFile) → named nm (xs ++ ys) ≡ named nm xs + named nm ys
named-append nm [] ys = omega arith
named-append nm (x ∷ xs) ys = omega (arith, named-append nm xs ys)

-- Once marked, a row is not selected again.
pub select_between-mark_between :
    (start last : ℕ) (rows : List NewFile)
    → select_between start last (mark_between start last rows) ≡ []
unfolding mark_between select_between
select_between-mark_between start last [] = refl
select_between-mark_between start last (f ∷ fs) =
    ground (arith, select_between-mark_between start last fs)

-- Rows above the range are not selected.
pub select_above :
    (start last lo big : ℕ) (rows : List NewFile)
    → last ≤ lo
    → Listed lo big rows
    → select_between start last rows ≡ []
unfolding select_between
select_above start last lo big [] le h = refl
select_above start last lo big (f ∷ fs) le h =
    let rest = select_above start last f.seq f.size fs (omega arith) h.2 in ground arith

pub candidates-Listed :
    (bound lo big : ℕ) (rows : List NewFile)
    → Listed lo big rows
    → Listed lo big (candidates bound rows)
unfolding candidates
candidates-Listed bound lo big [] h = tt
candidates-Listed bound lo big (f ∷ fs) h =
    if_split (Listed lo big) (not f.marked && leb f.size bound) (f ∷ candidates bound fs)
      (candidates bound fs) (λ e. (h.0, h.1, candidates-Listed bound f.seq f.size fs h.2))
      (λ e.
        Listed-weaken f.seq lo f.size big (candidates bound fs) (omega arith) h.1
          (candidates-Listed bound f.seq f.size fs h.2))

pub candidates-bounded :
    (bound lo big : ℕ) (rows : List NewFile)
    → Listed lo big rows
    → Listed lo bound (candidates bound rows)
unfolding candidates
candidates-bounded bound lo big [] h = tt
candidates-bounded bound lo big (f ∷ fs) h = elim (Bool-cases (not f.marked && leb f.size bound)) [
  | inl taken ↦ rw taken (h.0, ground arith, candidates-Listed bound f.seq f.size fs h.2)
  | inr skipped ↦ rw skipped (
      Listed-weaken f.seq lo bound bound (candidates bound fs) (omega arith) (omega arith)
        (candidates-bounded bound f.seq f.size fs h.2))
]

pub last_from-le :
    (lo big : ℕ) (ys zs : List NewFile)
    → Listed lo big (ys ++ zs)
    → (d : ℕ) → d ≤ lo
    → d ≤ last_from d ys
last_from-le lo big [] zs h d le = omega arith
last_from-le lo big (y ∷ ys) zs h d le =
    omega (arith, last_from-le y.seq y.size ys zs h.2 y.seq (omega arith), h.0)
