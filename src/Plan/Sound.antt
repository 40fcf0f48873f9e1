-- ===== src/Plan/Sound.antt =====
-- What the planner keeps true of its plan over all disks, and what it does to the tables.
use mathlib.Core.Path.{subst}
use parity_backup.Base.{
  ℕ, ◌+◌, ◌≤◌, ◌<◌, ◌&&◌, ◌==◌, if◌then◌else◌, List, [], ◌∷◌, ◌++◌, All, eq_bytes, ◌≡◌, arith, refl,
  sym, ap, inl, inr, Bool-cases, true,
}
use parity_backup.Slice.{SliceDisk}
use parity_backup.Plan.{Config, Plan, Position, NewFile}
use parity_backup.Plan.Insert.{long_max}
use parity_backup.Plan.Rows.{Listed, left_count, left_total, total, row_sizes, named, marked_count}
use parity_backup.Plan.Stats.{KnowsMax}
use parity_backup.Plan.Extends.{Extends, lay_out}

-- How many positions there are for files of a name on a disk.
unfoldable pub placed : ℕ → List ℕ → List Position → ℕ
placed disk nm [] = 0
placed disk nm (r ∷ rs) =
    (if r.disk == disk && eq_bytes r.fpath nm then 1 else 0) + placed disk nm rs

placed-append :
    (disk : ℕ) (nm : List ℕ) (rs qs : List Position)
    → placed disk nm (rs ++ qs) ≡ placed disk nm rs + placed disk nm qs
unfolding placed
placed-append disk nm [] qs = omega arith
placed-append disk nm (r ∷ rs) qs = omega (arith, placed-append disk nm rs qs)

placed-lay_out :
    (disk : ℕ) (nm sid : List ℕ) (on soffset : ℕ) (ys : List NewFile)
    → placed disk nm (lay_out sid on soffset ys) ≡ (if on == disk then named nm ys else 0)
unfolding placed
placed-lay_out disk nm sid on soffset [] = ground arith
placed-lay_out disk nm sid on soffset (y ∷ ys) =
    ground (arith, placed-lay_out disk nm sid on (soffset + y.size) ys)

-- From `p` to `p'` as many positions have been added as rows have been marked, for each disk and
-- name; and no row has lost its mark.
pub record Moves (p p' : Plan) : Type 0 where
  pub counts :
      (disk : ℕ) (nm : List ℕ)
      → placed disk nm p'.slpos + marked_count nm (p.newfiles disk)
        ≡ placed disk nm p.slpos + marked_count nm (p'.newfiles disk)
  pub fewer : (disk : ℕ) → left_count (p'.newfiles disk) ≤ left_count (p.newfiles disk)

pub Moves-refl : (p : Plan) → Moves p p
Moves-refl p = record { counts = λ disk nm. refl; fewer = λ disk. omega arith }

pub Moves-trans : (p q r : Plan) → Moves p q → Moves q r → Moves p r
Moves-trans p q r h k = record {
  counts = λ disk nm. let a = h.counts disk nm in let b = k.counts disk nm in omega arith;
  fewer = λ disk. let a = h.fewer disk in let b = k.fewer disk in omega arith;
}

-- Another disk than `disk`, or `disk` itself.
same_disk : (disk i : ℕ) → (disk == i) ≡ true → disk ≡ i
same_disk disk i h = ground arith

-- The tables are what counts.
pub Moves-same : (p q : Plan) → q.slpos ≡ p.slpos → q.newfiles ≡ p.newfiles → Moves p q
Moves-same p q e d = rw (e, d) (record { counts = λ disk nm. refl; fewer = λ disk. omega arith })

pub Extends-Moves : (disk : ℕ) (ys : List NewFile) (p q : Plan) → Extends disk ys p q → Moves p q
Extends-Moves disk ys p q e = record {
  counts = λ i nm.
      let sid = p.slice.slice_id in
      let soffset = (p.slice.disks disk).sum_files_len in
      let laid = placed-lay_out i nm sid disk soffset ys in
      let split = placed-append i nm p.slpos (lay_out sid disk soffset ys) in
      let now : placed i nm q.slpos ≡ placed i nm (p.slpos ++ lay_out sid disk soffset ys) =
        ap (λ (rs : List Position). placed i nm rs) e.positions in
      elim (Bool-cases (disk == i)) [
        | inl own ↦
            let same : disk ≡ i = ground arith in
            let marks = e.marks nm in
            let added : placed i nm (lay_out sid disk soffset ys) ≡ named nm ys = rw own at laid in
            let marks_i =
              subst
                (λ (k : ℕ).
                  marked_count nm (q.newfiles k) ≡ marked_count nm (p.newfiles k) + named nm ys)
                same marks in
            omega arith
        | inr other ↦
            let none_added : placed i nm (lay_out sid disk soffset ys) ≡ 0 = rw other at laid in
            let rows : marked_count nm (q.newfiles i) ≡ marked_count nm (p.newfiles i) =
              ap (λ (rs : List NewFile). marked_count nm rs) (e.other_rows i (ground arith)) in
            omega arith
      ];
  fewer = λ i. elim (Bool-cases (disk == i)) [
    | inl own ↦
        let left = e.left in
        subst (λ (k : ℕ). left_count (q.newfiles k) ≤ left_count (p.newfiles k))
          (same_disk disk i own) (omega arith)
    | inr other ↦
        let rows : left_count (q.newfiles i) ≡ left_count (p.newfiles i) =
          ap left_count (e.other_rows i (ground arith)) in
        omega arith
  ];
}

-- On each disk the rows have descending sizes along ascending seqs and no file is empty; the size of
-- the disk's files is what has been planned and what is left; and the slice knows its fullest disk.
pub record Sound (config : Config) (big : ℕ → ℕ) (p : Plan) : Type 0 where
  pub listed : (i : ℕ) → i < config.disks → Listed 0 (big i) (p.newfiles i)
  pub in_range : (i : ℕ) → i < config.disks → big i ≤ long_max
  pub no_empty : (i : ℕ) → i < config.disks → All (λ n. 0 < n) (row_sizes (p.newfiles i))
  pub accounts :
      (i : ℕ)
      → i < config.disks
      → p.consumed_size i + (p.slice.disks i).sum_files_len + left_total (p.newfiles i)
        ≡ config.files_size i
  pub max : KnowsMax config.disks p.slice

pub Extends-Sound :
    (config : Config) (big : ℕ → ℕ) (disk : ℕ) (ys : List NewFile) (p q : Plan)
    → disk < config.disks
    → Sound config big p
    → Extends disk ys p q
    → Listed 0 (big disk) (q.newfiles disk)
    → Sound config big q
Extends-Sound config big disk ys p q lt s e l = record {
  listed = λ i lt'. elim (Bool-cases (disk == i)) [
    | inl own ↦ subst (λ (k : ℕ). Listed 0 (big k) (q.newfiles k)) (same_disk disk i own) l
    | inr other ↦ subst (Listed 0 (big i)) (sym (e.other_rows i (ground arith))) (s.listed i lt')
  ];
  in_range = s.in_range;
  no_empty = λ i lt'. elim (Bool-cases (disk == i)) [
    | inl own ↦
        subst (λ (k : ℕ). All (λ n. 0 < n) (row_sizes (q.newfiles k))) (same_disk disk i own)
          (subst (All (λ n. 0 < n)) (sym e.sizes) (s.no_empty disk lt))
    | inr other ↦
        subst (λ (rs : List NewFile). All (λ n. 0 < n) (row_sizes rs))
          (sym (e.other_rows i (ground arith))) (s.no_empty i lt')
  ];
  accounts = λ i lt'.
      let consumed : q.consumed_size i ≡ p.consumed_size i = ap (λ (f : ℕ → ℕ). f i) e.consumed in
      elim (Bool-cases (disk == i)) [
        | inl own ↦
            let sum = e.sum in
            let bytes = e.left_bytes in
            let old = s.accounts disk lt in
            let used : q.consumed_size disk ≡ p.consumed_size disk =
              ap (λ (f : ℕ → ℕ). f disk) e.consumed in
            subst
              (λ (k : ℕ).
                q.consumed_size k + (q.slice.disks k).sum_files_len + left_total (q.newfiles k)
                ≡ config.files_size k)
              (same_disk disk i own) (omega arith)
        | inr other ↦
            let old = s.accounts i lt' in
            let rows : left_total (q.newfiles i) ≡ left_total (p.newfiles i) =
              ap left_total (e.other_rows i (ground arith)) in
            let sums : (q.slice.disks i).sum_files_len ≡ (p.slice.disks i).sum_files_len =
              ap (λ sd. sd.sum_files_len) (e.other_disks i (ground arith)) in
            omega arith
      ];
  max = e.knows config.disks lt s.max;
}

-- A slice that holds a file still does after an extension.
pub still_filled :
    (config : Config) (big : ℕ → ℕ) (d : ℕ) (ys : List NewFile) (p q : Plan)
    → Sound config big p
    → Sound config big q
    → Extends d ys p q
    → 0 < p.slice.slice_size
    → 0 < q.slice.slice_size
still_filled config big d ys p q s t e filled =
    let m = p.slice.max_filled_disk in
    let top = s.max.of_max in
    let above = t.max.above m s.max.in_range in
    let sum = e.sum in
    elim (Bool-cases (m == d)) [
      | inl own ↦
          let same : m ≡ d = ground arith in
          let at_m : (q.slice.disks m).sum_files_len ≡ (p.slice.disks m).sum_files_len + total ys =
            rw same sum in
          omega arith
      | inr other ↦
          let kept : (q.slice.disks m).sum_files_len ≡ (p.slice.disks m).sum_files_len =
            ap (λ (sd : SliceDisk). sd.sum_files_len) (e.other_disks m (ground arith)) in
          omega arith
    ]
