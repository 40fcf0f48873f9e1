-- ===== src/Plan/Runs.antt =====
-- fillHole: every run returns, and what it has inserted.
use mathlib.Core.Path.{subst}
use parity_backup.Base.{
  ℕ, zero, suc, ◌+◌, ◌≤◌, ◌<◌, Bool, true, false, not, ◌&&◌, List, [], ◌∷◌, ◌++◌, length,
  if◌then◌else◌, ◌==◌, ◌≡◌, ◌⊎◌, inl, inr, arith, refl, sym, ap, ◌∙◌,
}
use parity_backup.Plan.{NewFile, Config, Plan}
use parity_backup.Base.{Run, returns}
use parity_backup.Plan.Hole.{candidates, Scan, scan_hole, note_finished, insert_scan, fill_hole}
use parity_backup.Plan.Candidates.{select_candidates}
use parity_backup.Plan.Rows.{Listed, left_count, last_from, candidates-bounded, last_from-le}
use parity_backup.Plan.Idle.{scan_hole_idle}
use parity_backup.Plan.Scan.{Describes, scan_hole-Taken}
use parity_backup.Plan.Filled.{
  Extends-refl, note_finished-Extends, insert-taken, has_work, Filled, Filled-weaken, Filled-after,
}

-- A turn that takes no row leaves no hole, and a turn that takes some leaves less rows.
insert_scan-Filled :
    (config : Config) (disk big bound : ℕ) (work : Bool) (p : Plan) (s : Scan)
    → (ys zs : List NewFile) (next : ℕ → Plan → Run Plan) → Listed 0 big (p.newfiles disk)
    → candidates bound (p.newfiles disk) ≡ ys ++ zs
    → Describes ys s
    → (0 < length ys) ⊎ (s.hole_size ≡ 0)
    → (work ≡ true → (0 < length ys) ⊎ ((p.slice.disks disk).disk_finished ≡ true))
    → ((q : Plan) → next 0 q ≡ returns q)
    → ((rest : ℕ) (q : Plan)
        → Listed 0 big (q.newfiles disk)
        → left_count (q.newfiles disk) < left_count (p.newfiles disk)
        → Filled disk big false q (next rest q))
    → Filled disk big work p (insert_scan config disk s next p)
unfolding insert_scan
insert_scan-Filled config disk big bound work p s [] zs next h split d progress going closed again =
    let none_taken : not (s.start_rowid == 0) && not (s.last_rowid == 0) ≡ false =
      let e = d.start in ground arith in
    let no_hole : s.hole_size ≡ 0 = elim progress [ inl lt ↦ absurd (omega arith) | inr e ↦ e ] in
    rw (none_taken, no_hole)
      (record {
        result = p;
        ys = [];
        returned = closed p;
        extends = Extends-refl disk p;
        listed = h;
        progress = going;
      })
insert_scan-Filled config disk big bound work p s (y ∷ ys) zs next h split d progress going closed
      again =
    let listed : Listed 0 bound (y ∷ (ys ++ zs)) =
      subst (Listed 0 bound) split (candidates-bounded bound 0 big (p.newfiles disk) h) in
    let pos = listed.0 in
    let last_pos = last_from-le y.seq y.size ys zs listed.2 y.seq (omega arith) in
    let start_is : s.start_rowid ≡ y.seq = d.start in
    let last_is : s.last_rowid ≡ last_from y.seq ys = d.last in
    let taken : not (s.start_rowid == 0) && not (s.last_rowid == 0) ≡ true = ground arith in
    let (p2, too_big, gives, extends, listed2) =
      insert-taken config disk big p s y ys h pos d
        (select_candidates bound 0 big (p.newfiles disk) y ys zs h split) in
    let fewer = extends.left in
    rw (taken, gives)
      (Filled-after disk big work false (y ∷ ys) p p2 _ (λ w. inl (omega arith)) extends
        (again (if too_big then 0 else s.hole_size) p2 listed2 (omega arith)))

-- With work to do, a turn takes a row or notes that the disk is finished.
turn_progress :
    (config : Config) (disk hole big : ℕ) (p : Plan) (ys : List NewFile)
    → let s =
        scan_hole config disk (p.slice.disks disk).files_in_slice (suc hole) (p.newfiles disk) in
      Listed 0 big (p.newfiles disk)
      → Describes ys s
      → has_work config disk (suc hole) p ≡ true
      → (0 < length ys) ⊎ (((note_finished disk s p).slice.disks disk).disk_finished ≡ true)
turn_progress config disk hole big p ys h d work =
    let s =
      scan_hole config disk (p.slice.disks disk).files_in_slice (suc hole) (p.newfiles disk) in
    let count : s.file_count ≡ length ys = d.count in
    elim (scan_hole_idle config disk (p.slice.disks disk).files_in_slice (suc hole) big
      (p.newfiles disk) h (ground arith)) [
        | inl some_taken ↦ inl (omega arith)
        | inr none_left ↦
            let hit : (disk == disk) ≡ true = ground arith in inr (rw none_left (rw hit refl))
      ]

-- If the rows of newfiles for the disk have descending sizes along ascending seqs, then fillHole never
-- ends the program by the check of insert2slice, and it returns: two more turns than there are
-- rows that are not marked are enough. It lays files of the disk end to end after what the slice
-- has of it, counts each and marks each, and changes nothing of the other disks. If there is a hole
-- and the disk is not at its limit, then at least one file is laid or the disk is finished.
pub fill_hole-Filled :
    (fuel : ℕ) (config : Config) (disk hole big : ℕ) (p : Plan)
    → Listed 0 big (p.newfiles disk)
    → left_count (p.newfiles disk) + 2 ≤ fuel
    → Filled disk big (has_work config disk hole p) p (fill_hole fuel config disk hole p)
unfolding fill_hole
fill_hole-Filled zero config disk hole big p h enough = absurd (omega arith)
fill_hole-Filled (suc fuel) config disk zero big p h enough = record {
  result = p;
  ys = [];
  returned = refl;
  extends = Extends-refl disk p;
  listed = h;
  progress = λ work. absurd (ground arith);
}
fill_hole-Filled (suc fuel) config disk (suc hole) big p h enough =
    let rows = p.newfiles disk in
    let work = has_work config disk (suc hole) p in
    let s = scan_hole config disk (p.slice.disks disk).files_in_slice (suc hole) rows in
    let t =
      scan_hole-Taken config disk (p.slice.disks disk).files_in_slice (suc hole) 0 big rows h in
    let (noted, same_rows) = note_finished-Extends disk s p in
    let p1 = note_finished disk s p in
    let same : p1.newfiles disk ≡ rows = ap (λ (f : ℕ → List NewFile). f disk) same_rows in
    let left : left_count (p1.newfiles disk) ≡ left_count rows = ap left_count same in
    Filled-after disk big work work [] p p1 _ (λ w. inr w) noted
      (insert_scan-Filled config disk big (suc hole) work p1 s t.ys t.zs
        (λ rest q. fill_hole fuel config disk rest q) (subst (Listed 0 big) (sym same) h)
        (ap (candidates (suc hole)) same ∙ t.split) t.describes t.progress
        (turn_progress config disk hole big p t.ys h t.describes) (closed fuel (omega arith))
        (λ rest q listed fewer.
          Filled-weaken disk big (has_work config disk rest q) q _
            (fill_hole-Filled fuel config disk rest big q listed (omega arith))))
  where
    closed : (n : ℕ) → 0 < n → (q : Plan) → fill_hole n config disk 0 q ≡ returns q
    closed zero lt q = absurd (omega arith)
    closed (suc n) lt q = refl
