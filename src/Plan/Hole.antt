-- ===== src/Plan/Hole.antt =====
-- fillHole, initSliceFiles and addFile2slice of planer.cpp.
use parity_backup.Base.{
  Run, fatal, unfinished, returns, ℕ, zero, suc, ◌+◌, ◌-◌, Bool, true, false, not, ◌&&◌, ◌||◌,
  Option, none, some, List, [], ◌∷◌, if◌then◌else◌, ◌==◌, ltb, leb,
}
use parity_backup.Slice.{set_disk}
use parity_backup.Plan.{NewFile, Config, Plan, percent_diff, select_next_disk, abs_ℤ}
use parity_backup.Plan.Insert.{insert2slice, long_max}

-- The rows that the statement `add` steps through.
unfoldable pub candidates : ℕ → List NewFile → List NewFile
candidates bound [] = []
candidates bound (f ∷ fs) =
    let rest = candidates bound fs in if not f.marked && leb f.size bound then f ∷ rest else rest

-- The variables of fillHole.
pub record Scan : Type 0 where
  pub start_rowid : ℕ
  pub last_rowid : ℕ
  pub size_sum : ℕ
  pub file_count : ℕ
  pub hole_size : ℕ
  pub seq : ℕ
  pub file_size : ℕ
  pub finished : Bool

-- `fileCount++; lastRowid = seq; sizeSum += fileSize`
abbrev pub take_row : Scan → Scan
take_row s = if s.seq == 0 then s else record s {
  file_count = s.file_count + 1;
  last_rowid = s.seq;
  size_sum = s.size_sum + s.file_size;
}

-- A row that fits and leaves a hole.
abbrev pub shrink : NewFile → Scan → Scan
shrink f s =
    let s1 = record s {
      start_rowid = if s.start_rowid == 0 then f.seq else s.start_rowid;
      seq = f.seq;
      file_size = f.size;
    } in
    if f.seq == 0 then s1 else record (take_row s1) { hole_size = s.hole_size - f.size }

abbrev pub at_limit : Config → ℕ → Scan → Bool
at_limit config disk_files s =
    not (config.max_files_in_slice == 0)
    && leb config.max_files_in_slice (disk_files + s.file_count)

-- The inner loop, over the rows that are left.
unfoldable pub scan_rows : Config → ℕ → ℕ → Bool → List NewFile → Scan → Scan
scan_rows config disk_idx disk_files first [] s =
    if at_limit config disk_files s
    then record s { seq = 0; hole_size = 0 }
    else if first
    then record s { seq = 0; finished = true; hole_size = 0 }
    else record s { seq = 0 }
scan_rows config disk_idx disk_files first (f ∷ fs) s =
    let more = scan_rows config disk_idx disk_files false fs (shrink f s) in
    if at_limit config disk_files s
    then record s { seq = 0; hole_size = 0 }
    else if abs_ℤ (percent_diff config f.size s.hole_size) == 0
    then record s { seq = f.seq; file_size = f.size; hole_size = 0 }
    else if ltb s.hole_size f.size
    then record s {
      seq = if not (disk_idx == config.max_size_disk) || not first then 0 else f.seq;
      file_size = f.size;
    }
    else more

-- What follows the inner loop, up to the call of insert2slice.
abbrev pub close_scan : Scan → Scan
close_scan s =
    let s1 = take_row s in
    if s1.start_rowid == 0 then record s1 { start_rowid = s1.last_rowid } else s1

-- The variables that hold for the next turn of the outer loop: the start and the sums are reset.
abbrev pub new_scan : ℕ → Scan
new_scan hole = record {
  start_rowid = 0;
  last_rowid = 0;
  size_sum = 0;
  file_count = 0;
  hole_size = hole;
  seq = 0;
  file_size = 0;
  finished = false;
}

-- One turn of the inner loop and what follows it, before the insertion.
unfoldable pub scan_hole : Config → ℕ → ℕ → ℕ → List NewFile → Scan
scan_hole config disk_idx disk_files hole rows =
    close_scan (scan_rows config disk_idx disk_files true (candidates hole rows) (new_scan hole))

-- A disk with no row left is finished.
abbrev pub note_finished : ℕ → Scan → Plan → Plan
note_finished disk_idx s p =
    if s.finished
    then record p {
      slice = set_disk p.slice disk_idx (record (p.slice.disks disk_idx) { disk_finished = true });
    }
    else p

-- The insertion at the end of a turn of the outer loop, and what `next` does with the hole that is left.
unfoldable pub insert_scan : Config → ℕ → Scan → (ℕ → Plan → Run Plan) → Plan → Run Plan
insert_scan config disk_idx s next p =
    if not (s.start_rowid == 0) && not (s.last_rowid == 0)
    then elim (insert2slice config disk_idx s.start_rowid s.last_rowid s.file_count s.size_sum p) [
      | none ↦ fatal
      | some (too_big, p1) ↦ next (if too_big then 0 else s.hole_size) p1
    ]
    else next s.hole_size p

-- The outer loop, on fuel; `unfinished` when the fuel runs out.
unfoldable pub fill_hole : ℕ → Config → ℕ → ℕ → Plan → Run Plan
fill_hole zero config disk_idx hole p = unfinished
fill_hole (suc fuel) config disk_idx zero p = returns p
fill_hole (suc fuel) config disk_idx (suc hole) p =
    let s =
      scan_hole config disk_idx (p.slice.disks disk_idx).files_in_slice (suc hole)
        (p.newfiles disk_idx) in
    insert_scan config disk_idx s (λ rest q. fill_hole fuel config disk_idx rest q)
      (note_finished disk_idx s p)

-- fetchNextSize: the first row that is not marked.
abbrev pub fetch_next_size : List NewFile → Option NewFile
fetch_next_size rows = elim (candidates long_max rows) [ [] ↦ none | f ∷ fs ↦ some f ]

-- The size of the file that starts the slice, or 0.
unfoldable pub init_slice_files : Config → ℕ → Plan → Option (ℕ × Plan)
init_slice_files config disk_idx p = elim (fetch_next_size (p.newfiles disk_idx)) [
  | none ↦ some (0, p)
  | some f ↦ elim (insert2slice config disk_idx f.seq f.seq 1 f.size p) [
    | none ↦ none
    | some (too_big, p1) ↦ some (f.size, p1)
  ]
]

unfoldable pub add_file2slice : ℕ → Config → Plan → Run (Option ℕ × Plan)
add_file2slice fuel config p = elim (select_next_disk config p) [
  | none ↦ returns (none, p)
  | some next ↦
      let hole =
        (p.slice.disks p.slice.max_filled_disk).sum_files_len
        - (p.slice.disks next).sum_files_len in
      elim (fill_hole fuel config next hole p) [
        | fatal ↦ fatal
        | unfinished ↦ unfinished
        | returns p1 ↦ returns (some next, p1)
      ]
]
