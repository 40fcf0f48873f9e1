-- ===== src/Aio/Next.antt =====
-- getNextFile of asyncio.cpp.
use parity_backup.Base.{
  ℕ, ◌+◌, Bool, true, not, ◌&&◌, ◌||◌, Option, none, some, List, [], ◌∷◌, eq_bytes, if◌then◌else◌,
  ◌==◌, ltb, leb,
}
use parity_backup.Base.Int.{ℤ, pos, ltb_ℤ}
use parity_backup.Slice.{Slice, set_disk, cancel_gen, is_parity}
use parity_backup.Aio.{leb_ℤ}

-- A row of slpos, for one slice and one disk. `outdated` says that its state is '*'. The statement of
-- a sync selects only `dseq`, `fsize` and `path`, and a sync reads no other field.
pub record Row : Type 0 where
  pub dseq : ℕ
  pub fsize : ℕ
  pub path : List ℕ
  pub start : ℕ
  pub mtime : List ℕ
  pub outdated : Bool

-- What the variables dseq and start hold before a row is stepped, which the source leaves open.
pub record Unset : Type 0 where
  pub dseq : ℕ
  pub start : ℕ

-- What a restore is asked for. `matches` is pathMatchPattern; `real_file` is the size, -1 for a file
-- that does not exist, and the time that fileInfo gives at the restore's destination.
pub record Wanted : Type 0 where
  pub matches : List ℕ → Bool
  pub real_file : List ℕ → ℤ × List ℕ
  pub restore_flat : Bool
  pub replace : ℤ

-- A file for restore is restored if its copy on the disk differs and may be replaced.
abbrev pub to_restore : Wanted → Row → Bool
to_restore w r =
    let (real_size, real_modify) = w.real_file r.path in
    (r.outdated
      || not (leb_ℤ real_size (pos r.fsize) && leb_ℤ (pos r.fsize) real_size)
      || not (eq_bytes r.mtime real_modify))
    && (ltb_ℤ (pos 0) w.replace || leb_ℤ real_size w.replace)

abbrev pub count_skipped : Row → Slice → Slice
count_skipped r cs = record cs {
  files_canceled = cs.files_canceled + 1;
  files_written = cs.files_written + 1;
  bytes_written = cs.bytes_written + r.fsize;
}

-- The rows that the statement selectNext has still to give.
unfoldable pub after : ℕ → List Row → List Row
after seq [] = []
after seq (r ∷ rs) = let rest = after seq rs in if ltb seq r.dseq then r ∷ rest else rest

-- The loop over these rows, with what dseq holds: the row at which it stops.
unfoldable pub step_rows : ℕ → Wanted → ℕ → List Row → (dseq : ℕ) → Slice → Option Row × Slice
step_rows disks w disk_idx [] dseq cs =
    (none, set_disk cs disk_idx (record (cs.disks disk_idx) { seq = dseq }))
step_rows disks w disk_idx (r ∷ rs) dseq cs0 =
    let sd = cs0.disks disk_idx in
    let cs = set_disk cs0 disk_idx (record sd { seq = r.dseq }) in
    let cs1 =
      set_disk cs0 disk_idx
        (record sd { seq = r.dseq; file = record sd.file { mtime = r.mtime } }) in
    let next = step_rows disks w disk_idx rs r.dseq cs in
    let skip = step_rows disks w disk_idx rs r.dseq (count_skipped r cs1) in
    if is_parity disks cs0.disk2write
    then (some r, cs)
    else if cs0.disk2write == disk_idx
    then (if w.matches r.path
        then (if w.restore_flat || to_restore w r then (some r, cs1) else skip)
        else next)
    else if leb cs0.write_start (r.start + r.fsize)
    then (some r, cs)
    else next

-- What follows the loop, with what start holds where no row sets it, in a sync. `no_space` is the
-- test of `errno` in cancelGen.
abbrev pub settle : ℕ → ℕ → ℕ → Bool → Option Row × Slice → Option Row × Slice
settle disks unset_start disk_idx no_space (none, cs) =
    (none, set_disk cs disk_idx (record (cs.disks disk_idx) { disk_finished = true }))
settle disks unset_start disk_idx no_space (some r, cs) =
    let sd = cs.disks disk_idx in
    let start = if is_parity disks cs.disk2write then unset_start else r.start in
    let cs1 =
      set_disk cs disk_idx
        (record sd { file = record sd.file { file_size = r.fsize; parity_start = start } }) in
    if not (sd.file.file_size == 0) && ltb sd.file.file_size r.fsize
    then (none, (cancel_gen no_space cs).1)
    else (some r, if disk_idx == cs1.disk2write then record cs1 { save_path = r.path } else cs1)

-- The row of the file that is to be opened.
unfoldable pub get_next_file : ℕ → Wanted → Unset → Bool → ℕ → List Row → Slice → Option Row × Slice
get_next_file disks w unset no_space disk_idx rows cs =
    settle disks unset.start disk_idx no_space
      (step_rows disks w disk_idx (after (cs.disks disk_idx).seq rows) unset.dseq cs)
