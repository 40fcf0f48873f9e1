-- ===== src/Aio/Save.antt =====
-- openWorkFile and saveWorkFile of backup.cpp: the temporary file that is written, and its move to
-- the destination. What the system answers is an argument.
use parity_backup.Base.{ℕ, Bool, false, not, ◌&&◌, if◌then◌else◌}
use parity_backup.Base.Int.{ℤ, pos, negsuc, ltb_ℤ}
use parity_backup.Slice.{Slice, set_disk, cancel_gen, is_parity}
use parity_backup.Aio.{is_zero_ℤ}
use parity_backup.Aio.Next.{Wanted}

-- The answers while a file is saved: the size of a file at the destination, -1 for none; whether
-- restoreDirs made the directories, and with their owners; the return value of renameat2; and whether
-- restoreACL was asked for and failed. `no_space` is the test of `errno` in cancelGen.
pub record Saving : Type 0 where
  pub existing : ℤ
  pub dirs_made : Bool
  pub owners_lost : Bool
  pub rename_result : ℤ
  pub acl_failed : Bool
  pub no_space : Bool

abbrev pub close_disk : ℕ → Slice → Slice
close_disk disk_idx cs = set_disk cs disk_idx (record (cs.disks disk_idx) { fd = negsuc 0 })

-- `fd` is what openTempFD gives.
unfoldable pub open_work_file : ℤ → Bool → ℕ → Slice → ℤ × Slice
open_work_file fd no_space disk_idx cs =
    let cs1 = set_disk cs disk_idx (record (cs.disks disk_idx) { fd = fd }) in
    (fd, if ltb_ℤ fd (pos 0) then (cancel_gen no_space cs1).1 else cs1)

-- The lines from `close` on. A failure to restore the owner is reported by cancelGen, and then
-- genCanceled is reset.
unfoldable pub rename_work : Saving → ℕ → Slice → ℤ × Slice
rename_work a disk_idx cs =
    let closed = close_disk disk_idx cs in
    let reported = if a.acl_failed then (cancel_gen a.no_space closed).1 else closed in
    (
      a.rename_result,
      if is_zero_ℤ a.rename_result
          then record reported { gen_canceled = false }
          else (cancel_gen a.no_space closed).1,
    )

-- The tests before it for a file that is restored; flat files take none of them.
unfoldable pub place_work : Wanted → Saving → ℕ → Slice → ℤ × Slice
place_work w a disk_idx cs =
    if w.restore_flat
    then rename_work a disk_idx cs
    else if not (ltb_ℤ (pos 0) w.replace) && ltb_ℤ w.replace a.existing
    then cancel_gen a.no_space cs
    else if not a.dirs_made
    then cancel_gen a.no_space cs
    else rename_work a disk_idx (if a.owners_lost then (cancel_gen a.no_space cs).1 else cs)

-- `compare_only` is config.dry == 'c'.
unfoldable pub save_work_file : ℕ → Bool → Wanted → Saving → ℕ → Slice → ℤ × Slice
save_work_file disks compare_only w a disk_idx cs =
    if ltb_ℤ (cs.disks disk_idx).fd (pos 0)
    then (pos 0, cs)
    else if compare_only
    then (pos 0, close_disk disk_idx cs)
    else if cs.gen_canceled
    then (pos 0, cs)
    else if is_parity disks disk_idx
    then rename_work a disk_idx cs
    else place_work w a disk_idx cs
