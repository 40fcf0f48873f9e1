-- ===== src/Aio/Files.antt =====
-- finishCurrentFile and openNextFile of asyncio.cpp. `none` when log_fatal ends the program.
use parity_backup.Base.{
  ℕ, ◌+◌, Bool, true, false, not, ◌&&◌, ◌||◌, Option, none, some, List, [], eq_bytes, if◌then◌else◌,
  ◌==◌, ltb,
}
use parity_backup.Base.Int.{ℤ, pos, ltb_ℤ}
use parity_backup.Slice.{SliceFile, Slice, set_disk, cancel_gen, is_parity}
use parity_backup.Slice.Hash.{store_hash, find_hash4seq}
use parity_backup.Aio.{file_finished, fit_transfer_option}
use parity_backup.Aio.Next.{Row, Wanted, Unset, get_next_file}
use parity_backup.Aio.Save.{Saving, close_disk, open_work_file, save_work_file}

-- What stays the same while a slice is worked on: the settings, the rows of slpos for each disk, and
-- `digest`, which is getBlockHash.
pub record Setup : Type 0 where
  pub disks : ℕ
  pub file_buffer_size : ℕ
  pub restoring : Bool
  pub dry : Bool
  pub compare_only : Bool
  pub wanted : Wanted
  pub rows : ℕ → List Row
  pub digest : List ℕ → List ℕ

-- What aio_error and aio_return say of a request.
pub data Completion : Type 0 where
  in_progress failed : Completion
  transferred : ℕ → Completion

-- The system's answers to one visit of a disk: the descriptors that openAt and openTempFD give,
-- `started` for aio_read and aio_write, `cancelable` for aio_cancel; and what getNextFile finds in its
-- variables.
pub record Answers : Type 0 where
  pub completion : Completion
  pub fd : ℤ
  pub work_fd : ℤ
  pub no_space : Bool
  pub saving : Saving
  pub started : Bool
  pub cancelable : Bool
  pub unset : Unset

-- The hash of a file that is restored differs from the one that the slice holds.
abbrev pub hash_differs : (List ℕ → List ℕ) → SliceFile → Option (List ℕ) → Bool
hash_differs digest cf none = false
hash_differs digest cf (some hash) =
    ltb 0 cf.file_size && not (eq_bytes hash (digest cf.hash_state))

-- The end of a file that is restored, once its hash is compared.
abbrev pub close_restored : ℕ → Slice → Slice
close_restored disk_idx cs =
    let sd = cs.disks disk_idx in
    record (set_disk cs disk_idx
      (record sd { file = record sd.file { parity_start = 0; file_size = 0 } })) {
        files_written = if cs.gen_canceled then cs.files_written else cs.files_written + 1;
      }

unfoldable pub finish_current_file : Setup → Answers → ℕ → Slice → Option Slice
finish_current_file u a disk_idx cs =
    let differs =
      hash_differs u.digest (cs.disks disk_idx).file
        (find_hash4seq disk_idx (cs.disks disk_idx).seq cs) in
    let compared = if differs then (cancel_gen a.no_space cs).1 else cs in
    let saved = (save_work_file u.disks u.compare_only u.wanted a.saving disk_idx compared).1 in
    if u.restoring
    then (if disk_idx == cs.disk2write then some (close_restored disk_idx saved) else some cs)
    else if is_parity u.disks disk_idx
    then some cs
    else store_hash u.digest disk_idx 0 none cs

-- A file of the disk to write: its temporary file is opened, and the window is set to it.
abbrev pub aim_at : Setup → ℕ → ℤ × Slice → Option Slice
aim_at u disk_idx (fd, cs) =
    let cf = (cs.disks disk_idx).file in
    let par = cs.disks u.disks in
    let cs1 = record (set_disk cs u.disks (record par { file_offset = cf.parity_start })) {
      write_start = cf.parity_start;
      write_size = cf.file_size;
      gen_canceled = false;
    } in
    let sd = cs1.disks disk_idx in
    if ltb_ℤ fd (pos 0)
    then none
    else some (set_disk cs1 disk_idx (record sd { file = record sd.file { hash_state = [] } }))

-- The file is opened unless it already is; the result says whether there is a file.
abbrev pub open_data : Answers → ℕ → Slice → Bool × Slice
open_data a disk_idx cs =
    let sd = cs.disks disk_idx in
    let cs1 = set_disk cs disk_idx (record sd { fd = a.fd }) in
    if ltb_ℤ (pos 0) sd.fd
    then (true, cs)
    else if ltb_ℤ a.fd (pos 0)
    then (false, (cancel_gen a.no_space cs1).1)
    else (true, cs1)

-- What follows getNextFile.
abbrev pub open_row : Setup → Answers → ℕ → Option Row × Slice → Bool × Slice
open_row u a disk_idx (none, cs) = (false, cs)
open_row u a disk_idx (some r, cs) =
    let sd = cs.disks disk_idx in
    let cs1 = set_disk cs disk_idx (record sd {
      file_offset = 0;
      file = record sd.file { bytes2transfer = pos sd.file.file_size };
    }) in
    let sd1 = cs1.disks disk_idx in
    let work = open_work_file a.work_fd a.no_space disk_idx cs1 in
    if is_parity u.disks cs.disk2write
    then open_data a disk_idx (
        set_disk cs1 disk_idx (record sd1 {
          files_in_slice = sd1.files_in_slice + 1;
          file = record sd1.file { hash_state = [] };
        }))
    else if cs.disk2write == disk_idx
    then elim (aim_at u disk_idx work) [
      | none ↦ (false, work.1)
      | some aimed ↦ open_data a disk_idx aimed
    ]
    else open_data a disk_idx (fit_transfer_option cs1 disk_idx)

abbrev pub next_row : Setup → Answers → ℕ → Slice → Bool × Slice
next_row u a disk_idx cs =
    open_row u a disk_idx
      (get_next_file u.disks u.wanted a.unset a.no_space disk_idx (u.rows disk_idx) cs)

-- The result says whether there is a path.
unfoldable pub open_next_file : Setup → Answers → ℕ → Slice → Option (Bool × Slice)
open_next_file u a disk_idx cs =
    if cs.gen_canceled || is_parity u.disks disk_idx || (cs.disks disk_idx).disk_finished
    then some (false, cs)
    else if not (file_finished cs disk_idx)
    then some (false, cs)
    else if ltb_ℤ (pos 0) (cs.disks disk_idx).fd
    then elim (finish_current_file u a disk_idx cs) [
      | none ↦ none
      | some done ↦ some (next_row u a disk_idx (close_disk disk_idx done))
    ]
    else some (next_row u a disk_idx cs)
