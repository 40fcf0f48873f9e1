-- ===== src/Slice.antt =====
-- SLICE, SLICE_DISK and SLICE_FILE of backup.h, and cancelGen, cancelRequest, isParity and
-- getParityDisk of backup.cpp. A byte buffer is a function of the index; `hash_state` is the list of
-- the bytes fed to the streaming hash since its last reset. Messages and the report file are output
-- and are left out.
pub mod Hash
use parity_backup.Base.{
  ℕ, suc, ◌+◌, Bool, true, false, List, update, if◌then◌else◌, ◌==◌, ◌≡◌, arith,
}
use parity_backup.Base.Int.{ℤ, pos, negsuc}

pub record SliceFile : Type 0 where
  pub file_size : ℕ
  pub bytes2transfer : ℤ
  pub parity_start : ℕ
  pub mtime : List ℕ
  pub hash_state : List ℕ

pub record SliceDisk : Type 0 where
  pub sum_files_len : ℕ
  pub files_in_slice : ℕ
  pub disk_finished : Bool
  pub fd : ℤ
  pub data_buf : ℕ → ℕ
  pub datalen : ℕ
  pub seq : ℕ
  pub file_offset : ℕ
  pub file : SliceFile

-- HASH_POS
pub record HashPos : Type 0 where
  pub dseq : ℕ
  pub disk : ℕ
  pub hash : List ℕ

pub record Slice : Type 0 where
  pub max_filled_disk : ℕ
  pub slice_id : List ℕ
  pub gen_canceled : Bool
  pub disk2write : ℕ
  pub write_start : ℕ
  pub write_size : ℕ
  pub save_path : List ℕ
  pub fill_factor : ℤ
  pub slice_size : ℕ
  pub files_count : ℕ
  pub header_size : ℕ
  pub hash_array : ℕ → HashPos
  pub hash_size : ℕ
  pub hash_count : ℕ
  pub bytes_written : ℕ
  pub files_written : ℕ
  pub files_canceled : ℕ
  pub out_of_space : Bool
  pub disks : ℕ → SliceDisk

-- Give disk `i` a new record.
abbrev pub set_disk : Slice → ℕ → SliceDisk → Slice
set_disk cs i sd = record cs { disks = update cs.disks i sd }

-- isParity: the disk after the `disks` data disks.
abbrev pub is_parity : ℕ → ℕ → Bool
is_parity disks disk_idx = disk_idx == disks

-- getParityDisk
abbrev pub get_parity_disk : ℕ → Slice → SliceDisk
get_parity_disk disks cs = cs.disks disks

-- cancelGen. `no_space` is the test of `errno` for EDQUOT, EFBIG and ENOSPC.
unfoldable pub cancel_gen : Bool → Slice → ℤ × Slice
cancel_gen no_space cs = if cs.gen_canceled then (pos 0, cs) else (
  if no_space then negsuc 0 else pos 0,
  record cs { gen_canceled = true; out_of_space = no_space },
)

-- cancelRequest with a slice. `canceled` is the operationCanceled flag of the TCA.
unfoldable pub cancel_request : Bool → Slice → Slice
cancel_request canceled cs = if canceled then record cs { gen_canceled = true } else cs
