-- ===== src/Aio.antt =====
-- asyncio.cpp: the window of the parity array that a slice is working on, the next file of a disk,
-- and the requests and completions of the asynchronous reads and writes. The slice is in Slice.antt.
-- `disks` is config.disks, and the parity disk comes after the data disks.
pub mod Next
pub mod Save
pub mod Files
pub mod Round
pub mod Wait
pub mod Rounds
pub mod Same
pub mod Opens
pub mod Contained
pub mod Visits
pub mod Memory
pub mod Window
pub mod Buffers
pub mod Passes
pub mod Skips
use parity_backup.Base.{
  ℕ, zero, suc, ◌+◌, ◌-◌, Bool, true, false, not, ◌&&◌, ◌||◌, update, count_loop, if◌then◌else◌,
  ◌==◌, ltb, leb,
}
use parity_backup.Base.Int.{ℤ, pos, negsuc, ◌-ℤ◌, ◌+ℤ◌, ltb_ℤ, sub_ℕ, pos_part, neg_part}
use parity_backup.Slice.{SliceFile, SliceDisk, Slice, set_disk}

-- a <= b
abbrev pub leb_ℤ : ℤ → ℤ → Bool
leb_ℤ a b = not (ltb_ℤ b a)

abbrev pub is_zero_ℤ : ℤ → Bool
is_zero_ℤ a = pos_part a + neg_part a == 0

unfoldable pub involved : Slice → ℕ → ℕ → Bool
involved cs start size =
    leb cs.write_start (start + size) && leb start (cs.write_start + cs.write_size)

unfoldable pub file_finished : Slice → ℕ → Bool
file_finished cs disk_idx =
    let sd = cs.disks disk_idx in
    is_zero_ℤ sd.file.bytes2transfer
    && (leb_ℤ sd.fd (pos 0)
        || (sd.file.file_size == 0)
        || leb (sd.file.parity_start + sd.file.file_size) (cs.write_start + cs.write_size)
        || (sd.file_offset == sd.file.file_size))

-- On the disk's record.
unfoldable pub fit_disk : Slice → SliceDisk → SliceDisk
fit_disk cs sd =
    let cf = sd.file in
    let ext = pos cf.parity_start +ℤ cf.bytes2transfer -ℤ pos (cs.write_start + cs.write_size) in
    let rest = if ltb_ℤ (pos 0) ext then cf.bytes2transfer -ℤ ext else cf.bytes2transfer in
    if ltb cf.parity_start cs.write_start
    then record sd {
      file_offset = cs.write_start - cf.parity_start;
      file = record cf { bytes2transfer = rest -ℤ pos (cs.write_start - cf.parity_start) };
    }
    else record sd { file = record cf { bytes2transfer = rest } }

abbrev pub fit_transfer_option : Slice → ℕ → Slice
fit_transfer_option cs disk_idx = set_disk cs disk_idx (fit_disk cs (cs.disks disk_idx))

-- The body of the loop in newTargetFile.
unfoldable pub retarget : Slice → SliceDisk → SliceDisk
retarget cs sd0 =
    let sd = record sd0 { disk_finished = false } in
    if involved cs sd.file.parity_start sd.file.file_size
    then fit_disk cs (record sd {
      file_offset = 0;
      file = record sd.file { bytes2transfer = pos sd.file.file_size };
    })
    else if ltb_ℤ (pos 0) sd.fd
    then record sd { fd = negsuc 0 }
    else sd

unfoldable pub new_target_file : ℕ → Slice → Slice
new_target_file disks cs0 =
    count_loop (suc disks) 0
      (λ i cs. if i == cs.disk2write then cs else set_disk cs i (retarget cs (cs.disks i))) cs0
