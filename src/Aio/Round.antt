-- ===== src/Aio/Round.antt =====
-- startAIO and wait4buffers of asyncio.cpp: the request that is made for a disk and what a completed
-- request does.
use parity_backup.Base.{
  ℕ, zero, suc, ◌+◌, ◌-◌, ◌^◌, Bool, true, false, ◌||◌, Option, none, some, List, [], ◌∷◌, ◌++◌,
  if◌then◌else◌, ◌==◌, ltb, leb,
}
use parity_backup.Base.Int.{ℤ, pos, negsuc, ◌-ℤ◌, ltb_ℤ}
use parity_backup.Slice.{Slice, set_disk, cancel_gen, is_parity}
use parity_backup.Aio.{leb_ℤ, is_zero_ℤ}

-- The fields of an aiocb that the code reads: `nbytes` 0 is no request.
pub record Aiocb : Type 0 where
  pub nbytes : ℕ
  pub offset : ℕ
  pub buf : ℕ

abbrev pub no_request : Aiocb
no_request = record { nbytes = 0; offset = 0; buf = 0 }

-- An off_t as a size_t: a negative amount becomes a large one.
abbrev pub to_size : ℤ → ℕ
to_size (pos n) = n
to_size (negsuc n) = 2 ^ 64 - suc n

-- startAIO once the file is open: the request, which aio_read or aio_write then starts.
unfoldable pub request : ℕ → ℕ → Slice → ℕ → Aiocb
request disks file_buffer_size cs disk_idx =
    let sd = cs.disks disk_idx in
    let rest =
      if is_parity disks disk_idx
      then pos cs.write_size -ℤ (pos sd.file_offset -ℤ pos cs.write_start)
      else sd.file.bytes2transfer in
    let offset =
      if is_parity disks disk_idx then sd.file_offset + cs.header_size else sd.file_offset in
    if cs.gen_canceled || sd.disk_finished
    then no_request
    else if cs.disk2write == disk_idx
    then (if sd.datalen == 0
        then no_request
        else record { nbytes = sd.datalen; offset = sd.file_offset; buf = 0 })
    else if leb file_buffer_size sd.datalen || leb_ℤ sd.file.bytes2transfer (pos 0)
    then no_request
    else let free = pos (file_buffer_size - sd.datalen) in
      record {
        nbytes = to_size (if ltb_ℤ rest free then rest else free);
        offset = offset;
        buf = sd.datalen;
      }

-- The bytes `f i, …, f (i + n - 1)`.
abbrev pub bytes_from : (ℕ → ℕ) → ℕ → ℕ → List ℕ
bytes_from f zero i = []
bytes_from f (suc n) i = f i ∷ bytes_from f n (i + 1)

-- A read of `len` bytes of a disk has completed. The bytes are in the buffer after `datalen`. With
-- `sync` they are fed to the hash. The result says whether the loop goes on.
unfoldable pub read_done : Bool → Bool → ℕ → ℕ → Slice → Bool × Slice
read_done sync no_space disk_idx len cs =
    let sd = cs.disks disk_idx in
    let cf = sd.file in
    let fed =
      if sync then cf.hash_state ++ bytes_from sd.data_buf len sd.datalen else cf.hash_state in
    if ltb 0 len
    then (
      true,
      set_disk cs disk_idx (record sd {
        datalen = sd.datalen + len;
        sum_files_len = sd.sum_files_len + len;
        file_offset = sd.file_offset + len;
        file = record cf { hash_state = fed; bytes2transfer = cf.bytes2transfer -ℤ pos len };
      }),
    )
    else if is_zero_ℤ cf.bytes2transfer
    then (true, cs)
    else (
      false,
      set_disk (cancel_gen no_space cs).1 disk_idx
          (record sd { file = record cf { bytes2transfer = pos 0 } }),
    )

-- A write of `len` bytes of the disk to write has completed. The result says whether the file is
-- finished; `none` when the loop is left.
unfoldable pub write_done : ℕ → Bool → ℕ → ℕ → Slice → Option Bool × Slice
write_done disks no_space disk_idx len cs =
    let sd = cs.disks disk_idx in
    let cf = sd.file in
    let fed =
      if is_parity disks disk_idx
      then cf.hash_state
      else cf.hash_state ++ bytes_from sd.data_buf sd.datalen 0 in
    let rest = cf.bytes2transfer -ℤ pos len in
    if len == sd.datalen
    then (
      some (leb_ℤ rest (pos 0)),
      record (set_disk cs disk_idx (record sd {
        data_buf = λ k. if ltb k sd.datalen then 0 else sd.data_buf k;
        datalen = 0;
        file_offset = sd.file_offset + len;
        file = record cf { hash_state = fed; bytes2transfer = rest };
      })) { bytes_written = cs.bytes_written + len },
    )
    else (none, (cancel_gen no_space cs).1)
