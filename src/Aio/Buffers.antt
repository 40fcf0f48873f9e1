-- ===== src/Aio/Buffers.antt =====
-- The requests of startAIO and their completions keep within the buffer and within the file.
use parity_backup.Base.{
  ℕ, zero, suc, ◌+◌, ◌-◌, ◌≤◌, ◌<◌, Bool, true, ◌==◌, ltb, ◌≡◌, ◌≢◌, ◌⊎◌, arith, refl, ap, ◌∙◌,
  length,
}
use parity_backup.Base.Int.{ℤ, pos, ◌-ℤ◌, pos_-ℤ}
use parity_backup.Slice.{SliceDisk, Slice}
use parity_backup.Aio.Round.{request, read_done, bytes_from}

length-bytes_from : (f : ℕ → ℕ) (n i : ℕ) → length (bytes_from f n i) ≡ n
length-bytes_from f zero i = refl
length-bytes_from f (suc n) i = ap suc (length-bytes_from f n (i + 1))

-- A data disk that is read up to `last` in its file, with a buffer of `size` bytes.
pub record Reading (size last : ℕ) (sd : SliceDisk) : Type 0 where
  pub in_buffer : sd.datalen ≤ size
  pub rest : ℕ
  pub to_read : sd.file.bytes2transfer ≡ pos rest
  pub ends : sd.file_offset + rest ≡ last

-- What `request_bounds` states.
abbrev pub InBounds : ℕ → ℕ → ℕ → ℕ → Slice → Type 0
InBounds disks size last disk_idx cs =
    let sd = cs.disks disk_idx in
    let cb = request disks size cs disk_idx in
    ((cb.nbytes ≡ 0) ⊎ ((cb.buf ≡ sd.datalen) × (cb.offset ≡ sd.file_offset)))
    × (sd.datalen + cb.nbytes ≤ size)
    × (sd.file_offset + cb.nbytes ≤ last)
    × ((cs.gen_canceled ≡ true)
        ⊎ (sd.disk_finished ≡ true)
        ⊎ (size ≤ sd.datalen)
        ⊎ (last ≤ sd.file_offset)
        ⊎ (0 < cb.nbytes))

-- For a disk that is read, a request asks for bytes that are still to read, places them after what the
-- buffer holds and never past its end; and it asks for something unless the slice is canceled, the
-- disk is finished, the buffer is full or all is read.
pub request_bounds :
    (disks size last disk_idx : ℕ) (cs : Slice)
    → disk_idx < disks
    → disk_idx ≢ cs.disk2write
    → Reading size last (cs.disks disk_idx)
    → InBounds disks size last disk_idx cs
unfolding request
request_bounds disks size last disk_idx cs data_disk other r =
    let in_buffer = r.in_buffer in
    let rest = r.rest in
    let to_read = r.to_read in
    let ends = r.ends in (ground arith, ground arith, ground arith, ground arith)

-- However much of a request is read, the disk is still read up to the same place in its file, and the
-- buffer holds what it has.
pub read_done-Reading :
    (disks size last disk_idx : ℕ) (sync no_space : Bool) (len : ℕ) (cs : Slice)
    → disk_idx < disks
    → disk_idx ≢ cs.disk2write
    → Reading size last (cs.disks disk_idx)
    → 0 < len
    → len ≤ (request disks size cs disk_idx).nbytes
    → Reading size last ((read_done sync no_space disk_idx len cs).1.disks disk_idx)
unfolding read_done
read_done-Reading disks size last disk_idx sync no_space len cs data_disk other r some le =
    let (placed, in_buffer, in_file, asks) =
      request_bounds disks size last disk_idx cs data_disk other r in
    let ends = r.ends in
    let hit : (disk_idx == disk_idx) ≡ true = ground arith in
    let some_read : ltb 0 len ≡ true = ground arith in
    rw (some_read, hit)
      (record {
        in_buffer = omega arith;
        rest = r.rest - len;
        to_read = ap (λ (n : ℤ). n -ℤ pos len) r.to_read ∙ pos_-ℤ r.rest len (omega arith);
        ends = omega arith;
      })
