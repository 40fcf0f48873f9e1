-- ===== src/Parity.antt =====
-- computeParity of backup.cpp: the exclusive or, byte by byte, of every buffer but the one of the
-- disk that is written, into the buffer of that disk.
pub mod Column
pub mod Laws
pub mod Recover
pub mod Restore
use parity_backup.Base.{
  ℕ, zero, suc, ◌+◌, Bool, true, false, bit_xor, update, count_loop, if◌then◌else◌, ◌==◌, ltb, leb,
  ◌≡◌, arith,
}
use parity_backup.Base.Int.{ℤ, pos, negsuc}
use parity_backup.Slice.{SliceDisk, Slice, set_disk, cancel_gen, cancel_request}

-- The greatest `datalen` of the first `n` disks other than `dw`.
unfoldable pub par_len : ℕ → ℕ → (ℕ → SliceDisk) → ℕ
par_len n dw disks =
    count_loop n 0
      (λ i len.
        if i == dw then len else if ltb len (disks i).datalen then (disks i).datalen else len)
      0

-- One byte of the parity: column `k` of the first `n` disks other than `dw`.
unfoldable pub parity_byte : ℕ → ℕ → (ℕ → SliceDisk) → ℕ → ℕ
parity_byte n dw disks k =
    count_loop n 0 (λ i byte. if i == dw then byte else bit_xor byte ((disks i).data_buf k)) 0

-- The loop over the columns, in place.
unfoldable pub fill_parity : ℕ → ℕ → ℕ → (ℕ → SliceDisk) → ℕ → SliceDisk
unfolding parity_byte
fill_parity n dw len disks =
    count_loop len 0
      (λ k ds.
        update ds dw
          (record (ds dw) { data_buf = update (ds dw).data_buf k (parity_byte n dw ds k) }))
      disks

-- `sd->datalen = 0; bzero(sd->dataBuf, len)` on every disk but `dw`.
unfoldable pub clear_inputs : ℕ → ℕ → ℕ → (ℕ → SliceDisk) → ℕ → SliceDisk
clear_inputs n dw len disks =
    count_loop n 0
      (λ i ds.
        if i == dw
        then ds
        else update ds i (record (ds i) {
          datalen = 0;
          data_buf = λ k. if ltb k len then 0 else (ds i).data_buf k;
        }))
      disks

-- `data_disks` is config.disks; the parity disk makes one more. The result is the return value.
unfoldable pub compute_parity : ℕ → Bool → Bool → Slice → ℤ × Slice
compute_parity data_disks canceled no_space cs0 =
    let cs = cancel_request canceled cs0 in
    let n = suc data_disks in
    let dw = cs.disk2write in
    let len = par_len n dw cs.disks in
    let cs1 = set_disk cs dw (record (cs.disks dw) { datalen = len }) in
    if cs.gen_canceled
    then (pos 0, cs)
    else if ltb 0 len
    then (pos len, record cs1 { disks = clear_inputs n dw len (fill_parity n dw len cs1.disks) })
    else elim (cs1.disks dw).file.bytes2transfer [
      | pos zero ↦ (pos 0, cs1)
      | other ↦ cancel_gen no_space cs1
    ]
