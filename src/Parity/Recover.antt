-- ===== src/Parity/Recover.antt =====
-- computeParity on a sync and on a restore: the parity of the other disks gives the lost one back.
use parity_backup.Base.{
  ◌≤◌, update, ==_refl, ℕ, suc, ◌≤◌, ◌<◌, Bool, true, false, bit_xor, if◌then◌else◌, ◌==◌, ltb, ◌≡◌,
  ◌≢◌, arith, ap, ◌∙◌,
}
use native.Mathlib.Nat.{zero-add}
use parity_backup.Bits.{xor_cancel, xor_comm}
use parity_backup.Slice.{SliceDisk, Slice, cancel_request}
use parity_backup.Parity.{par_len, fill_parity, clear_inputs, compute_parity}
use parity_backup.Parity.Column.{column, column_ext, column_split, column_last}
use parity_backup.Parity.Laws.{cleared, filled, pass_lem}

module _ (disks : ℕ) (cs : Slice) (no_space : Bool) (live : cs.gen_canceled ≡ false) where
  abbrev pub dw : ℕ
  dw = cs.disk2write

  abbrev pub pass_len : ℕ
  pass_len = par_len (suc disks) dw cs.disks

  -- The disks once the length of the written buffer is set.
  abbrev pub started : ℕ → SliceDisk
  started = update cs.disks dw (record (cs.disks dw) { datalen = pass_len })

  -- The disks after a call that finds data.
  compute_parity_disks :
      0 < pass_len
      → (compute_parity disks false no_space cs).1.disks
        ≡ clear_inputs (suc disks) dw pass_len (fill_parity (suc disks) dw pass_len started)
  unfolding compute_parity cancel_request
  compute_parity_disks some_data = ground arith

  written_disk :
      0 < pass_len
      → (compute_parity disks false no_space cs).1.disks dw
        ≡ filled (suc disks) dw pass_len started pass_len
  written_disk some_data =
      ap (λ (ds : ℕ → SliceDisk). ds dw) (compute_parity_disks some_data)
      ∙ pass_lem (suc disks) dw pass_len started dw
      ∙ rw (==_refl dw)

  pub written_len :
      0 < pass_len → ((compute_parity disks false no_space cs).1.disks dw).datalen ≡ pass_len
  written_len some_data =
      ap (λ (sd : SliceDisk). sd.datalen) (written_disk some_data) ∙ rw (==_refl dw)

  -- The written disk's buffer: the column below the length, and the old bytes above.
  pub written_byte :
      (k : ℕ)
      → 0 < pass_len
      → ((compute_parity disks false no_space cs).1.disks dw).data_buf k ≡ (
          if ltb k pass_len then column dw cs.disks k (suc disks) 0 0 else (cs.disks dw).data_buf k)
  written_byte k some_data =
      ap (λ (sd : SliceDisk). sd.data_buf k) (written_disk some_data)
      ∙ rw
          (column_ext dw started cs.disks k (suc disks) 0 0
            (λ j lt ne. let miss : (j == dw) ≡ false = ground arith in rw miss))
          (rw (==_refl dw))

  -- Every other disk's buffer is emptied.
  pub input_cleared :
      (i : ℕ)
      → 0 < pass_len
      → i ≤ disks
      → i ≢ dw
      → (compute_parity disks false no_space cs).1.disks i ≡ cleared pass_len (cs.disks i)
  input_cleared i some_data inside ne =
      let miss : (i == dw) ≡ false = ground arith in
      let below : ltb i (suc disks) ≡ true = ground arith in
      ap (λ (ds : ℕ → SliceDisk). ds i) (compute_parity_disks some_data)
      ∙ pass_lem (suc disks) dw pass_len started i
      ∙ rw (miss, below)

-- The parity of the other disks and the lost disk's place in it.
pub column_recovers :
    (disks d : ℕ) (ds es : ℕ → SliceDisk) (k : ℕ)
    → d < disks
    → ((i : ℕ) → i < disks → i ≢ d → (es i).data_buf k ≡ (ds i).data_buf k)
    → (es disks).data_buf k ≡ column disks ds k (suc disks) 0 0
    → column d es k (suc disks) 0 0 ≡ (ds d).data_buf k
column_recovers disks d ds es k lost same parity =
    let rest = column d ds k disks 0 0 in
    let byte = (ds d).data_buf k in
    let last_d : (disks == d) ≡ false = ground arith in
    let all : column disks ds k (suc disks) 0 0 ≡ column disks ds k disks 0 0 =
      column_last disks ds k disks 0 0 ∙ rw (zero-add disks, ==_refl disks) in
    let split : column disks ds k disks 0 0 ≡ bit_xor byte rest =
      column_split d disks ds k disks 0 (omega arith) (omega arith) (omega arith) in
    let others : column d es k disks 0 0 ≡ rest =
      column_ext d es ds k disks 0 0 (λ j lt ne. same j (omega arith) ne) in
    column_last d es k disks 0 0
    ∙ rw (zero-add disks, last_d, others, parity, all, split)
        (ap (bit_xor rest) (xor_comm byte rest) ∙ xor_cancel rest byte)
