-- ===== src/Parity/Restore.antt =====
-- The properties of computeParity: recovery of a lost disk, and the zeros after what a buffer holds.
use mathlib.Core.Path.{subst}
use native.Mathlib.Omega.{arith}
use parity_backup.Base.{
  ℕ, suc, ◌≤◌, ◌<◌, true, false, if◌then◌else◌, ◌==◌, ltb, ◌≡◌, ◌≢◌, ◌∙◌, ap, Bool-cases, inl, inr,
  ==_iff,
}
use parity_backup.Slice.{SliceDisk, Slice}
use parity_backup.Parity.{par_len, compute_parity}
use parity_backup.Parity.Column.{column}
use parity_backup.Parity.Laws.{datalen-le-par_len}
use parity_backup.Parity.Recover.{written_byte, written_len, input_cleared, column_recovers}

-- The written disk's buffer, for a disk that is known by an equation.
written_byte_at :
    (disks : ℕ) (cs : Slice) (dw k : ℕ)
    → cs.gen_canceled ≡ false
    → cs.disk2write ≡ dw
    → 0 < par_len (suc disks) dw cs.disks
    → ((compute_parity disks false false cs).1.disks dw).data_buf k ≡ (
        if ltb k (par_len (suc disks) dw cs.disks)
        then column dw cs.disks k (suc disks) 0 0
        else (cs.disks dw).data_buf k)
written_byte_at disks cs dw k live e =
    subst
      (λ w.
        0 < par_len (suc disks) w cs.disks
        → ((compute_parity disks false false cs).1.disks w).data_buf k ≡ (
            if ltb k (par_len (suc disks) w cs.disks)
            then column w cs.disks k (suc disks) 0 0
            else (cs.disks w).data_buf k))
      e (written_byte disks cs false live k)

-- A sync slice `s` computes the parity buffer. A restore slice `r` that holds that parity and the
-- buffers of the surviving disks then computes, for the one disk `r.disk2write` that it writes, the
-- bytes which that disk had in `s`, over the whole length of the parity.
pub compute_parity-recovers :
    (disks : ℕ) (s r : Slice)
    → s.disk2write ≡ disks
    → s.gen_canceled ≡ false
    → r.disk2write < disks
    → r.gen_canceled ≡ false
    → ((i k : ℕ) → i < disks → i ≢ r.disk2write → (r.disks i).data_buf k ≡ (s.disks i).data_buf k)
    → ((k : ℕ)
        → (r.disks disks).data_buf k
          ≡ ((compute_parity disks false false s).1.disks disks).data_buf k)
    → (r.disks disks).datalen ≡ par_len (suc disks) disks s.disks
    → (k : ℕ) → k < par_len (suc disks) disks s.disks
    → ((compute_parity disks false false r).1.disks r.disk2write).data_buf k
      ≡ (s.disks r.disk2write).data_buf k
compute_parity-recovers disks s r at_parity s_live lost r_live same parity len k inside =
    let p = par_len (suc disks) disks s.disks in
    let covers : p ≤ par_len (suc disks) r.disk2write r.disks = omega (
      arith,
      len,
      datalen-le-par_len (suc disks) r.disk2write r.disks disks (omega arith) (omega arith),
    ) in
    let below : ltb k p ≡ true = ground arith in
    let below' : ltb k (par_len (suc disks) r.disk2write r.disks) ≡ true = ground arith in
    written_byte disks r false r_live k (omega arith)
    ∙ rw below' (
        column_recovers disks r.disk2write s.disks r.disks k lost (λ i lt ne. same i k lt ne)
          (parity k ∙ (written_byte_at disks s disks k s_live at_parity (omega arith) ∙ rw below)))

-- A buffer holds zeros from its length on.
abbrev pub ZeroPadded : SliceDisk → Type 0
ZeroPadded sd = (k : ℕ) → sd.datalen ≤ k → sd.data_buf k ≡ 0

-- If every buffer is zero from its length on, and the disk to write has sent out all of its own, then
-- a pass with data keeps every buffer so: the short buffers of the next pass count as zeros.
pub compute_parity-ZeroPadded :
    (disks : ℕ) (cs : Slice)
    → cs.gen_canceled ≡ false
    → cs.disk2write ≤ disks
    → (cs.disks cs.disk2write).datalen ≡ 0
    → ((i : ℕ) → i ≤ disks → ZeroPadded (cs.disks i))
    → 0 < par_len (suc disks) cs.disk2write cs.disks
    → (i : ℕ) → i ≤ disks
    → ZeroPadded ((compute_parity disks false false cs).1.disks i)
compute_parity-ZeroPadded disks cs live at_disk sent padded some_data i inside k above =
    elim (Bool-cases (i == cs.disk2write)) [
      | inl hit ↦ written_padded ((==_iff i cs.disk2write).0 hit) above
      | inr miss ↦
          let cleared_i = input_cleared disks cs false live i some_data inside (ground arith) in
          let old = padded i inside k in
          let len =
            datalen-le-par_len (suc disks) cs.disk2write cs.disks i (omega arith) (ground arith) in
          ap (λ (sd : SliceDisk). sd.data_buf k) cleared_i ∙ ground arith
    ]
  where
    written_padded :
        i ≡ cs.disk2write
        → ((compute_parity disks false false cs).1.disks i).datalen ≤ k
        → ((compute_parity disks false false cs).1.disks i).data_buf k ≡ 0
    written_padded e = rw e λ lo.
        let len = written_len disks cs false live some_data in
        let above' : ltb k (par_len (suc disks) cs.disk2write cs.disks) ≡ false = ground arith in
        written_byte disks cs false live k some_data
        ∙ rw above' (padded cs.disk2write at_disk k (omega arith))
