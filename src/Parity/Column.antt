-- ===== src/Parity/Column.antt =====
-- The exclusive or of a column of bytes, as a sum that can be regrouped.
use parity_backup.Base.{
  false, ℕ, zero, suc, ◌+◌, ◌≤◌, ◌<◌, bit_xor, count_loop, if◌then◌else◌, ◌==◌, ◌≡◌, ◌≢◌, ◌⊎◌,
  arith, ap, ◌∙◌, sym, refl, Bool-cases, inl, inr, ==_iff,
}
use mathlib.Core.Path.{ap₂}
use parity_backup.Bits.{xor_assoc, xor-zero, zero-xor, xor_left_comm}
use parity_backup.Slice.{SliceDisk}

-- The loop of computeParity over the `n` disks from `i` on, at column `k`.
abbrev pub column : ℕ → (ℕ → SliceDisk) → ℕ → ℕ → ℕ → ℕ → ℕ
column dw ds k n i acc =
    count_loop n i (λ j byte. if j == dw then byte else bit_xor byte ((ds j).data_buf k)) acc

pub column_acc :
    (dw : ℕ) (ds : ℕ → SliceDisk) (k n i acc : ℕ)
    → column dw ds k n i acc ≡ bit_xor acc (column dw ds k n i 0)
column_acc dw ds k zero i acc = sym (xor-zero acc)
column_acc dw ds k (suc n) i acc = elim (Bool-cases (i == dw)) [
  | inl hit ↦ rw hit (column_acc dw ds k n (i + 1) acc)
  | inr miss ↦
      let b = (ds i).data_buf k in
      rw miss (
        column_acc dw ds k n (i + 1) (bit_xor acc b)
        ∙ xor_assoc acc b (column dw ds k n (i + 1) 0)
        ∙ ap (bit_xor acc) (
            ap (λ x. bit_xor x (column dw ds k n (i + 1) 0)) (sym (zero-xor b))
            ∙ sym (column_acc dw ds k n (i + 1) (bit_xor 0 b))))
]

-- Only the buffers that are read matter.
pub column_ext :
    (dw : ℕ) (ds es : ℕ → SliceDisk) (k n i acc : ℕ)
    → ((j : ℕ) → j < i + n → j ≢ dw → (ds j).data_buf k ≡ (es j).data_buf k)
    → column dw ds k n i acc ≡ column dw es k n i acc
column_ext dw ds es k zero i acc h = refl
column_ext dw ds es k (suc n) i acc h = elim (Bool-cases (i == dw)) [
  | inl hit ↦ rw hit (column_ext dw ds es k n (i + 1) acc (λ j lt. h j (omega arith)))
  | inr miss ↦
      let same : (ds i).data_buf k ≡ (es i).data_buf k = h i (omega arith) (ground arith) in
      rw (miss, same)
        (column_ext dw ds es k n (i + 1) (bit_xor acc ((es i).data_buf k))
          (λ j lt. h j (omega arith)))
]

abbrev pub Outside : ℕ → ℕ → ℕ → Type 0
Outside d n i = (d < i) ⊎ (i + n ≤ d)

column-Outside :
    (d e : ℕ) (ds : ℕ → SliceDisk) (k n i acc : ℕ)
    → Outside d n i
    → Outside e n i
    → column d ds k n i acc ≡ column e ds k n i acc
column-Outside d e ds k zero i acc p q = refl
column-Outside d e ds k (suc n) i acc p q =
    let no_d : (i == d) ≡ false = ground arith in
    let no_e : (i == e) ≡ false = ground arith in
    rw (no_d, no_e)
      (column-Outside d e ds k n (i + 1) (bit_xor acc ((ds i).data_buf k)) (omega arith)
        (omega arith))

-- A column over all disks is the byte of one disk with the column over the others.
pub column_split :
    (d e : ℕ) (ds : ℕ → SliceDisk) (k n i : ℕ)
    → i ≤ d
    → d < i + n
    → Outside e n i
    → column e ds k n i 0 ≡ bit_xor ((ds d).data_buf k) (column d ds k n i 0)
column_split d e ds k zero i lo hi out = absurd (omega arith)
column_split d e ds k (suc n) i lo hi out =
    let no_e : (i == e) ≡ false = ground arith in
    let bi = (ds i).data_buf k in
    let bd = (ds d).data_buf k in
    elim (Bool-cases (i == d)) [
      | inl hit ↦
          let i_is_d : i ≡ d = (==_iff i d).0 hit in
          rw (no_e, hit)
            (column_acc e ds k n (i + 1) (bit_xor 0 bi)
              ∙ ap₂ bit_xor (zero-xor bi ∙ ap (λ j. (ds j).data_buf k) i_is_d)
                  (column-Outside e d ds k n (i + 1) 0 (omega arith) (omega arith)))
      | inr miss ↦
          let apart : i ≢ d = ground arith in
          rw (no_e, miss)
            (column_acc e ds k n (i + 1) (bit_xor 0 bi)
              ∙ ap (bit_xor (bit_xor 0 bi))
                  (column_split d e ds k n (i + 1) (omega arith) (omega arith) (omega arith))
              ∙ xor_left_comm (bit_xor 0 bi) bd (column d ds k n (i + 1) 0)
              ∙ ap (bit_xor bd) (sym (column_acc d ds k n (i + 1) (bit_xor 0 bi))))
    ]

-- The last disk of a column.
pub column_last :
    (dw : ℕ) (ds : ℕ → SliceDisk) (k n i acc : ℕ)
    → column dw ds k (suc n) i acc ≡ (
        if i + n == dw
        then column dw ds k n i acc
        else bit_xor (column dw ds k n i acc) ((ds (i + n)).data_buf k))
column_last dw ds k zero i acc = let e : i + 0 ≡ i = omega arith in rw e
column_last dw ds k (suc n) i acc =
    let e : i + suc n ≡ i + 1 + n = omega arith in
    rw e (column_last dw ds k n (i + 1) (if i == dw then acc else bit_xor acc ((ds i).data_buf k)))
