-- ===== src/Parity/Laws.antt =====
-- What computeParity leaves in the buffers, and that it recovers a lost disk.
use parity_backup.Base.{
  ℕ, ◌+◌, ◌≤◌, ◌<◌, count_loop_upto, update, if◌then◌else◌, ◌==◌, ltb, ◌≡◌, ◌≢◌, arith, ap, ◌∙◌,
  sym, Bool-cases, inl, inr, ==_iff, ==_refl,
}
use parity_backup.Slice.{SliceDisk}
use parity_backup.Parity.{par_len, parity_byte, fill_parity, clear_inputs}
use parity_backup.Parity.Column.{column, column_ext}

-- An input disk after the pass.
abbrev pub cleared : ℕ → SliceDisk → SliceDisk
cleared len sd = record sd { datalen = 0; data_buf = λ k. if ltb k len then 0 else sd.data_buf k }

module _ (n dw len : ℕ) (ds : ℕ → SliceDisk) where
  clear_inputs_lem :
      (i : ℕ)
      → clear_inputs n dw len ds i
        ≡ (if i == dw then ds i else if ltb i n then cleared len (ds i) else ds i)
  unfolding clear_inputs
  clear_inputs_lem i =
      count_loop_upto
        (λ j (es : ℕ → SliceDisk).
          (i : ℕ) → es i ≡ (if i == dw then ds i else if ltb i j then cleared len (ds i) else ds i))
        (λ i es.
          if i == dw
          then es
          else update es i (record (es i) {
            datalen = 0;
            data_buf = λ k. if ltb k len then 0 else (es i).data_buf k;
          }))
        n ds (λ j es hi h i. ground (arith, h i, h j)) (λ i. ground arith) i

  -- The written disk after `j` columns.
  abbrev pub filled : ℕ → SliceDisk
  filled j = record (ds dw) {
    data_buf = λ k. if ltb k j then column dw ds k n 0 0 else (ds dw).data_buf k;
  }

  filled_zero : filled 0 ≡ ds dw
  filled_zero = λ i. record (ds dw) { data_buf = λ k. untouched k i }
    where
      untouched :
          (k : ℕ)
          → (if ltb k 0 then column dw ds k n 0 0 else (ds dw).data_buf k) ≡ (ds dw).data_buf k
      untouched k = ground arith

  filled_suc :
      (j : ℕ) (es : ℕ → SliceDisk)
      → ((i : ℕ) → es i ≡ (if i == dw then filled j else ds i))
      → record (es dw) { data_buf = update (es dw).data_buf j (column dw es j n 0 0) }
        ≡ filled (j + 1)
  filled_suc j es h = rw written (λ i. record (ds dw) { data_buf = λ k. grows k i })
    where
      written : es dw ≡ filled j
      written = h dw ∙ (rw (==_refl dw))

      other : (i : ℕ) → i ≢ dw → es i ≡ ds i
      other i ne = ground (arith, h i)

      same_column : column dw es j n 0 0 ≡ column dw ds j n 0 0
      same_column =
          column_ext dw es ds j n 0 0
            (λ i lt ne. ap (λ (sd : SliceDisk). sd.data_buf j) (other i ne))

      grows :
          (k : ℕ)
          → update (filled j).data_buf j (column dw es j n 0 0) k ≡ (filled (j + 1)).data_buf k
      grows k = ground (arith, same_column)

  fill_parity_lem : (i : ℕ) → fill_parity n dw len ds i ≡ (if i == dw then filled len else ds i)
  unfolding fill_parity
  fill_parity_lem i =
      count_loop_upto
        (λ j (es : ℕ → SliceDisk). (i : ℕ) → es i ≡ (if i == dw then filled j else ds i))
        (λ k es.
          update es dw
            (record (es dw) { data_buf = update (es dw).data_buf k (parity_byte n dw es k) }))
        len ds
        (λ j es hi h i. elim (Bool-cases (i == dw)) [
          | inl hit ↦ rw hit (filled_suc j es h)
          | inr miss ↦ rw miss (ground (arith, h i))
        ])
        (λ i. elim (Bool-cases (i == dw)) [
          | inl hit ↦ rw hit (ap ds ((==_iff i dw).0 hit) ∙ sym filled_zero)
          | inr miss ↦ rw miss
        ])
        i

-- One pass over the buffers: what each disk holds afterwards.
pub pass_lem :
    (n dw len : ℕ) (ds : ℕ → SliceDisk) (i : ℕ)
    → clear_inputs n dw len (fill_parity n dw len ds) i
      ≡ (if i == dw then filled n dw len ds len else if ltb i n then cleared len (ds i) else ds i)
pass_lem n dw len ds i = elim (Bool-cases (i == dw)) [
  | inl hit ↦
      ground (
        arith,
        clear_inputs_lem n dw len (fill_parity n dw len ds) i,
        fill_parity_lem n dw len ds i,
      )
  | inr miss ↦
      let same : fill_parity n dw len ds i ≡ ds i = ground (arith, fill_parity_lem n dw len ds i) in
      clear_inputs_lem n dw len (fill_parity n dw len ds) i ∙ rw (miss, same)
]

-- `par_len` bounds the length of every input.
pub datalen-le-par_len :
    (n dw : ℕ) (ds : ℕ → SliceDisk) (i : ℕ) → i < n → i ≢ dw → (ds i).datalen ≤ par_len n dw ds
unfolding par_len
datalen-le-par_len n dw ds i lt ne =
    count_loop_upto (λ j (len : ℕ). (i : ℕ) → i < j → i ≢ dw → (ds i).datalen ≤ len)
      (λ i len. if i == dw then len else if ltb len (ds i).datalen then (ds i).datalen else len) n 0
      (λ j len hi h i lt ne. ground (arith, h i)) (λ i lt ne. absurd (omega arith)) i lt ne
