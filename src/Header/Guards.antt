-- ===== src/Header/Guards.antt =====
-- writeHeader: what stops it.
use parity_backup.Base.{
  ℕ, ◌+◌, true, not, Bool-cases, Option, none, some, Option-cases, List, [], ◌∷◌, length, drop,
  eq_bytes, eq_bytes→≡, All, ◌==◌, ◌≡◌, ◌⊎◌, inl, inr, arith, refl, sym, ap, ◌∙◌, if_true, if_false,
}
use parity_backup.Base.Int.{pos}
use parity_backup.Slice.{Slice, cancel_gen}
use parity_backup.Text.{get_disk_index}
use parity_backup.Header.{
  header_write, HeaderRow, HeaderFault, bad_size, seek_failed, HeaderSystem, Writing, Step, going,
  stopped, waiting, hash_of, check_row, compare_info, with_fields, put_line, header_row,
  header_rows, HeaderResult, cancel_header, close_header, end_header, finish_rows, start_writing,
  write_header,
}
use parity_backup.Header.Sizes.{Ready}

compare_info-Ready :
    (sys : HeaderSystem) (cs : Slice) (row : HeaderRow) (info : Option (ℕ × List ℕ))
    → (fields : List ℕ × List ℕ)
    → sys.file_info (get_disk_index row.disk) (drop (length row.disk + 1) row.fpath) ≡ info
    → compare_info cs row info ≡ inr fields
    → Ready sys cs row
compare_info-Ready sys cs row none fields at h = absurd (ground arith)
compare_info-Ready sys cs row (some (real_size, ts)) fields at h =
    let same_size : real_size ≡ row.fsize = ground arith in
    let same_time : eq_bytes ts row.mtime ≡ true = ground arith in
    (
      rw (sym same_size, sym (eq_bytes→≡ ts row.mtime same_time)) at,
      elim (Bool-cases (row.fsize == 0)) [
        | inl empty ↦ inl (ground arith)
        | inr bytes ↦ elim (Option-cases (hash_of cs (get_disk_index row.disk) row.dseq)) [
          | inl missing ↦ absurd (ground arith)
          | inr (hash, found) ↦ inr (hash, found, ground arith)
        ]
      ],
    )

check_row-Ready :
    (sys : HeaderSystem) (cs : Slice) (row : HeaderRow) (fields : List ℕ × List ℕ)
    → check_row sys cs row ≡ inr fields
    → Ready sys cs row
unfolding check_row
check_row-Ready sys cs row fields h = compare_info-Ready sys cs row _ fields refl h

fields_of :
    (w w1 : Writing) (c : HeaderFault ⊎ (List ℕ × List ℕ))
    → with_fields w c ≡ inr w1
    → (fields : List ℕ × List ℕ) × (c ≡ inr fields)
fields_of w w1 (inl fault) h = absurd (ground arith)
fields_of w w1 (inr fields) h = (fields, refl)

header_row-Ready :
    (sys : HeaderSystem) (cs : Slice) (row : HeaderRow) (w w1 : Writing)
    → header_row sys header_write cs row w ≡ going w1
    → Ready sys cs row
unfolding header_row
header_row-Ready sys cs row w w1 h = after_check (check_row sys cs row) refl h
  where
    after_check :
        (c : HeaderFault ⊎ (List ℕ × List ℕ))
        → check_row sys cs row ≡ c
        → ◌≡◌ {A = Step}
            (elim (with_fields w c) [
              | inl fault ↦ stopped fault w
              | inr w2 ↦ put_line sys header_write row w2
            ])
            (going w1)
        → Ready sys cs row
    after_check (inl fault) e h = absurd (ground arith)
    after_check (inr fields) e h = check_row-Ready sys cs row fields e

header_rows-Ready :
    (sys : HeaderSystem) (cs : Slice) (rows : List HeaderRow) (w w1 : Writing)
    → header_rows sys header_write cs rows w ≡ going w1
    → All (Ready sys cs) rows
unfolding header_rows
header_rows-Ready sys cs [] w w1 h = tt
header_rows-Ready sys cs (row ∷ rows) w w1 h =
    after_row (header_row sys header_write cs row w) refl h (header_rows-Ready sys cs rows)
  where
    after_row :
        (step : Step)
        → header_row sys header_write cs row w ≡ step
        → ◌≡◌ {A = Step}
            (elim step [
              | waiting ↦ waiting
              | stopped fault w2 ↦ stopped fault w2
              | going w2 ↦ header_rows sys header_write cs rows w2
            ])
            (going w1)
        → ((w2 w3 : Writing)
            → header_rows sys header_write cs rows w2 ≡ going w3
            → All (Ready sys cs) rows)
        → Ready sys cs row × All (Ready sys cs) rows
    after_row waiting e h rest = absurd (ground arith)
    after_row (stopped fault w2) e h rest = absurd (ground arith)
    after_row (going w2) e h rest = (header_row-Ready sys cs row w w2 e, rest w2 w1 h)

-- The slice is as it was and the size of its header is returned, or the slice is canceled.
record Clean (cs : Slice) (r : HeaderResult) : Type 0 where
  fault : r.fault ≡ none
  rv : r.rv ≡ pos cs.header_size
  slice : r.slice ≡ cs

cancel_header-canceled :
    (sys : HeaderSystem) (fault : HeaderFault) (cs : Slice) (file : List ℕ)
    → (cancel_header sys fault cs file).slice.gen_canceled ≡ true
unfolding cancel_gen
cancel_header-canceled sys fault cs file = ground arith

end_header_outcome :
    (sys : HeaderSystem) (disks : ℕ) (cs : Slice) (step : Step) (r : HeaderResult)
    → end_header sys disks header_write cs step ≡ some r
    → ((w : Writing) × (step ≡ going w) × Clean cs r) ⊎ (r.slice.gen_canceled ≡ true)
unfolding close_header
end_header_outcome sys disks cs waiting r h = absurd (ground arith)
end_header_outcome sys disks cs (stopped fault w) r h = inr (
    ap (λ (o : Option HeaderResult). elim o [ none ↦ true | some q ↦ q.slice.gen_canceled ]) (sym h)
    ∙ cancel_header-canceled sys fault cs w.file)
end_header_outcome sys disks cs (going w) r h = elim (Bool-cases (w.hs == cs.header_size)) [
  | inl fits ↦
      let done : HeaderResult = record { rv = pos w.hs; slice = cs; file = w.file; fault = none } in
      let same : some r ≡ some done =
        sym h ∙ ap (λ (q : HeaderResult). some q) (if_true _ _ _ fits) in
      let size : w.hs ≡ cs.header_size = ground arith in
      inl (
        w,
        refl,
        record {
          fault = ap (λ (o : Option HeaderResult). elim o [ none ↦ none | some q ↦ q.fault ]) same;
          rv =
              ap (λ (o : Option HeaderResult). elim o [ none ↦ pos 0 | some q ↦ q.rv ]) same
              ∙ ap pos size;
          slice = ap (λ (o : Option HeaderResult). elim o [ none ↦ cs | some q ↦ q.slice ]) same;
        },
      )
  | inr other ↦
      let same : some r ≡ some (cancel_header sys bad_size cs w.file) =
        sym h ∙ ap (λ (q : HeaderResult). some q) (if_false _ _ _ other) in
      inr (
        ap (λ (o : Option HeaderResult). elim o [ none ↦ true | some q ↦ q.slice.gen_canceled ])
          same
        ∙ cancel_header-canceled sys bad_size cs w.file)
]

rows_went_on :
    (sys : HeaderSystem) (cs : Slice) (step : Step) (w : Writing)
    → finish_rows sys header_write cs step ≡ going w
    → (w1 : Writing) × (step ≡ going w1)
rows_went_on sys cs waiting w h = absurd (ground arith)
rows_went_on sys cs (stopped fault w1) w h = absurd (ground arith)
rows_went_on sys cs (going w1) w h = (w1, refl)

-- A header that is written again leaves its slice as it was and returns the size that was kept for it,
-- and then each of its files has the size and the time stamp it was planned with, and a hash of 16
-- digits unless it is empty; or the slice is canceled.
pub write_header-Ready :
    (sys : HeaderSystem) (disks : ℕ) (rows : List HeaderRow) (cs : Slice) (r : HeaderResult)
    → write_header sys disks header_write rows cs ≡ some r
    → ((r.fault ≡ none) × (r.rv ≡ pos cs.header_size) × (r.slice ≡ cs) × All (Ready sys cs) rows)
      ⊎ (r.slice.gen_canceled ≡ true)
unfolding write_header
write_header-Ready sys disks rows cs r h = elim (Bool-cases (not sys.seek_ok)) [
  | inl failed ↦
      let same : some r ≡ some (cancel_header sys seek_failed cs []) =
        sym h ∙ if_true _ _ _ failed in
      inr (
        ap (λ (o : Option HeaderResult). elim o [ none ↦ true | some q ↦ q.slice.gen_canceled ])
          same
        ∙ cancel_header-canceled sys seek_failed cs [])
  | inr moved ↦
      let step = header_rows sys header_write cs rows (start_writing cs) in
      let ended : end_header sys disks header_write cs (finish_rows sys header_write cs step)
          ≡ some r =
        sym (if_false _ _ _ moved) ∙ h in
      elim (end_header_outcome sys disks cs (finish_rows sys header_write cs step) r ended) [
        | inl (w, e, clean) ↦
            let (w1, e1) = rows_went_on sys cs step w e in
            inl (
              clean.fault,
              clean.rv,
              clean.slice,
              header_rows-Ready sys cs rows (start_writing cs) w1 e1,
            )
        | inr canceled ↦ inr canceled
      ]
]
