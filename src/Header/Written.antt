-- ===== src/Header/Written.antt =====
-- writeHeader as it is called: for a header that is initiated and for one that is written again.
use parity_backup.Base.{
  ℕ, ◌+◌, ◌%◌, true, false, not, Option, none, some, List, [], ◌∷◌, length, All, ◌==◌, ◌≡◌, arith,
  refl, sym, ap, ◌∙◌, ==_refl, if_true, if_false,
}
use parity_backup.Base.Int.{pos}
use parity_backup.Slice.{Slice, get_parity_disk}
use parity_backup.Header.{
  header_init, header_write, HeaderRow, HeaderSystem, first_line, HeaderResult, close_header,
  end_header, write_header,
}
use parity_backup.Header.Sizes.{
  Writable, RowGrows, init-RowGrows, write-RowGrows, Ready, body-Whole, rows_length, eoh_length,
  header_length, aligned_mod,
}

init-All :
    (sys : HeaderSystem) (cs : Slice) (rows : List HeaderRow)
    → Writable sys
    → All (RowGrows sys header_init cs) rows
init-All sys cs [] h = tt
init-All sys cs (row ∷ rows) h = (init-RowGrows sys cs row h, init-All sys cs rows h)

write-All :
    (sys : HeaderSystem) (cs : Slice) (rows : List HeaderRow)
    → Writable sys
    → All (Ready sys cs) rows
    → All (RowGrows sys header_write cs) rows
write-All sys cs [] h ready = tt
write-All sys cs (row ∷ rows) h ready =
    (write-RowGrows sys cs row h ready.0, write-All sys cs rows h ready.1)

-- If no call of write fails, a header that is initiated is written whole: its size, which is returned
-- and noted in the slice and as the offset of the parity file, is a multiple of 8 and the count of
-- the bytes written, and nothing cancels the slice.
pub write_header-init :
    (sys : HeaderSystem) (disks : ℕ) (rows : List HeaderRow) (cs : Slice)
    → Writable sys
    → (r : HeaderResult) × (write_header sys disks header_init rows cs ≡ some r)
      × (r.fault ≡ none)
      × (r.rv ≡ pos r.slice.header_size)
      × ((get_parity_disk disks r.slice).file_offset ≡ r.slice.header_size)
      × (length r.file ≡ r.slice.header_size)
      × (r.slice.header_size % 8 ≡ 0)
      × (r.slice.gen_canceled ≡ cs.gen_canceled)
unfolding write_header close_header
write_header-init sys disks rows cs h =
    let whole = body-Whole sys header_init cs rows h (init-All sys cs rows h) in
    let w = whole.next in
    let size = whole.size in
    let file = whole.file in
    let even = aligned_mod (length (first_line cs) + rows_length rows + eoh_length cs) in
    let here : (disks == disks) ≡ true = ==_refl disks in
    (
      close_header sys disks header_init cs w,
      ap (end_header sys disks header_init cs) whole.same,
      refl,
      refl,
      rw here refl,
      omega arith,
      omega arith,
      refl,
    )

-- What the header says of the slice.
abbrev pub SameHead : Slice → Slice → Type 0
SameHead cs cs0 =
    (cs.slice_id ≡ cs0.slice_id)
    × (cs.fill_factor ≡ cs0.fill_factor)
    × (cs.slice_size ≡ cs0.slice_size)
    × (cs.files_count ≡ cs0.files_count)

SameHead-length :
    (rows : List HeaderRow) (cs cs0 : Slice)
    → SameHead cs cs0
    → header_length rows cs ≡ header_length rows cs0
unfolding first_line
SameHead-length rows cs cs0 (sid, fill, size, files) = rw (sid, fill, size, files) refl

init_result :
    (sys : HeaderSystem) (disks : ℕ) (rows : List HeaderRow) (cs : Slice) (r : HeaderResult)
    → Writable sys
    → write_header sys disks header_init rows cs ≡ some r
    → (r.slice.header_size ≡ header_length rows cs)
      × (r.rv ≡ pos (header_length rows cs))
      × (length r.file ≡ header_length rows cs)
unfolding write_header close_header
init_result sys disks rows cs r h e =
    let whole = body-Whole sys header_init cs rows h (init-All sys cs rows h) in
    let same : some r ≡ some (close_header sys disks header_init cs whole.next) =
      sym e ∙ ap (end_header sys disks header_init cs) whole.same in
    (
      ap (λ (o : Option HeaderResult). elim o [ none ↦ 0 | some q ↦ q.slice.header_size ]) same
          ∙ whole.size,
      ap (λ (o : Option HeaderResult). elim o [ none ↦ pos 0 | some q ↦ q.rv ]) same
          ∙ ap pos whole.size,
      ap (λ (o : Option HeaderResult). elim o [ none ↦ 0 | some q ↦ length q.file ]) same
          ∙ whole.file,
    )

-- If a header has been initiated, and the slice still has that size of its header, the same id, fill
-- factor, size and count of files, then the header that is written again, when each file is as it
-- was planned and has its hash and no call of the system fails, has the same size: it fills exactly
-- the bytes that were kept for it, and nothing cancels the slice.
pub write_header-SameHead :
    (sys0 sys : HeaderSystem) (disks : ℕ) (rows : List HeaderRow) (cs0 cs : Slice)
    → (r0 : HeaderResult) → Writable sys0
    → Writable sys
    → sys.seek_ok ≡ true
    → write_header sys0 disks header_init rows cs0 ≡ some r0
    → SameHead cs cs0
    → cs.header_size ≡ r0.slice.header_size
    → All (Ready sys cs) rows
    → (r : HeaderResult) × (write_header sys disks header_write rows cs ≡ some r)
      × (r.fault ≡ none)
      × (r.rv ≡ r0.rv)
      × (length r.file ≡ length r0.file)
      × (r.slice ≡ cs)
unfolding write_header close_header
write_header-SameHead sys0 sys disks rows cs0 cs r0 h0 h seek e same kept ready =
    let (size0, rv0, file0) = init_result sys0 disks rows cs0 r0 h0 e in
    let whole = body-Whole sys header_write cs rows h (write-All sys cs rows h ready) in
    let w = whole.next in
    let len = SameHead-length rows cs cs0 same in
    let size = whole.size in
    let file = whole.file in
    let allowed : not sys.seek_ok ≡ false = ground arith in
    let fits : (w.hs == cs.header_size) ≡ true = ground arith in
    (
      record { rv = pos w.hs; slice = cs; file = w.file; fault = none },
      if_false _ _ _ allowed
          ∙ ap (end_header sys disks header_write cs) whole.same
          ∙ ap (λ (r : HeaderResult). some r) (if_true _ _ _ fits),
      refl,
      ap pos (size ∙ len) ∙ sym rv0,
      file ∙ len ∙ sym file0,
      refl,
    )
