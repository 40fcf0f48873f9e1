-- ===== src/Header/Sizes.antt =====
-- writeHeader: the size of the header when it is initiated and when it is written again.
use parity_backup.Base.{
  ℕ, ◌+◌, ◌-◌, ◌%◌, ◌≤◌, ◌<◌, true, Bool-cases, some, List, [], ◌∷◌, ◌++◌, length, replicate, All,
  ltb, ◌≡◌, ◌⊎◌, ◌==◌, inl, inr, arith, refl, sym, ap, ◌∙◌, length-append, take_all, eq_bytes_refl,
  ==_refl, if◌then◌else◌, if_split, if_true, drop,
}
use parity_backup.Slice.{Slice}
use parity_backup.Text.{get_disk_index}
use parity_backup.Text.Numbers.{
  pad_left, number_field, text_field, length-pad_left, length-text_field,
}
use parity_backup.Fd.{Legal, moves, write_fd_lem}
use parity_backup.Header.{
  HeaderMode, header_init, header_write, is_init, HeaderRow, HeaderFault, line_failed, eoh_failed,
  HeaderSystem, Writing, Step, going, stopped, waiting, flush, hash_of, check_row, file_line,
  put_line, header_row, header_rows, add_line, first_line, eoh_line, align_line, put_eoh,
  finish_rows, start_writing, slice_id_size, file_size_digits, timestamp_size, hash_size_digits,
  flush_above,
}

-- No call of write fails, and as many are answered as there are bytes to write.
abbrev pub Writable : HeaderSystem → Type 0
Writable sys =
    (k : ℕ) (buf : List ℕ)
    → Legal (sys.answers k buf) (length buf) buf × (length buf ≤ moves (sys.answers k buf))

-- All that was counted has been written or is in the buffer, and the hash has its width.
pub record Wrote (w : Writing) : Type 0 where
  pub counts : length w.file + length w.buf ≡ w.hs
  pub width : length w.hash ≡ 16

-- The step goes on with `n` bytes more.
pub record Grew (n : ℕ) (w : Writing) (step : Step) : Type 0 where
  pub next : Writing
  pub same : step ≡ going next
  pub size : next.hs ≡ w.hs + n
  pub wrote : Wrote next

pub flush-going :
    (sys : HeaderSystem) (fault : HeaderFault) (w : Writing)
    → Writable sys
    → flush sys fault w ≡ going (record w { file = w.file ++ w.buf; buf = []; calls = w.calls + 1 })
unfolding flush
flush-going sys fault w h =
    let (legal, enough) = h w.calls w.buf in
    let done =
      write_fd_lem (sys.answers w.calls w.buf) (length w.buf) w.buf legal enough (omega arith) in
    rw (done, take_all w.buf, ==_refl (length w.buf)) refl

-- Lines of a file, other than in a dump.
abbrev pub line_length : HeaderRow → ℕ
line_length row = length (number_field file_size_digits row.fsize) + (length row.fpath + 40)

abbrev pub rows_length : List HeaderRow → ℕ
rows_length [] = 0
rows_length (row ∷ rows) = line_length row + rows_length rows

length-full_line :
    (size ts hash path : List ℕ)
    → length hash ≡ 16
    → length (
        size
        ++ 32
          ∷ (text_field timestamp_size ts
              ++ 32 ∷ (pad_left hash_size_digits 32 hash ++ 32 ∷ (path ++ 10 ∷ []))))
      ≡ length size + (length path + 40)
length-full_line size ts hash path width =
    let end : List ℕ = path ++ 10 ∷ [] in
    let hash_on : List ℕ = pad_left hash_size_digits 32 hash ++ 32 ∷ end in
    let stamp_on : List ℕ = text_field timestamp_size ts ++ 32 ∷ hash_on in
    omega (
      arith,
      length-append size (32 ∷ stamp_on),
      length-append (text_field timestamp_size ts) (32 ∷ hash_on),
      length-append path (10 ∷ []),
      length-append (pad_left hash_size_digits 32 hash) (32 ∷ end),
      length-pad_left hash_size_digits 32 hash,
      length-text_field timestamp_size ts,
    )

put_line-Grew :
    (sys : HeaderSystem) (mode : HeaderMode) (row : HeaderRow) (n : ℕ) (w : Writing)
    → Writable sys
    → Wrote w
    → length (file_line mode row w.ts w.hash) ≡ n
    → Grew n w (put_line sys mode row w)
unfolding put_line
put_line-Grew sys mode row n w h wrote e =
    let line = file_line mode row w.ts w.hash in
    let w1 = add_line line w in
    let counts = wrote.counts in
    let width = wrote.width in
    let longer = length-append w.buf line in
    let moved = length-append w.file w1.buf in
    if_split (Grew n w) (ltb flush_above (length w1.buf)) (flush sys line_failed w1) (going w1)
      (λ full. record {
        next = record w1 { file = w1.file ++ w1.buf; buf = []; calls = w1.calls + 1 };
        same = flush-going sys line_failed w1 h;
        size = omega arith;
        wrote = record { counts = omega arith; width = width };
      })
      (λ room. record {
        next = w1;
        same = refl;
        size = omega arith;
        wrote = record { counts = omega arith; width = width };
      })

-- What a row adds in a mode, whatever was written before.
abbrev pub RowGrows : HeaderSystem → HeaderMode → Slice → HeaderRow → Type 0
RowGrows sys mode cs row =
    (w : Writing) → Wrote w → Grew (line_length row) w (header_row sys mode cs row w)

pub init-RowGrows :
    (sys : HeaderSystem) (cs : Slice) (row : HeaderRow)
    → Writable sys
    → RowGrows sys header_init cs row
unfolding header_row file_line
init-RowGrows sys cs row h w wrote =
    put_line-Grew sys header_init row (line_length row) w h wrote
      (length-full_line (number_field file_size_digits row.fsize) w.ts w.hash row.fpath wrote.width)

-- The file has the size and the time stamp of its row, and a hash unless it is empty.
abbrev pub Ready : HeaderSystem → Slice → HeaderRow → Type 0
Ready sys cs row =
    (sys.file_info (get_disk_index row.disk) (drop (length row.disk + 1) row.fpath)
      ≡ some (row.fsize, row.mtime))
    × ((row.fsize ≡ 0)
        ⊎ ((h : List ℕ) × (hash_of cs (get_disk_index row.disk) row.dseq ≡ some h)
            × (length h ≡ 16)))

Ready-fields :
    (sys : HeaderSystem) (cs : Slice) (row : HeaderRow)
    → Ready sys cs row
    → (hash : List ℕ) × (check_row sys cs row ≡ inr (row.mtime, hash)) × (length hash ≡ 16)
unfolding check_row
Ready-fields sys cs row (info, hashed) = elim (Bool-cases (row.fsize == 0)) [
  | inl empty ↦ (
    replicate hash_size_digits 48,
    rw (info, ==_refl row.fsize, eq_bytes_refl row.mtime, empty) refl,
    refl,
  )
  | inr bytes ↦ elim hashed [
    | inl e ↦ absurd (ground arith)
    | inr (h, found, width) ↦ (
      h,
      let wide : (length h == 16) ≡ true = ground arith in
          rw (info, found, ==_refl row.fsize, eq_bytes_refl row.mtime, bytes, wide) refl,
      width,
    )
  ]
]

pub write-RowGrows :
    (sys : HeaderSystem) (cs : Slice) (row : HeaderRow)
    → Writable sys
    → Ready sys cs row
    → RowGrows sys header_write cs row
unfolding header_row file_line
write-RowGrows sys cs row h ready w wrote =
    let (hash, fields, width) = Ready-fields sys cs row ready in
    let w1 : Writing = record w { ts = row.mtime; hash = hash } in
    let grew =
      put_line-Grew sys header_write row (line_length row) w1 h
        (record { counts = wrote.counts; width = width })
        (length-full_line (number_field file_size_digits row.fsize) w1.ts w1.hash row.fpath
          width) in
    rw (fields, header_row)
      (record { next = grew.next; same = grew.same; size = grew.size; wrote = grew.wrote })

header_rows-going :
    (sys : HeaderSystem) (mode : HeaderMode) (cs : Slice) (row : HeaderRow) (rows : List HeaderRow)
    → (w w1 : Writing) → header_row sys mode cs row w ≡ going w1
    → header_rows sys mode cs (row ∷ rows) w ≡ header_rows sys mode cs rows w1
unfolding header_rows
header_rows-going sys mode cs row rows w w1 e =
    ap
      (λ (step : Step). elim step [
        | waiting ↦ waiting
        | stopped fault w2 ↦ stopped fault w2
        | going w2 ↦ header_rows sys mode cs rows w2
      ])
      e

header_rows-Grew :
    (sys : HeaderSystem) (mode : HeaderMode) (cs : Slice) (rows : List HeaderRow) (w : Writing)
    → All (RowGrows sys mode cs) rows
    → Wrote w
    → Grew (rows_length rows) w (header_rows sys mode cs rows w)
unfolding header_rows
header_rows-Grew sys mode cs [] w h wrote = record {
  next = w;
  same = refl;
  size = omega arith;
  wrote = wrote;
}
header_rows-Grew sys mode cs (row ∷ rows) w h wrote =
    let first = h.0 w wrote in
    let rest = header_rows-Grew sys mode cs rows first.next h.1 first.wrote in
    let size = first.size in
    let size' = rest.size in
    record {
      next = rest.next;
      same = header_rows-going sys mode cs row rows w first.next first.same ∙ rest.same;
      size = omega arith;
      wrote = rest.wrote;
    }

-- The rest of the header.
abbrev pub eoh_length : Slice → ℕ
eoh_length cs =
    length (number_field (file_size_digits - 4) cs.slice_size)
    + (length (number_field 8 cs.files_count) + 34)

-- The next multiple of 8.
abbrev pub aligned : ℕ → ℕ
aligned n = n + (8 - n % 8)

abbrev pub header_length : List HeaderRow → Slice → ℕ
header_length rows cs = aligned (length (first_line cs) + rows_length rows + eoh_length cs)

length-eoh_line : (mode : HeaderMode) (cs : Slice) → length (eoh_line mode cs) ≡ eoh_length cs
unfolding eoh_line
length-eoh_line mode cs =
    let sid = if is_init mode then replicate slice_id_size 83 else cs.slice_id in
    let sid_on : List ℕ = text_field slice_id_size sid in
    let count_on : List ℕ = number_field 8 cs.files_count ++ 32 ∷ sid_on in
    omega (
      arith,
      length-append (number_field (file_size_digits - 4) cs.slice_size) (32 ∷ count_on),
      length-append (number_field 8 cs.files_count) (32 ∷ sid_on),
      length-text_field slice_id_size sid,
    )

length-align_line : (n : ℕ) → n + length (align_line n) ≡ aligned n
length-align_line n = omega (
  arith,
  length-append (pad_left (8 - n % 8 - 1) 32 []) (10 ∷ []),
  length-pad_left (8 - n % 8 - 1) 32 [],
)

pub aligned_mod : (n : ℕ) → aligned n % 8 ≡ 0
aligned_mod n = omega arith

-- All is written, and `n` bytes in all.
pub record Whole (n : ℕ) (step : Step) : Type 0 where
  pub next : Writing
  pub same : step ≡ going next
  pub size : next.hs ≡ n
  pub file : length next.file ≡ n

put_eoh-Whole :
    (sys : HeaderSystem) (mode : HeaderMode) (cs : Slice) (w : Writing)
    → Writable sys
    → Wrote w
    → 0 < w.hs
    → Whole (aligned (w.hs + eoh_length cs)) (put_eoh sys mode cs w)
unfolding put_eoh
put_eoh-Whole sys mode cs w h wrote some_bytes =
    let w1 = add_line (eoh_line mode cs) w in
    let w2 = add_line (align_line w1.hs) w1 in
    let line : ltb 0 w.hs ≡ true = ground arith in
    let counts = wrote.counts in
    let eoh = length-eoh_line mode cs in
    let end = length-align_line w1.hs in
    let size : w2.hs ≡ aligned (w.hs + eoh_length cs) = rw (sym eoh) end in
    let longer = length-append w.buf (eoh_line mode cs) in
    let longer' = length-append w1.buf (align_line w1.hs) in
    let moved = length-append w.file w2.buf in
    record {
      next = record w2 { file = w2.file ++ w2.buf; buf = []; calls = w2.calls + 1 };
      same = if_true _ _ _ line ∙ flush-going sys eoh_failed w2 h;
      size = size;
      file = omega arith;
    }

pub body-Whole :
    (sys : HeaderSystem) (mode : HeaderMode) (cs : Slice) (rows : List HeaderRow)
    → Writable sys
    → All (RowGrows sys mode cs) rows
    → Whole
        (header_length rows cs)
        (finish_rows sys mode cs (header_rows sys mode cs rows (start_writing cs)))
unfolding first_line
body-Whole sys mode cs rows h each =
    let grew =
      header_rows-Grew sys mode cs rows (start_writing cs) each
        (record { counts = omega arith; width = refl }) in
    let size = grew.size in
    let whole = put_eoh-Whole sys mode cs grew.next h grew.wrote (omega arith) in
    rw grew.same (rw (sym grew.size) whole)
