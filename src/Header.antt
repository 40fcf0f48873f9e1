-- ===== src/Header.antt =====
-- writeHeader of backup.cpp. The rows that its statement gives, with the answers of the system, are
-- arguments; what it writes goes to the position where the parity file's descriptor stands, which is
-- its start.

pub mod Lines
pub mod Eoh
pub mod Sizes
pub mod Written
pub mod Guards
use parity_backup.Base.{
  ℕ, zero, suc, ◌+◌, ◌-◌, ◌%◌, Bool, true, false, not, ◌&&◌, ◌||◌, Option, none, some, List, [],
  ◌∷◌, ◌++◌, length, drop, replicate, eq_bytes, if◌then◌else◌, ◌==◌, ltb, leb, ◌⊎◌, inl, inr,
}
use parity_backup.Base.Int.{ℤ, pos, negsuc}
use parity_backup.Slice.{SliceDisk, Slice, set_disk, get_parity_disk, cancel_gen}
use parity_backup.Slice.Hash.{find_hash4seq}
use parity_backup.Text.{get_disk_index}
use parity_backup.Text.Numbers.{pad_left, number_field, signed_field, text_field}
use parity_backup.Fd.{Answer, write_fd}

pub data HeaderMode : Type 0 where
  header_init header_write header_dump : HeaderMode

abbrev pub is_init : HeaderMode → Bool
is_init header_init = true
is_init header_write = false
is_init header_dump = false

abbrev pub is_write : HeaderMode → Bool
is_write header_init = false
is_write header_write = true
is_write header_dump = false

-- SLICE_ID_SIZE, FILE_SIZE_DIGITS, TIMESTAMP_SIZE and HASH_SIZE_DIGITS
abbrev pub slice_id_size : ℕ
slice_id_size = 28

abbrev pub file_size_digits : ℕ
file_size_digits = 16

abbrev pub timestamp_size : ℕ
timestamp_size = 20

abbrev pub hash_size_digits : ℕ
hash_size_digits = 16

-- HEADER_BUF_SIZE - 4096
abbrev pub flush_above : ℕ
flush_above = 28672

-- The columns that `selectAll` gives.
pub record HeaderRow : Type 0 where
  pub disk : List ℕ
  pub dseq : ℕ
  pub fsize : ℕ
  pub fpath : List ℕ
  pub mtime : List ℕ

-- What cancelGen is told.
pub data HeaderFault : Type 0 where
  seek_failed file_changed no_hash line_failed eoh_failed bad_size : HeaderFault

-- The system: whether lseek succeeds; fileInfo of a path on a disk, `none` for a negative result, else
-- the size and the time stamp; the answers to the calls of write, for the count of writeFD calls
-- before and the buffer; and the test of `errno` in cancelGen.
pub record HeaderSystem : Type 0 where
  pub seek_ok : Bool
  pub file_info : ℤ → List ℕ → Option (ℕ × List ℕ)
  pub answers : ℕ → List ℕ → List Answer
  pub no_space : Bool

-- The variables of writeHeader: `buf` is what the buffer holds, `file` what has been written, by
-- `calls` calls of writeFD. The buffer has no bound here: a line that does not fit in its
-- HEADER_BUF_SIZE bytes, which the source writes past its end, is outside the model.
pub record Writing : Type 0 where
  pub hs : ℕ
  pub buf : List ℕ
  pub ts : List ℕ
  pub hash : List ℕ
  pub file : List ℕ
  pub calls : ℕ

-- `waiting` while the system has not answered.
pub data Step : Type 0 where
  going : Writing → Step
  stopped : HeaderFault → Writing → Step
  waiting : Step

abbrev after_write : HeaderFault → Writing → Option (ℤ × List ℕ) → Step
after_write fault w none = waiting
after_write fault w (some (negsuc n, moved)) = stopped fault (record w { file = w.file ++ moved })
after_write fault w (some (pos n, moved)) =
    let w1 : Writing = record w { file = w.file ++ moved; buf = []; calls = w.calls + 1 } in
    if n == length w.buf then going w1 else stopped fault (record w { file = w.file ++ moved })

-- writeFD of the whole buffer.
unfoldable pub flush : HeaderSystem → HeaderFault → Writing → Step
flush sys fault w = after_write fault w (write_fd (sys.answers w.calls w.buf) (length w.buf) w.buf)

-- findHash4seq leaves the text empty when there is no entry.
abbrev pub hash_text : Option (List ℕ) → List ℕ
hash_text none = []
hash_text (some h) = h

abbrev pub hash_of : Slice → ℤ → ℕ → Option (List ℕ)
hash_of cs (pos disk_idx) seq = find_hash4seq disk_idx seq cs
hash_of cs (negsuc n) seq = none

abbrev pub compare_info : Slice → HeaderRow → Option (ℕ × List ℕ) → HeaderFault ⊎ (List ℕ × List ℕ)
compare_info cs row none = inl file_changed
compare_info cs row (some (real_size, ts)) =
    let hash = hash_text (hash_of cs (get_disk_index row.disk) row.dseq) in
    if not (real_size == row.fsize) || not (eq_bytes ts row.mtime)
    then inl file_changed
    else if row.fsize == 0
    then inr (ts, replicate hash_size_digits 48)
    else if length hash == hash_size_digits
    then inr (ts, hash)
    else inl no_hash

-- The time stamp and the hash of a file, if it is still as it was planned.
unfoldable pub check_row : HeaderSystem → Slice → HeaderRow → HeaderFault ⊎ (List ℕ × List ℕ)
check_row sys cs row =
    compare_info cs row
      (sys.file_info (get_disk_index row.disk) (drop (length row.disk + 1) row.fpath))

-- `%*ld %s\n` in a dump, and else `%*ld %*.*s %*s %s\n`.
unfoldable pub file_line : HeaderMode → HeaderRow → List ℕ → List ℕ → List ℕ
file_line header_dump row ts hash =
    number_field file_size_digits row.fsize ++ 32 ∷ (row.fpath ++ 10 ∷ [])
file_line header_init row ts hash =
    number_field file_size_digits row.fsize
    ++ 32
      ∷ (text_field timestamp_size ts
          ++ 32 ∷ (pad_left hash_size_digits 32 hash ++ 32 ∷ (row.fpath ++ 10 ∷ [])))
file_line header_write row ts hash =
    number_field file_size_digits row.fsize
    ++ 32
      ∷ (text_field timestamp_size ts
          ++ 32 ∷ (pad_left hash_size_digits 32 hash ++ 32 ∷ (row.fpath ++ 10 ∷ [])))

abbrev pub add_line : List ℕ → Writing → Writing
add_line line w = record w { hs = w.hs + length line; buf = w.buf ++ line }

-- The line of a file is added, and a buffer that is nearly full is written.
unfoldable pub put_line : HeaderSystem → HeaderMode → HeaderRow → Writing → Step
put_line sys mode row w =
    let w1 = add_line (file_line mode row w.ts w.hash) w in
    if ltb flush_above (length w1.buf) then flush sys line_failed w1 else going w1

abbrev pub with_fields : Writing → HeaderFault ⊎ (List ℕ × List ℕ) → HeaderFault ⊎ Writing
with_fields w (inl fault) = inl fault
with_fields w (inr (ts, hash)) = inr (record w { ts = ts; hash = hash })

unfoldable pub header_row : HeaderSystem → HeaderMode → Slice → HeaderRow → Writing → Step
header_row sys mode cs row w =
    elim (if is_write mode then with_fields w (check_row sys cs row) else inr w) [
      | inl fault ↦ stopped fault w
      | inr w1 ↦ put_line sys mode row w1
    ]

unfoldable pub header_rows : HeaderSystem → HeaderMode → Slice → List HeaderRow → Writing → Step
header_rows sys mode cs [] w = going w
header_rows sys mode cs (row ∷ rows) w = elim (header_row sys mode cs row w) [
  | waiting ↦ waiting
  | stopped fault w1 ↦ stopped fault w1
  | going w1 ↦ header_rows sys mode cs rows w1
]

-- The two lines of a header that are not a file's: `ParitySlice: %*.*s  fill: %3ld\n`, and the one that
-- ends it, without the blanks that align it.
unfoldable pub first_line : Slice → List ℕ
first_line cs =
    80
    ∷ 97
    ∷ 114
    ∷ 105
    ∷ 116
    ∷ 121
    ∷ 83
    ∷ 108
    ∷ 105
    ∷ 99
    ∷ 101
    ∷ 58
    ∷ 32
    ∷ (text_field slice_id_size cs.slice_id
        ++ 32 ∷ 32 ∷ 102 ∷ 105 ∷ 108 ∷ 108 ∷ 58 ∷ 32 ∷ (signed_field 3 cs.fill_factor ++ 10 ∷ []))

unfoldable pub eoh_line : HeaderMode → Slice → List ℕ
eoh_line mode cs =
    let sid = if is_init mode then replicate slice_id_size 83 else cs.slice_id in
    69
    ∷ 79
    ∷ 72
    ∷ 32
    ∷ (number_field (file_size_digits - 4) cs.slice_size
        ++ 32 ∷ (number_field 8 cs.files_count ++ 32 ∷ text_field slice_id_size sid))

-- `%*s\n` of the empty string: at least the new line, up to the next multiple of 8.
abbrev pub align_line : ℕ → List ℕ
align_line hs = pad_left (8 - hs % 8 - 1) 32 [] ++ 10 ∷ []

unfoldable pub put_eoh : HeaderSystem → HeaderMode → Slice → Writing → Step
put_eoh sys mode cs w =
    let w1 = add_line (eoh_line mode cs) w in
    let w2 = add_line (align_line w1.hs) w1 in
    if ltb 0 w.hs then flush sys eoh_failed w2 else going w

-- The return value, the slice, what the parity file got, and why it was canceled.
pub record HeaderResult : Type 0 where
  pub rv : ℤ
  pub slice : Slice
  pub file : List ℕ
  pub fault : Option HeaderFault

abbrev pub cancel_header : HeaderSystem → HeaderFault → Slice → List ℕ → HeaderResult
cancel_header sys fault cs file =
    let r = cancel_gen sys.no_space cs in
    record { rv = r.0; slice = r.1; file = file; fault = some fault }

unfoldable pub close_header : HeaderSystem → ℕ → HeaderMode → Slice → Writing → HeaderResult
close_header sys disks header_init cs w =
    let sd : SliceDisk = record (get_parity_disk disks cs) { file_offset = w.hs } in
    record {
      rv = pos w.hs;
      slice = set_disk (record cs { header_size = w.hs }) disks sd;
      file = w.file;
      fault = none;
    }
close_header sys disks header_write cs w =
    if w.hs == cs.header_size
    then record { rv = pos w.hs; slice = cs; file = w.file; fault = none }
    else cancel_header sys bad_size cs w.file
close_header sys disks header_dump cs w = record {
  rv = pos w.hs;
  slice = cs;
  file = w.file;
  fault = none;
}

abbrev pub end_header : HeaderSystem → ℕ → HeaderMode → Slice → Step → Option HeaderResult
end_header sys disks mode cs waiting = none
end_header sys disks mode cs (stopped fault w) = some (cancel_header sys fault cs w.file)
end_header sys disks mode cs (going w) = some (close_header sys disks mode cs w)

abbrev pub finish_rows : HeaderSystem → HeaderMode → Slice → Step → Step
finish_rows sys mode cs waiting = waiting
finish_rows sys mode cs (stopped fault w) = stopped fault w
finish_rows sys mode cs (going w) = put_eoh sys mode cs w

abbrev pub start_writing : Slice → Writing
start_writing cs = record {
  hs = length (first_line cs);
  buf = first_line cs;
  ts = replicate timestamp_size 84;
  hash = replicate hash_size_digits 72;
  file = [];
  calls = 0;
}

unfoldable pub write_header :
    HeaderSystem → ℕ → HeaderMode → List HeaderRow → Slice → Option HeaderResult
write_header sys disks mode rows cs =
    let all = finish_rows sys mode cs (header_rows sys mode cs rows (start_writing cs)) in
    if is_write mode && not sys.seek_ok
    then some (cancel_header sys seek_failed cs [])
    else end_header sys disks mode cs all
