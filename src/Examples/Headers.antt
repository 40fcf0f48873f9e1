-- ===== src/Examples/Headers.antt =====
-- The header of a slice with two files.
use parity_backup.Base.{
  ℕ, zero, suc, ◌-◌, ◌%◌, ◌≤◌, true, false, Option, none, some, List, [], ◌∷◌, ◌++◌, length,
  replicate, All, if◌then◌else◌, ◌==◌, ◌≡◌, ◌⊎◌, inl, inr, arith, refl,
}
use parity_backup.Base.Int.{ℤ, pos}
use parity_backup.Slice.{Slice, get_parity_disk}
use parity_backup.Plan.Loop.{empty_slice}
use parity_backup.Fd.{Answer, moved, Legal, moves, move_bytes}
use parity_backup.Slice.Hash.{find_hash4seq}
use parity_backup.Text.{get_disk_index, occurs}
use parity_backup.Text.Numbers.{digits, digits_on}
use parity_backup.Header.{
  header_init, header_write, HeaderRow, HeaderSystem, HeaderResult, write_header, header_rows,
  header_row, put_line, first_line, file_line, put_eoh, flush, eoh_line, align_line, close_header,
  check_row,
}
use parity_backup.Header.Eoh.{decode_eoh_line-eoh_line}
use parity_backup.Header.Lines.{
  blanks, decode_eoh_line, decode_header_line, decode_header_line-file_line,
}
use parity_backup.Header.Sizes.{Writable, Ready}
use parity_backup.Header.Written.{write_header-init, write_header-SameHead}
use parity_backup.Header.Guards.{write_header-Ready}

-- One byte at each call.
abbrev bytewise : List ℕ → List Answer
bytewise buf = replicate (length buf) (moved 1)

bytewise-Legal : (buf : List ℕ) → Legal (bytewise buf) (length buf) buf
bytewise-Legal [] = tt
bytewise-Legal (c ∷ buf) =
    let e : suc (length buf) - 1 ≡ length buf = omega arith in
    (omega arith, omega arith, rw e (bytewise-Legal buf))

bytewise_enough : (buf : List ℕ) → length buf ≤ moves (bytewise buf)
bytewise_enough [] = omega arith
bytewise_enough (c ∷ buf) = omega (arith, bytewise_enough buf)

-- D1/a, of 3 bytes, and D1/b, which is empty.
abbrev stamp : List ℕ
stamp = replicate 20 49

abbrev row_of : ℕ → ℕ → ℕ → HeaderRow
row_of name seq size = record {
  disk = 68 ∷ 49 ∷ [];
  dseq = seq;
  fsize = size;
  fpath = 68 ∷ 49 ∷ 47 ∷ name ∷ [];
  mtime = stamp;
}

abbrev two_rows : List HeaderRow
two_rows = row_of 97 1 3 ∷ row_of 98 2 0 ∷ []

abbrev info_of : ℤ → List ℕ → Option (ℕ × List ℕ)
info_of disk_idx [] = none
info_of disk_idx (c ∷ path) = some (if c == 97 then 3 else 0, stamp)

abbrev system : HeaderSystem
system = record {
  seek_ok = true;
  file_info = info_of;
  answers = λ k buf. bytewise buf;
  no_space = false;
}

writable : Writable system
writable k buf = (bytewise-Legal buf, bytewise_enough buf)

abbrev two_files : Slice
two_files = record empty_slice {
  slice_size = 3;
  files_count = 2;
  hash_array = λ i. record { dseq = 1; disk = 0; hash = replicate 16 65 };
  hash_size = 2;
  hash_count = 1;
}

header_init_example :
    (r : HeaderResult) × (write_header system 1 header_init two_rows two_files ≡ some r)
    × (r.fault ≡ none)
    × (r.rv ≡ pos r.slice.header_size)
    × ((get_parity_disk 1 r.slice).file_offset ≡ r.slice.header_size)
    × (length r.file ≡ r.slice.header_size)
    × (r.slice.header_size % 8 ≡ 0)
    × (r.slice.gen_canceled ≡ false)
header_init_example = write_header-init system 1 two_rows two_files writable

abbrev initiated : HeaderResult
initiated = elim (write_header system 1 header_init two_rows two_files) [
  | none ↦ record { rv = pos 0; slice = two_files; file = []; fault = none }
  | some r ↦ r
]

unchanged_rows : All (Ready system initiated.slice) two_rows
unfolding write_header header_rows header_row put_line first_line digits digits_on file_line put_eoh
    flush move_bytes eoh_line close_header find_hash4seq get_disk_index check_row
unchanged_rows = ((refl, inr (replicate 16 65, refl, refl)), ((refl, inl refl), tt))

header_again_example :
    (r : HeaderResult) × (write_header system 1 header_write two_rows initiated.slice ≡ some r)
    × (r.fault ≡ none)
    × (r.rv ≡ initiated.rv)
    × (length r.file ≡ length initiated.file)
    × (r.slice ≡ initiated.slice)
unfolding write_header header_rows header_row put_line first_line digits digits_on file_line put_eoh
    flush move_bytes eoh_line close_header find_hash4seq get_disk_index check_row
header_again_example =
    write_header-SameHead system system 1 two_rows two_files initiated.slice initiated writable
      writable refl refl (refl, refl, refl, refl) refl unchanged_rows

abbrev again : HeaderResult
again = elim (write_header system 1 header_write two_rows initiated.slice) [
  | none ↦ record { rv = pos 0; slice = two_files; file = []; fault = none }
  | some r ↦ r
]

header_guards_example :
    ((again.fault ≡ none)
      × (again.rv ≡ pos initiated.slice.header_size)
      × (again.slice ≡ initiated.slice)
      × All (Ready system initiated.slice) two_rows)
    ⊎ (again.slice.gen_canceled ≡ true)
unfolding write_header header_rows header_row put_line first_line digits digits_on file_line put_eoh
    flush move_bytes eoh_line close_header find_hash4seq get_disk_index check_row
header_guards_example = write_header-Ready system 1 two_rows initiated.slice again refl

plain_repeat :
    (n c : ℕ) → occurs c blanks ≡ false → All (λ d. occurs d blanks ≡ false) (replicate n c)
plain_repeat zero c h = tt
plain_repeat (suc n) c h = (h, plain_repeat n c h)

decode_example :
    decode_header_line (file_line header_write (row_of 97 1 3) stamp (replicate 16 65)) 4
    ≡ digits 10 3 ∷ stamp ∷ replicate 16 65 ∷ (row_of 97 1 3).fpath ∷ []
decode_example =
    decode_header_line-file_line (row_of 97 1 3) stamp (replicate 16 65) refl refl
      (omega arith, plain_repeat 20 49 refl) (omega arith, plain_repeat 16 65 refl) (omega arith)

abbrev with_id : Slice
with_id = record two_files { slice_id = replicate 28 115 }

eoh_example :
    decode_eoh_line (eoh_line header_write with_id ++ align_line 61)
    ≡ some (pos 3, pos 2, replicate 28 115)
eoh_example =
    decode_eoh_line-eoh_line with_id 61 refl (omega arith, plain_repeat 28 115 refl) (omega arith)
      (omega arith)
