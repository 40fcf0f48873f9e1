-- ===== src/Plan/Insert.antt =====
-- insert2slice of planer.cpp.
use parity_backup.Base.{
  ℕ, ◌+◌, Bool, true, not, ◌&&◌, ◌||◌, Option, none, some, List, [], ◌∷◌, ◌++◌, update,
  if◌then◌else◌, ◌==◌, ltb, leb,
}
use parity_backup.Plan.{NewFile, Position, Config, Plan, fresh_slice_stat}

-- LONG_MAX, and 2 * GIGA
abbrev pub long_max : ℕ
long_max = 9223372036854775807

abbrev pub two_giga : ℕ
two_giga = 2147483648

abbrev pub between : ℕ → ℕ → ℕ → Bool
between lo hi n = leb lo n && leb n hi

-- The statement `sel`.
unfoldable pub select_between : ℕ → ℕ → List NewFile → List NewFile
select_between lo hi [] = []
select_between lo hi (f ∷ fs) =
    let rest = select_between lo hi fs in
    if not f.marked && between lo hi f.seq then f ∷ rest else rest

-- The statement `update`.
unfoldable pub mark_between : ℕ → ℕ → List NewFile → List NewFile
mark_between lo hi [] = []
mark_between lo hi (f ∷ fs) =
    (if not f.marked && between lo hi f.seq then record f { marked = true } else f)
    ∷ mark_between lo hi fs

-- The row of slpos for a file that starts at `soffset`.
abbrev pub position_of : List ℕ → ℕ → ℕ → NewFile → Position
position_of sid disk soffset f = record {
  sid = sid;
  disk = disk;
  dseq = f.seq;
  fsize = f.size;
  start = soffset;
  mtime = f.mtime;
  fpath = f.name;
  owner = f.owner;
}

-- What the loop over the rows adds: the positions, their count and bytes, and the last seq.
pub record Added : Type 0 where
  pub positions : List Position
  pub files : ℕ
  pub bytes : ℕ
  pub seq : ℕ

-- `rest` is the flag with the limit on the files, when all that is left is inserted. With no row at
-- all the last seq is left as it was.
unfoldable pub add_rows : Option ℕ → List ℕ → ℕ → ℕ → List NewFile → Added → Added
add_rows rest sid disk soffset [] a = a
add_rows rest sid disk soffset (f ∷ fs) a =
    let a1 : Added = record {
      positions = a.positions ++ position_of sid disk soffset f ∷ [];
      files = a.files + 1;
      bytes = a.bytes + f.size;
      seq = f.seq;
    } in
    let more = add_rows rest sid disk (soffset + f.size) fs a1 in
    elim rest [
      | none ↦ more
      | some max_files ↦ if ltb two_giga a1.bytes || ltb max_files a1.files then a1 else more
    ]

-- The result of the call and the new state; `none` when log_fatal ends the program. With no row
-- selected the source has not set the seq up to which it marks rows: the model has 0 there.
unfoldable pub insert2slice : Config → ℕ → ℕ → ℕ → ℕ → ℕ → Plan → Option (Bool × Plan)
insert2slice config disk_idx start_seq0 last_seq0 fcount fsum p =
    let rest = (start_seq0 == 0) && (last_seq0 == 0) in
    let start_seq = if rest then 1 else start_seq0 in
    let last_seq = if rest then long_max else last_seq0 in
    let soffset = (p.slice.disks disk_idx).sum_files_len in
    let added =
      add_rows (if rest then some config.max_files_in_slice else none) p.slice.slice_id disk_idx
        soffset (select_between start_seq last_seq (p.newfiles disk_idx))
        (record { positions = []; files = 0; bytes = 0; seq = 0 }) in
    let (files, slice) = fresh_slice_stat disk_idx added.files added.bytes p.slice in
    if not rest && (not (added.files == fcount) || not (added.bytes == fsum))
    then none
    else some (
      leb config.max_files_in_slice files,
      record p {
        slice = slice;
        slpos = p.slpos ++ added.positions;
        newfiles =
            update p.newfiles disk_idx (mark_between start_seq added.seq (p.newfiles disk_idx));
      },
    )
