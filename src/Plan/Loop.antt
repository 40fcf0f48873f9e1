-- ===== src/Plan/Loop.antt =====
-- createSlices of planer.cpp. What createSlices keeps is the plan, the table slhead,
-- the count of slices and, while a transaction is open, the plan at its start. `stamp` is what
-- getTimestamp writes for a slice; `canceled` is the flag operationCanceled, turn by turn of the loop.
use parity_backup.Base.{
  ℕ, zero, suc, ◌+◌, ◌*◌, Bool, true, false, not, ◌&&◌, Option, none, some, List, [], ◌∷◌, ◌++◌,
  count_loop, sum_upto, if◌then◌else◌, ◌==◌, leb,
}
use parity_backup.Base.Int.{ℤ, pos, negsuc}
use parity_backup.Slice.{SliceFile, SliceDisk, Slice}
use parity_backup.Plan.{Config, Plan, NewFile, compute_fill_factor, clear_slice_stat}
use parity_backup.Plan.Insert.{insert2slice}
use parity_backup.Plan.Rows.{left_count, left_total}
use parity_backup.Base.{Run, fatal, unfinished, returns}
use parity_backup.Plan.Hole.{add_file2slice}
use parity_backup.Plan.Start.{slice_prefix, start_slice}

-- A row of slhead. `state` is empty until the slice is saved.
pub record SliceHead : Type 0 where
  pub sid : List ℕ
  pub ssize : ℕ
  pub files : ℕ
  pub fill : ℤ
  pub state : List ℕ

-- The statement `count` of createSlices: the groups of rows that are not marked, and their sizes.
abbrev pub left_group : List NewFile → List (ℕ × ℕ) → List (ℕ × ℕ)
left_group rows groups =
    if left_count rows == 0 then groups else groups ++ (left_count rows, left_total rows) ∷ []

abbrev pub left_groups : Config → Plan → List (ℕ × ℕ)
left_groups config p = count_loop config.disks 0 (λ i groups. left_group (p.newfiles i) groups) []

-- All that is left of the only active disk, up to the limits of insert2slice. Files that are left on
-- another disk end the program.
unfoldable pub copy_rest : Config → ℕ → List (ℕ × ℕ) → Plan → Option Plan
copy_rest config solo [] p = some p
copy_rest config solo ((files, sizes) ∷ []) p = elim (insert2slice config solo 0 0 files sizes p) [
  | none ↦ none
  | some (too_big, p1) ↦ some p1
]
copy_rest config solo ((files, sizes) ∷ g ∷ gs) p = none

-- The variables of createSlices.
pub record Planning : Type 0 where
  pub plan : Plan
  pub slheads : List SliceHead
  pub slc_count : ℕ
  pub begun : Option Plan

-- The row of slhead for the slice that is ready.
abbrev pub head_row : ℤ → Slice → SliceHead
head_row fill cs = record {
  sid = cs.slice_id;
  ssize = cs.slice_size;
  files = cs.files_count;
  fill = fill;
  state = [];
}

-- The row is written and the transaction ends.
abbrev pub commit_head : SliceHead → Planning → Plan → Planning
commit_head row s p = record s { plan = p; slheads = s.slheads ++ row ∷ []; begun = none }

unfoldable pub finish_slice : Config → Planning → Run (Bool × Planning)
finish_slice config s =
    let fill = compute_fill_factor config none s.plan in
    let p = record s.plan { slice = record s.plan.slice { fill_factor = fill } } in
    elim (clear_slice_stat config p) [
      | none ↦ fatal
      | some p1 ↦ returns (true, commit_head (head_row fill s.plan.slice) s p1)
    ]

-- A file is added, or the slice is ready.
unfoldable pub grow_slice : ℕ → Config → Planning → Run (Bool × Planning)
grow_slice fuel config s = elim (add_file2slice fuel config s.plan) [
  | fatal ↦ fatal
  | unfinished ↦ unfinished
  | returns (none, p) ↦ finish_slice config (record s { plan = p })
  | returns (some next, p) ↦ returns (true, record s { plan = p })
]

-- What follows startSlice, with the only active disk.
unfoldable pub go_on : ℕ → Config → Option ℕ → Planning → Run (Bool × Planning)
go_on fuel config none s = grow_slice fuel config s
go_on fuel config (some solo) s = elim (copy_rest config solo (left_groups config s.plan) s.plan) [
  | none ↦ fatal
  | some p ↦ finish_slice config (record s { plan = p })
]

abbrev pub after_start : ℕ → Config → Planning → Option (Option ℕ × Plan) → Run (Bool × Planning)
after_start fuel config s none = fatal
after_start fuel config s (some (solo, p)) =
    let s1 : Planning = record s { plan = p; begun = some s.plan } in
    if p.slice.slice_size == 0
    then returns (false, s1)
    else go_on fuel config solo (record s1 { slc_count = s.slc_count + 1 })

-- One turn of the loop; false when it is left.
unfoldable pub plan_turn : ℕ → Config → List ℕ → Bool → Planning → Run (Bool × Planning)
plan_turn fuel config stamp canceled s =
    if canceled
    then returns (false, s)
    else if s.plan.slice.slice_size == 0
    then (if not (config.max_slices == 0) && leb config.max_slices s.slc_count
        then returns (false, s)
        else after_start fuel config s (start_slice config stamp s.slc_count s.plan))
    else grow_slice fuel config s

-- The loop, in turns from `k` on.
unfoldable pub plan_loop :
    ℕ → ℕ → Config → (ℕ → List ℕ) → (ℕ → Bool) → (k : ℕ) → Planning → Run (Bool × Planning)
plan_loop zero fuel config stamps canceled k s = unfinished
plan_loop (suc turns) fuel config stamps canceled k s =
    elim (plan_turn fuel config (stamps k) (canceled k) s) [
      | fatal ↦ fatal
      | unfinished ↦ unfinished
      | returns (false, s1) ↦ returns (canceled (k + 1), s1)
      | returns (true, s1) ↦ plan_loop turns fuel config stamps canceled (k + 1) s1
    ]

-- bzero(cSlice, sizeof(SLICE)), and its prefix.
abbrev pub empty_file : SliceFile
empty_file = record {
  file_size = 0;
  bytes2transfer = pos 0;
  parity_start = 0;
  mtime = [];
  hash_state = [];
}

abbrev pub empty_disk : SliceDisk
empty_disk = record {
  sum_files_len = 0;
  files_in_slice = 0;
  disk_finished = false;
  fd = pos 0;
  data_buf = λ k. 0;
  datalen = 0;
  seq = 0;
  file_offset = 0;
  file = empty_file;
}

abbrev pub empty_slice : Slice
empty_slice = record {
  max_filled_disk = 0;
  slice_id = slice_prefix;
  gen_canceled = false;
  disk2write = 0;
  write_start = 0;
  write_size = 0;
  save_path = [];
  fill_factor = pos 0;
  slice_size = 0;
  files_count = 0;
  header_size = 0;
  hash_array = λ i. record { dseq = 0; disk = 0; hash = [] };
  hash_size = 0;
  hash_count = 0;
  bytes_written = 0;
  files_written = 0;
  files_canceled = 0;
  out_of_space = false;
  disks = λ i. empty_disk;
}

-- ROLLBACK of a transaction that is open: the tables are those at its start.
abbrev pub roll_back : Option Plan → Plan → Plan
roll_back none p = p
roll_back (some old) p = record p { newfiles = old.newfiles; slpos = old.slpos }

-- The count of slices, -1 if the program was canceled.
abbrev pub close_plan : Bool × Planning → ℤ × Planning
close_plan (canceled, s) = (
  if canceled then negsuc 0 else pos s.slc_count,
  record s { plan = roll_back s.begun s.plan; begun = none },
)

abbrev pub all_left : Config → Plan → ℕ
all_left config p = sum_upto (λ i. left_count (p.newfiles i)) config.disks

-- createSlices once there are files to plan.
unfoldable pub plan_slices :
    Config → (ℕ → List ℕ) → (ℕ → Bool) → List SliceHead → Plan → Run (ℤ × Planning)
plan_slices config stamps canceled heads p =
    let left = all_left config p in
    elim (plan_loop (left * (config.disks + 3) + 2) (left + 2) config stamps canceled 0 (record {
      plan = record p { slice = empty_slice };
      slheads = heads;
      slc_count = 0;
      begun = none;
    })) [ fatal ↦ fatal | unfinished ↦ unfinished | returns r ↦ returns (close_plan r) ]
