-- ===== src/Examples/Planned.antt =====
-- A plan with two files on disk 0, and a slice that holds 700 bytes of disk 1.
use parity_backup.Base.{ℕ, false, [], ◌∷◌, if◌then◌else◌, ◌==◌, arith, refl}
use parity_backup.Base.Int.{pos}
use parity_backup.Slice.{SliceDisk, Slice}
use parity_backup.Plan.{NewFile, Config, Plan, fresh_slice_stat}
use parity_backup.Plan.Hole.{fill_hole}
use parity_backup.Plan.Rows.{left_count}
use parity_backup.Plan.Fill.{InsertOutcome, insert2slice_outcome}
use parity_backup.Plan.Filled.{Filled, has_work}
use parity_backup.Plan.Runs.{fill_hole-Filled}
use parity_backup.Plan.Stats.{Percent, percent_diff_lem, KnowsMax, fresh_slice_stat-KnowsMax}
use parity_backup.Plan.Skew.{SidOutcome, sid_changed, sid_changed-SidOutcome}
use parity_backup.Plan.Select.{Chosen, select_next_disk_lem}

abbrev config : Config
config = record {
  disks = 2;
  percent_tolerance = 5;
  max_files_in_slice = 1000;
  max_slices = 0;
  files_size = λ i. 1000;
  max_size_disk = 1;
}

abbrev large : NewFile
large = record { seq = 1; size = 500; mtime = []; name = 97 ∷ []; owner = []; marked = false }

abbrev small : NewFile
small = record { seq = 2; size = 150; mtime = []; name = 98 ∷ []; owner = []; marked = false }

abbrev disk_with : ℕ → SliceDisk
disk_with sum = record {
  sum_files_len = sum;
  files_in_slice = 0;
  disk_finished = false;
  fd = pos 0;
  data_buf = λ k. 0;
  datalen = 0;
  seq = 0;
  file_offset = 0;
  file = record {
    file_size = 0;
    bytes2transfer = pos 0;
    parity_start = 0;
    mtime = [];
    hash_state = [];
  };
}

abbrev the_slice : Slice
the_slice = record {
  max_filled_disk = 1;
  slice_id = 115 ∷ [];
  gen_canceled = false;
  disk2write = 2;
  write_start = 0;
  write_size = 0;
  save_path = [];
  fill_factor = pos 0;
  slice_size = 700;
  files_count = 0;
  header_size = 0;
  hash_array = λ i. record { dseq = 0; disk = 0; hash = [] };
  hash_size = 0;
  hash_count = 0;
  bytes_written = 0;
  files_written = 0;
  files_canceled = 0;
  out_of_space = false;
  disks = λ i. if i == 1 then disk_with 700 else disk_with 0;
}

abbrev plan : Plan
plan = record {
  slice = the_slice;
  consumed_size = λ i. 0;
  newfiles = λ i. if i == 0 then large ∷ small ∷ [] else [];
  slpos = [];
}

fill_hole_example : Filled 0 500 (has_work config 0 700 plan) plan (fill_hole 4 config 0 700 plan)
unfolding left_count
fill_hole_example =
    fill_hole-Filled 4 config 0 700 500 plan
      (omega arith, omega arith, (omega arith, omega arith, tt)) (omega arith)

insert_example : InsertOutcome config 0 1 2 2 650 500 plan
insert_example =
    insert2slice_outcome config 0 1 2 2 650 500 plan
      (omega arith, omega arith, (omega arith, omega arith, tt))

select_example : Chosen config plan
select_example = select_next_disk_lem config plan (omega arith) (λ i lt. ground arith)

KnowsMax_example : KnowsMax 2 (fresh_slice_stat 0 2 650 the_slice).1
KnowsMax_example =
    fresh_slice_stat-KnowsMax 2 0 2 650 the_slice (omega arith)
      (record { in_range = omega arith; of_max = refl; above = λ i lt. ground arith })

diff_example : Percent config 0 700
diff_example = percent_diff_lem config 0 700

sid_example :
    SidOutcome config
      (λ i. if i == 0 then 600 else 0)
      plan
      (sid_changed config (λ i. if i == 0 then 600 else 0) plan)
sid_example = sid_changed-SidOutcome config (λ i. if i == 0 then 600 else 0) plan (omega arith)
