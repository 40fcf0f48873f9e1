-- ===== src/Examples/Looped.antt =====
-- createSlices on two disks, with two files on one and a file on the other.
use parity_backup.Base.{ℕ, false, [], ◌∷◌, if◌then◌else◌, ◌==◌, arith}
use parity_backup.Plan.{NewFile, Config, Plan}
use parity_backup.Plan.Rows.{left_total}
use parity_backup.Plan.Loop.{empty_slice, plan_slices}
use parity_backup.Plan.Planned.{PlansAll, plan_slices-PlansAll}

abbrev config : Config
config = record {
  disks = 2;
  percent_tolerance = 1;
  max_files_in_slice = 1000;
  max_slices = 0;
  files_size = λ i. if i == 0 then 650 else 600;
  max_size_disk = 0;
}

abbrev file_of : ℕ → ℕ → ℕ → NewFile
file_of seq size name = record {
  seq = seq;
  size = size;
  mtime = [];
  name = name ∷ [];
  owner = [];
  marked = false;
}

abbrev plan : Plan
plan = record {
  slice = empty_slice;
  consumed_size = λ i. 0;
  newfiles = λ i.
      if i == 0
      then file_of 1 500 97 ∷ file_of 2 150 98 ∷ []
      else if i == 1
      then file_of 1 600 99 ∷ []
      else [];
  slpos = [];
}

plan_slices_example :
    PlansAll config (λ k. false) plan (plan_slices config (λ k. 48 ∷ []) (λ k. false) [] plan)
plan_slices_example =
    plan_slices-PlansAll config (λ i. 600) (λ k. 48 ∷ []) (λ k. false) [] plan (λ k h. h)
      (record {
        in_range = omega arith;
        listed = λ i lt. ground arith;
        largest = λ i lt. omega arith;
        no_empty = λ i lt. ground arith;
        accounts = λ i lt. unfold left_total in ground arith;
      })
