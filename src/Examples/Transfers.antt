-- ===== src/Examples/Transfers.antt =====
-- A restore of disk 0 from a window of bytes 100 to 150, where disk 1 has a file at 80 to 130.
use parity_backup.Base.{ℕ, true, false, List, [], ◌∷◌, if◌then◌else◌, ◌==◌, arith, refl}
use parity_backup.Base.Int.{pos, negsuc}
use parity_backup.Slice.{SliceFile, SliceDisk, Slice}
use parity_backup.Aio.Window.{Targeted, new_target_file_lem}
use parity_backup.Aio.Next.{Row, Wanted, Unset, after, get_next_file}
use parity_backup.Aio.Passes.{counts}
use parity_backup.Aio.Skips.{Gives, MustOpen, get_next_file-Gives}
use parity_backup.Aio.Round.{request, read_done}
use parity_backup.Aio.Buffers.{Reading, InBounds, request_bounds, read_done-Reading}

abbrev file_at : ℕ → ℕ → SliceFile
file_at start size = record {
  file_size = size;
  bytes2transfer = pos 30;
  parity_start = start;
  mtime = [];
  hash_state = [];
}

abbrev disk_at : SliceFile → SliceDisk
disk_at file = record {
  sum_files_len = 0;
  files_in_slice = 0;
  disk_finished = false;
  fd = pos 4;
  data_buf = λ k. 0;
  datalen = 0;
  seq = 1;
  file_offset = 20;
  file = file;
}

abbrev restored : Slice
restored = record {
  max_filled_disk = 1;
  slice_id = [];
  gen_canceled = false;
  disk2write = 0;
  write_start = 100;
  write_size = 50;
  save_path = [];
  fill_factor = pos 0;
  slice_size = 200;
  files_count = 2;
  header_size = 64;
  hash_array = λ i. record { dseq = 0; disk = 0; hash = [] };
  hash_size = 0;
  hash_count = 0;
  bytes_written = 0;
  files_written = 0;
  files_canceled = 0;
  out_of_space = false;
  disks = λ i. if i == 1 then disk_at (file_at 80 50) else disk_at (file_at 100 50);
}

target_example : Targeted 2 restored 1
target_example = new_target_file_lem 2 restored 1 (omega arith)

abbrev rows : List Row
rows =
    record { dseq = 2; fsize = 40; path = 97 ∷ []; start = 150; mtime = []; outdated = false } ∷ []

abbrev all_files : Wanted
all_files = record {
  matches = λ path. true;
  real_file = λ path. (negsuc 0, []);
  restore_flat = false;
  replace = pos 1;
}

abbrev unset : Unset
unset = record { dseq = 7; start = 9 }

next_example :
    Gives 2
      (MustOpen 2 all_files 0 0 100)
      (counts all_files 0 0)
      0
      restored
      (after 1 rows)
      (get_next_file 2 all_files unset false 0 rows restored)
next_example = get_next_file-Gives 2 all_files unset false 0 rows restored

reading : Reading 64 50 (restored.disks 1)
reading = record { in_buffer = omega arith; rest = 30; to_read = refl; ends = refl }

request_example : InBounds 2 64 50 1 restored
request_example = request_bounds 2 64 50 1 restored (omega arith) (omega arith) reading

read_example : Reading 64 50 ((read_done false false 1 10 restored).1.disks 1)
unfolding request
read_example =
    read_done-Reading 2 64 50 1 false false 10 restored (omega arith) (omega arith) reading
      (omega arith) (ground arith)
