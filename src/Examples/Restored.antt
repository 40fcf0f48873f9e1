-- ===== src/Examples/Restored.antt =====
-- Two data disks and their parity; the first disk is lost.
use parity_backup.Base.{◌+◌, ℕ, false, none, some, [], ◌∷◌, if◌then◌else◌, ◌==◌, ◌≡◌, arith, refl}
use parity_backup.Base.Int.{pos}
use parity_backup.Slice.{SliceFile, SliceDisk, HashPos, Slice, cancel_request}
use parity_backup.Slice.Hash.{
  HoldsHashes, FindsAll, store_hash, find_hash4seq, store_hash-find_hash4seq,
}
use parity_backup.Parity.{par_len, fill_parity, clear_inputs, compute_parity}
use parity_backup.Parity.Restore.{compute_parity-recovers, compute_parity-ZeroPadded, ZeroPadded}

abbrev a_file : SliceFile
a_file = record {
  file_size = 3;
  bytes2transfer = pos 0;
  parity_start = 0;
  mtime = [];
  hash_state = 7 ∷ 8 ∷ 9 ∷ [];
}

abbrev disk_of : ℕ → (ℕ → ℕ) → SliceDisk
disk_of len bytes = record {
  sum_files_len = len;
  files_in_slice = 1;
  disk_finished = false;
  fd = pos 4;
  data_buf = bytes;
  datalen = len;
  seq = 1;
  file_offset = len;
  file = a_file;
}

abbrev bytes_0 : ℕ → ℕ
bytes_0 k = if k == 0 then 5 else if k == 1 then 7 else 0

abbrev bytes_1 : ℕ → ℕ
bytes_1 k = if k == 0 then 1 else if k == 1 then 2 else if k == 2 then 6 else 0

abbrev no_hash : HashPos
no_hash = record { dseq = 0; disk = 0; hash = [] }

abbrev synced : Slice
synced = record {
  max_filled_disk = 1;
  slice_id = [];
  gen_canceled = false;
  disk2write = 2;
  write_start = 0;
  write_size = 3;
  save_path = [];
  fill_factor = pos 83;
  slice_size = 3;
  files_count = 2;
  header_size = 64;
  hash_array = λ i. no_hash;
  hash_size = 2;
  hash_count = 0;
  bytes_written = 0;
  files_written = 0;
  files_canceled = 0;
  out_of_space = false;
  disks = λ i.
      if i == 0
      then disk_of 2 bytes_0
      else if i == 1
      then disk_of 3 bytes_1
      else disk_of 0 (λ k. 0);
}

abbrev restoring : Slice
restoring = record synced {
  disk2write = 0;
  disks = λ i.
      if i == 2
      then (compute_parity 2 false false synced).1.disks 2
      else if i == 1
      then disk_of 3 bytes_1
      else disk_of 0 (λ k. 0);
}

recovers_example :
    ((compute_parity 2 false false restoring).1.disks 0).data_buf 1 ≡ (synced.disks 0).data_buf 1
unfolding compute_parity cancel_request par_len fill_parity clear_inputs
recovers_example =
    compute_parity-recovers 2 synced restoring refl refl (omega arith) refl
      (λ i k lt ne. ground arith) (λ k. refl) refl 1 (omega arith)

ZeroPadded_example : ZeroPadded ((compute_parity 2 false false synced).1.disks 0)
unfolding par_len
ZeroPadded_example =
    compute_parity-ZeroPadded 2 synced refl (omega arith) refl (λ i le k above. ground arith)
      (omega arith) 0 (omega arith)

hash_example :
    (cs : Slice) × (store_hash (λ bytes. bytes) 1 0 none synced ≡ some cs)
    × HoldsHashes cs
    × (cs.hash_count ≡ synced.hash_count + 1)
    × (find_hash4seq 1 1 cs ≡ some (7 ∷ 8 ∷ 9 ∷ []))
    × FindsAll synced cs
    × FindsAll cs cs
hash_example =
    store_hash-find_hash4seq (λ bytes. bytes) 1 synced
      (record {
        room = omega arith;
        size = omega arith;
        single = λ j k lt lt'. absurd (omega arith);
      })
      (omega arith) (omega arith) (λ j lt. absurd (omega arith))
