-- ===== src/Examples/Waits.antt =====
-- The rounds of a sync of two disks, with a buffer of 16 bytes.
use parity_backup.Base.{true, false, [], ◌∷◌}
use parity_backup.Base.Int.{pos, negsuc}
use parity_backup.Slice.{Slice, set_disk}
use parity_backup.Aio.Files.{Setup, Answers, transferred}
use parity_backup.Aio.Rounds.{System}
use parity_backup.Plan.Loop.{empty_slice, empty_disk}

abbrev setup : Setup
setup = record {
  disks = 2;
  file_buffer_size = 16;
  restoring = false;
  dry = false;
  compare_only = false;
  wanted = record {
    matches = λ path. true;
    real_file = λ path. (negsuc 0, []);
    restore_flat = false;
    replace = pos 0;
  };
  rows = λ i.
      record { dseq = 1; fsize = 40; path = 102 ∷ []; start = 0; mtime = []; outdated = false }
      ∷ [];
  digest = λ fed. fed;
}

abbrev answers : Answers
answers = record {
  completion = transferred 10;
  fd = pos 5;
  work_fd = pos 6;
  no_space = false;
  saving = record {
    existing = negsuc 0;
    dirs_made = true;
    owners_lost = false;
    rename_result = pos 0;
    acl_failed = false;
    no_space = false;
  };
  started = true;
  cancelable = true;
  unset = record { dseq = 7; start = 9 };
}

abbrev system : System
system = record { canceled = λ r. false; target = λ r k. answers; visit = λ r i. answers }

abbrev synced : Slice
synced =
    set_disk (record empty_slice { disk2write = 2 }) 2
      (record empty_disk { fd = pos 4; file = record empty_disk.file { file_size = 40 } })
