-- ===== src/Aio/Memory.antt =====
-- wait4buffers: requests stay within their buffers, and none is left when it returns.
use parity_backup.Base.{ℕ, ◌≤◌, ◌≡◌}
use parity_backup.Slice.{Slice}
use parity_backup.Aio.Files.{Setup}
use parity_backup.Aio.Wait.{Transfer}
use parity_backup.Aio.Rounds.{
  Target, ended, opening, no_target, aimed, Waited, ends_program, waiting, eof, returned,
}
use parity_backup.Aio.Same.{Same}
use parity_backup.Aio.Contained.{Contained}

-- No control block has a request.
abbrev pub Quiet : Setup → Transfer → Type 0
Quiet u t = (i : ℕ) → i ≤ u.disks → (t.cbs i).nbytes ≡ 0

-- What `wait4buffers-MemorySafe` states of each outcome.
abbrev pub MemorySafe : Setup → Waited → Type 0
MemorySafe u ends_program = Unit {0}
MemorySafe u (waiting t) = Contained u.disks u.file_buffer_size t
MemorySafe u (eof t) = Contained u.disks u.file_buffer_size t
MemorySafe u (returned t) = Contained u.disks u.file_buffer_size t × Quiet u t

-- What the slice is when the target file is open, or there is none.
data OpensSame (cs : Slice) : Target → Type 0 where
  fatal : OpensSame cs ended
  still : {r : Slice} → Same cs r → OpensSame cs (opening r)
  at_end : {r : Slice} → Same cs r → OpensSame cs (no_target r)
  opened : {r : Slice} → Same cs r → OpensSame cs (aimed r)
