-- ===== src/Aio/Wait.antt =====
-- startAIO, suspend, cancelAIO and wait4buffers of asyncio.cpp: the rounds in which requests are
-- started and their completions taken.
use parity_backup.Base.{
  ℕ, zero, suc, ◌+◌, ◌-◌, min, Bool, true, false, not, ◌&&◌, ◌||◌, Option, none, some, update,
  count_loop, if◌then◌else◌, ◌==◌, ltb, leb,
}
use parity_backup.Base.Int.{ℤ, pos, negsuc, ltb_ℤ, pos_part}
use parity_backup.Slice.{Slice, set_disk, cancel_gen, is_parity}
use parity_backup.Aio.{leb_ℤ}
use parity_backup.Aio.Round.{Aiocb, no_request, request, read_done, write_done}
use parity_backup.Aio.Files.{
  Setup, Answers, Completion, in_progress, failed, transferred, finish_current_file, open_next_file,
}

-- The slice, its control blocks, and the return value of wait4buffers so far.
pub record Transfer : Type 0 where
  pub slice : Slice
  pub cbs : ℕ → Aiocb
  pub result : ℤ

abbrev pub set_cb : Transfer → ℕ → Aiocb → Transfer
set_cb t i cb = record t { cbs = update t.cbs i cb }

abbrev pub cancel_transfer : Bool → Transfer → Transfer
cancel_transfer no_space t = record t { slice = (cancel_gen no_space t.slice).1 }

-- The buffer is full or there is nothing to read, or nothing to write.
abbrev pub declines : Setup → ℕ → Slice → Bool
declines u disk_idx cs =
    let sd = cs.disks disk_idx in
    if cs.disk2write == disk_idx
    then sd.datalen == 0
    else leb u.file_buffer_size sd.datalen || leb_ℤ sd.file.bytes2transfer (pos 0)

-- The request is made; if it can not be started, the slice is canceled.
abbrev pub submit : Setup → Answers → ℕ → Transfer → Transfer
submit u a disk_idx t =
    let writing = t.slice.disk2write == disk_idx in
    if declines u disk_idx t.slice
    then t
    else if writing && u.dry || a.started
    then set_cb t disk_idx (request u.disks u.file_buffer_size t.slice disk_idx)
    else cancel_transfer a.no_space t

-- With a file that is open, or with the next one.
abbrev pub submit_next : Setup → Answers → ℕ → Transfer → Option (Bool × Slice) → Option Transfer
submit_next u a disk_idx t none = none
submit_next u a disk_idx t (some (false, cs)) = some (record t { slice = cs })
submit_next u a disk_idx t (some (true, cs)) = some (submit u a disk_idx (record t { slice = cs }))

unfoldable pub start_aio : Setup → Answers → ℕ → Transfer → Option Transfer
start_aio u a disk_idx t0 =
    let t = set_cb t0 disk_idx no_request in
    let cs = t.slice in
    let sd = cs.disks disk_idx in
    if cs.gen_canceled || sd.disk_finished
    then some t
    else if not (cs.disk2write == disk_idx) && leb_ℤ sd.file.bytes2transfer (pos 0)
    then submit_next u a disk_idx t (open_next_file u a disk_idx cs)
    else some (submit u a disk_idx t)

-- The result of a visit: the loop over the disks is left or goes on.
abbrev pub go_on_with : Option Transfer → Option (Bool × Transfer)
go_on_with none = none
go_on_with (some t) = some (false, t)

-- A completed read, and the next request.
abbrev pub after_read : Setup → Answers → ℕ → Transfer → Bool × Slice → Option (Bool × Transfer)
after_read u a disk_idx t (true, cs) = go_on_with (start_aio u a disk_idx (record t { slice = cs }))
after_read u a disk_idx t (false, cs) =
    some (true, set_cb (record t { slice = cs }) disk_idx no_request)

abbrev pub with_slice : Transfer → Option Slice → Option (Bool × Transfer)
with_slice t none = none
with_slice t (some cs) = some (false, record t { slice = cs })

-- A completed write; the file may be finished with it.
abbrev pub after_write :
    Setup → Answers → ℕ → Transfer → Option Bool × Slice → Option (Bool × Transfer)
after_write u a disk_idx t (none, cs) = some (true, record t { slice = cs })
after_write u a disk_idx t (some false, cs) =
    some (false, set_cb (record t { slice = cs }) disk_idx no_request)
after_write u a disk_idx t (some true, cs) =
    with_slice (set_cb t disk_idx no_request) (finish_current_file u a disk_idx cs)

abbrev pub take_completion : Setup → Answers → ℕ → Transfer → Completion → Option (Bool × Transfer)
take_completion u a disk_idx t in_progress = some (false, t)
take_completion u a disk_idx t failed =
    let (rv, cs) = cancel_gen a.no_space t.slice in
    some (true, record t { slice = cs; result = rv })
take_completion u a disk_idx t (transferred len) =
    if disk_idx == t.slice.disk2write
    then after_write u a disk_idx t (write_done u.disks a.no_space disk_idx len t.slice)
    else after_read u a disk_idx t
        (read_done (is_parity u.disks t.slice.disk2write) a.no_space disk_idx len t.slice)

-- The break after startAIO.
abbrev pub started_or_left : Option Transfer → Option (Bool × Transfer)
started_or_left none = none
started_or_left (some t) = some (t.slice.gen_canceled, t)

-- aio_return gives no more than was asked for: a greater number stands for all of it.
abbrev pub clip : ℕ → Completion → Completion
clip asked in_progress = in_progress
clip asked failed = failed
clip asked (transferred len) = transferred (min len asked)

-- The body of the loop over the disks. With config.dry a write is simulated.
unfoldable pub visit_disk : Setup → Answers → ℕ → Transfer → Option (Bool × Transfer)
visit_disk u a disk_idx t =
    let cb = t.cbs disk_idx in
    let simulated = (disk_idx == t.slice.disk2write) && u.dry in
    if (t.slice.disks disk_idx).disk_finished
    then some (false, t)
    else if cb.nbytes == 0
    then (if t.slice.gen_canceled
        then some (false, t)
        else started_or_left (start_aio u a disk_idx t))
    else take_completion u a disk_idx t
        (if simulated then transferred cb.nbytes else clip cb.nbytes a.completion)

-- The loop, `left` disks from `i` on; with the state the last disk that was visited.
unfoldable pub visit_disks :
    Setup → (ℕ → Answers) → (left : ℕ) (i : ℕ) → Transfer → Option (ℕ × Transfer)
visit_disks u answers zero i t = some (i - 1, t)
visit_disks u answers (suc left) i t = elim (visit_disk u (answers i) i t) [
  | none ↦ none
  | some (true, t1) ↦ some (i, t1)
  | some (false, t1) ↦ visit_disks u answers left (i + 1) t1
]

-- suspend: whether a request is in flight.
abbrev pub in_flight : Setup → Transfer → Bool
in_flight u t = count_loop (suc u.disks) 0 (λ i found. found || ltb 0 (t.cbs i).nbytes) false

-- cancelAIO: what is left of the control blocks. `cb` is the disk whose request failed.
abbrev pub drop_blocks : Setup → (ℕ → Answers) → ℕ → Transfer → ℕ → Aiocb
drop_blocks u answers cb t i =
    let simulated = u.dry && (i == t.slice.disk2write) in
    if simulated || (i == cb)
    then no_request
    else if leb i u.disks && (answers i).cancelable
    then no_request
    else t.cbs i

-- Whether all that were in flight are canceled.
unfoldable pub cancel_aio : Setup → (ℕ → Answers) → ℕ → Transfer → Bool × Transfer
cancel_aio u answers cb t =
    let t1 = record t { cbs = drop_blocks u answers cb t } in (not (in_flight u t1), t1)

-- After a file that is restored is given up, the next one is tried. What is left of it is not negative.
abbrev pub skip_file : Transfer → Transfer
skip_file t =
    let cs = t.slice in
    let i = cs.disk2write in
    let sd = cs.disks i in
    let sd1 = record sd { file = record sd.file { bytes2transfer = pos 0 } } in
    record t {
      slice =
          record (set_disk cs i
            (if ltb_ℤ (pos 0) sd.fd then record sd1 { fd = negsuc 0 } else sd1)) {
              files_canceled = cs.files_canceled + 1;
              files_written = cs.files_written + 1;
              bytes_written = cs.bytes_written + pos_part sd.file.bytes2transfer;
            };
    }
