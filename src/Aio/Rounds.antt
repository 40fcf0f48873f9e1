-- ===== src/Aio/Rounds.antt =====
-- wait4buffers of asyncio.cpp. What the system answers is an argument, for each round and each visit.
use parity_backup.Base.{
  ℕ, zero, suc, ◌+◌, Bool, true, false, ◌||◌, Option, none, some, if◌then◌else◌, ◌==◌,
}
use parity_backup.Base.Int.{pos, ltb_ℤ}
use parity_backup.Slice.{Slice, cancel_request, is_parity}
use parity_backup.Aio.{new_target_file}
use parity_backup.Aio.Round.{no_request}
use parity_backup.Aio.Files.{Setup, Answers, finish_current_file, open_next_file}
use parity_backup.Aio.Wait.{Transfer, visit_disks, in_flight, cancel_aio, skip_file}

-- `canceled` is the flag operationCanceled; `target` answers while the target file is opened.
pub record System : Type 0 where
  pub canceled : ℕ → Bool
  pub target : ℕ → ℕ → Answers
  pub visit : ℕ → ℕ → Answers

-- What opening the target file comes to. `opening` is the state where the fuel runs out.
pub data Target : Type 0 where
  ended : Target
  opening no_target aimed : Slice → Target

-- The turn of the loop after a file of size 0, which is finished at once.
abbrev pub finish_empty : Setup → Answers → Slice → Option Slice
finish_empty u a cs =
    let cs1 = new_target_file u.disks cs in
    if (cs1.disks cs1.disk2write).file.file_size == 0
    then finish_current_file u a cs1.disk2write cs1
    else some cs1

abbrev pub after_open : Option (Bool × Slice) → (Slice → Target) → Target
after_open none next = ended
after_open (some (false, cs)) next = no_target cs
after_open (some (true, cs)) next = next cs

abbrev pub after_finish : Option Slice → (Slice → Target) → Target
after_finish none next = ended
after_finish (some cs) next = next cs

-- `while(sd->file.fileSize == 0)`, on fuel, from the attempt `k` on.
unfoldable pub open_target : ℕ → Setup → (ℕ → Answers) → (k : ℕ) → Slice → Target
open_target zero u answers k cs = opening cs
open_target (suc fuel) u answers k cs =
    let more = after_open (open_next_file u (answers k) cs.disk2write cs) (λ cs1.
      after_finish (finish_empty u (answers k) cs1)
        (λ cs2. open_target fuel u answers (k + 1) cs2)) in
    if (cs.disks cs.disk2write).file.file_size == 0 then more else aimed cs

-- What wait4buffers comes to. `waiting` is the state where the fuel runs out.
pub data Waited : Type 0 where
  ends_program : Waited
  waiting eof returned : Transfer → Waited

-- suspend, and the next round.
abbrev pub suspend : Setup → (Transfer → Waited) → Transfer → Waited
suspend u next t = if in_flight u t then next t else returned t

-- What follows the loop over the disks; `cb` is the last that was visited.
abbrev pub after_cancel : Setup → (Transfer → Waited) → Bool × Transfer → Waited
after_cancel u next (false, t) = suspend u next t
after_cancel u next (true, t) =
    if is_parity u.disks t.slice.disk2write || t.slice.out_of_space
    then returned t
    else suspend u next (skip_file t)

abbrev pub close_round : Setup → (ℕ → Answers) → (Transfer → Waited) → ℕ → Transfer → Waited
close_round u answers next cb t =
    if t.slice.gen_canceled
    then after_cancel u next (cancel_aio u answers cb t)
    else suspend u next t

abbrev pub after_visits :
    Setup → (ℕ → Answers) → (Transfer → Waited) → Option (ℕ × Transfer) → Waited
after_visits u answers next none = ends_program
after_visits u answers next (some (cb, t)) = close_round u answers next cb t

-- A round once the target file is open, or there is none.
abbrev pub run_round : Setup → (ℕ → Answers) → (Transfer → Waited) → Transfer → Target → Waited
run_round u answers next t ended = ends_program
run_round u answers next t (opening cs) = waiting (record t { slice = cs })
run_round u answers next t (no_target cs) = eof (record t { slice = cs })
run_round u answers next t (aimed cs) =
    after_visits u answers next (visit_disks u answers (suc u.disks) 0 (record t { slice = cs }))

-- `rounds` and `attempts` are fuel; the rounds are counted from `r` on. `eof` stands for the return
-- value -1 when there is no target file, and `returned` for `result`.
unfoldable pub wait4buffers : ℕ → ℕ → Setup → System → (r : ℕ) → Transfer → Waited
wait4buffers zero attempts u sys r t = waiting t
wait4buffers (suc rounds) attempts u sys r t =
    let cs = cancel_request (sys.canceled r) t.slice in
    let target =
      if ltb_ℤ (pos 0) (cs.disks cs.disk2write).fd
      then aimed cs
      else open_target attempts u (sys.target r) 0 cs in
    run_round u (sys.visit r) (λ t1. wait4buffers rounds attempts u sys (r + 1) t1) t target

-- fillInputBuffers: the control blocks are cleared.
abbrev pub fill_input_buffers : ℕ → ℕ → Setup → System → Slice → Waited
fill_input_buffers rounds attempts u sys cs =
    wait4buffers rounds attempts u sys 0
      (record { slice = cs; cbs = λ i. no_request; result = pos 0 })
