-- ===== src/Queue/Shared.antt =====
-- Any number of threads that share one JobQueue, as slices2disk, restoreFromDisk and cancelRequest of
-- backup.cpp use it. Each step runs one thread: a call from one wait to the next, or what it does
-- without the mutex. A waiting thread may be woken at any time. A write of finishMode without the
-- mutex can fall within the part of another call under the mutex; but for push of NULL, which is
-- a step of its own, this comes to the same as a write before or after that part.
use parity_backup.Base.{ℕ, zero, suc, Bool, true, List, [], ◌∷◌, ◌++◌, none, some, ◌≡◌}
use parity_backup.Queue.{to_list}
use parity_backup.Queue.Job.{
  JobQueue, queue_run, queue_end_of_data, queue_abort, LockResult, Popped, Pushed, mark_state,
  clear_state, pop_enter, pop_wake, push_test, push_enter, push_wake,
}

-- `entering` are the jobs of the calls of push that are past the first test and have not taken the
-- mutex; 0 is NULL. `pushed` and `popped` are the jobs that the calls have taken in and handed out, in order.
pub record System : Type 0 where
  pub queue : JobQueue
  pub poppers : List Bool
  pub entering : List ℕ
  pub pushers : List (Bool × ℕ)
  pub pushed : List ℕ
  pub popped : List ℕ

abbrev pub with_popped : System → List Bool → Popped × JobQueue → System
with_popped s others (Popped.done zero b, q) = record s { queue = q; poppers = others }
with_popped s others (Popped.done (suc job) b, q) = record s {
  queue = q;
  poppers = others;
  popped = s.popped ++ suc job ∷ [];
}
with_popped s others (Popped.blocked full, q) = record s { queue = q; poppers = full ∷ others }

abbrev pub with_pushed : System → List (Bool × ℕ) → ℕ → Pushed × JobQueue → System
with_pushed s others zero (Pushed.done r b, q) = record s { queue = q; pushers = others }
with_pushed s others (suc job) (Pushed.done none b, q) = record s { queue = q; pushers = others }
with_pushed s others (suc job) (Pushed.done (some head) b, q) = record s {
  queue = q;
  pushers = others;
  pushed = s.pushed ++ suc job ∷ [];
}
with_pushed s others job (Pushed.blocked empty later, q) = record s {
  queue = q;
  pushers = (empty, later) ∷ others;
}

pub data Step (s : System) : System → Type 0 where
  pops : (lock : LockResult) → Step s (with_popped s s.poppers (pop_enter lock s.queue))
  pop_wakes :
      (full : Bool) (xs ys : List Bool)
      → s.poppers ≡ xs ++ full ∷ ys
      → Step s (with_popped s (xs ++ ys) (pop_wake full s.queue))
  push_tests :
      (job : ℕ) → push_test s.queue ≡ true → Step s (record s { entering = job ∷ s.entering })
  pushes :
      (lock : LockResult) (job : ℕ) (xs ys : List ℕ)
      → s.entering ≡ xs ++ job ∷ ys
      → Step s (
          with_pushed
            (record s { entering = xs ++ ys })
            s.pushers
            job
            (push_enter lock job s.queue))
  push_wakes :
      (empty : Bool) (job : ℕ) (xs ys : List (Bool × ℕ))
      → s.pushers ≡ xs ++ (empty, job) ∷ ys
      → Step s (with_pushed s (xs ++ ys) job (push_wake empty job s.queue))
  -- A push of NULL has tested finishMode, setState writes QUEUE_ABORT, and push writes
  -- QUEUE_END_OF_DATA over it.
  push_overwrites :
      (xs ys : List ℕ)
      → s.entering ≡ xs ++ 0 ∷ ys
      → s.queue.finish_mode ≡ queue_run
      → Step s (record s {
        entering = xs ++ ys;
        queue = record (mark_state queue_abort s.queue).0 { finish_mode = queue_end_of_data };
      })
  -- setState(QUEUE_ABORT) writes finishMode. It goes on with `clears`, which is a step that may be
  -- taken at any time, so that there are at least the runs that the program has.
  cancels : Step s (record s { queue = (mark_state queue_abort s.queue).0 })
  clears : Step s (record s { queue = clear_state s.queue })

pub data Reach (s : System) : System → Type 0 where
  here : Reach s s
  next : {t u : System} → Reach s t → Step t u → Reach s u

-- A queue that nobody uses yet; the jobs that it was filled with count as pushed.
abbrev pub start : JobQueue → System
start q = record {
  queue = q;
  poppers = [];
  entering = [];
  pushers = [];
  pushed = to_list q.queue;
  popped = [];
}
