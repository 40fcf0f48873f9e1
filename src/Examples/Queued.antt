-- ===== src/Examples/Queued.antt =====
-- A queue of two cells.
use parity_backup.Base.{true, false, [], ◌∷◌, ◌++◌, ◌≡◌, refl, arith, ◌+◌, ◌⊎◌, none, some}
use parity_backup.Queue.{TinyQueue, entries, create, pop, push, is_full, get_count, to_list}
use parity_backup.Queue.Laws.{
  create-IsValid, push-IsValid, push_lem, pop_lem, pop_all, drained_full,
}
use parity_backup.Queue.Job.{
  JobQueue, queue_end_of_data, queue_abort, locked, create_job_queue, pop_enter, pop_loop,
  mutex_lock, mark_state, clear_state,
}
use parity_backup.Queue.Calls.{waiting, IsSound}
use parity_backup.Queue.Shared.{System, with_popped, pops, cancels, clears, here, next, start}
use parity_backup.Queue.Threads.{Sub, jobs_in_order, jobs_kept}

abbrev full_queue : TinyQueue
full_queue = (push 6 (push 5 (create 2)).1).1

-- The queue of a program that is under way: filled before the threads start.
abbrev filled : JobQueue
filled = create_job_queue full_queue queue_end_of_data false

filled-IsSound : IsSound filled
filled-IsSound = record {
  valid = push-IsValid 6 (push 5 (create 2)).1 (push-IsValid 5 (create 2) (create-IsValid 2).0);
  nonzero = unfold create push to_list entries in (λ e. omega arith, (λ e. omega arith, tt));
}

abbrev popped_one : System
popped_one = with_popped (start filled) [] (pop_enter locked filled)

abbrev canceled_one : System
canceled_one = record popped_one { queue = (mark_state queue_abort popped_one.queue).0 }

-- A job is popped, setState writes QUEUE_ABORT, another job is popped, and setState clears the queue.
abbrev popped_two : System
popped_two = with_popped canceled_one canceled_one.poppers (pop_enter locked canceled_one.queue)

abbrev cleared : System
cleared = record popped_two { queue = clear_state popped_two.queue }

order_example : Sub cleared.popped cleared.pushed
order_example =
    jobs_in_order full_queue queue_end_of_data false cleared filled-IsSound
      (next (next (next (next here (pops locked)) cancels) (pops locked)) clears)

kept_example : popped_one.pushed ≡ popped_one.popped ++ waiting popped_one.queue
unfolding pop_enter mutex_lock pop_loop is_full create push pop get_count
kept_example =
    jobs_kept full_queue queue_end_of_data false popped_one filled-IsSound (next here (pops locked))
      refl

full_example :
    ((pop_all (get_count full_queue) full_queue).0 ≡ to_list full_queue)
    × (get_count (pop_all (get_count full_queue) full_queue).1 ≡ 0)
    × (is_full (pop_all (get_count full_queue) full_queue).1 ≡ true)
    × ((push 7 (pop_all (get_count full_queue) full_queue).1).0 ≡ none)
unfolding is_full create push
full_example =
    drained_full full_queue 7
      (push-IsValid 6 (push 5 (create 2)).1 (push-IsValid 5 (create 2) (create-IsValid 2).0)) refl

push_example :
    ((is_full (create 2) ≡ false)
      × ((push 5 (create 2)).0 ≡ some ((create 2).head + 1))
      × (to_list (push 5 (create 2)).1 ≡ to_list (create 2) ++ 5 ∷ []))
    ⊎ ((is_full (create 2) ≡ true) × (push 5 (create 2) ≡ (none, create 2)))
push_example = push_lem 5 (create 2) (create-IsValid 2).0

pop_example :
    ((to_list (push 5 (create 2)).1 ≡ [])
      × (pop (push 5 (create 2)).1 ≡ (0, (push 5 (create 2)).1)))
    ⊎ (to_list (push 5 (create 2)).1
        ≡ (pop (push 5 (create 2)).1).0 ∷ to_list (pop (push 5 (create 2)).1).1)
pop_example = pop_lem (push 5 (create 2)).1 (push-IsValid 5 (create 2) (create-IsValid 2).0)
