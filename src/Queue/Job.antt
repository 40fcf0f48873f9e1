-- ===== src/Queue/Job.antt =====
-- jobqueue.h and jobqueue.cpp: JobQueue, a queue under a mutex. A method is cut where it waits on the
-- condition variable, and where it works without the mutex: `mark_state` and `clear_state` are the
-- two parts of setState, `push_test` and `push_enter` what push does before and after it takes the
-- mutex. `pop_enter` and `push_enter` run to the first wait or the return, `pop_wake` and
-- `push_wake` from a wake-up, spurious ones included, to the next wait or the return. The result
-- of pthread_mutex_lock or pthread_mutex_trylock in mutexLock is an argument; that of setState,
-- which the source does not look at, is taken to be 0. A broadcast only makes threads runnable,
-- which any waiting thread may be at any time; whether `pop` and `push` end with one is part of
-- their result.
use parity_backup.Base.{
  ℕ, Bool, true, false, not, ◌&&◌, ◌||◌, Option, none, some, if◌then◌else◌, ◌==◌,
}
use parity_backup.Queue.{TinyQueue, push, pop, clear, is_full, get_count}

pub data QueueState : Type 0 where
  queue_run queue_end_of_data queue_abort : QueueState

-- 0, EBUSY, and any other result.
pub data LockResult : Type 0 where
  locked busy failed : LockResult

pub record JobQueue : Type 0 where
  pub wait : Bool
  pub finish_mode : QueueState
  pub queue : TinyQueue

abbrev pub is_run : QueueState → Bool
is_run queue_run = true
is_run queue_end_of_data = false
is_run queue_abort = false

abbrev pub is_abort : QueueState → Bool
is_abort queue_run = false
is_abort queue_end_of_data = false
is_abort queue_abort = true

abbrev same_state : QueueState → QueueState → Bool
same_state queue_run m = is_run m
same_state queue_end_of_data m = not (is_run m || is_abort m)
same_state queue_abort m = is_abort m

-- JobQueue::JobQueue.
abbrev pub create_job_queue : TinyQueue → QueueState → Bool → JobQueue
create_job_queue squeue state wait_mode = record {
  wait = wait_mode;
  finish_mode = state;
  queue = squeue;
}

-- setState up to where it takes the mutex. The second part says whether it goes on.
unfoldable pub mark_state : QueueState → JobQueue → JobQueue × Bool
mark_state mode q =
    if same_state q.finish_mode mode then (q, false) else (record q { finish_mode = mode }, true)

-- setState under the mutex.
unfoldable pub clear_state : JobQueue → JobQueue
clear_state q = record q { queue = if is_abort q.finish_mode then clear q.queue else q.queue }

-- The second part says whether the mutex is held. A lock that fails has setState mark the queue; that
-- setState goes on with `clear_state` like any other.
unfoldable pub mutex_lock : LockResult → JobQueue → JobQueue × Bool
mutex_lock locked q = (q, true)
mutex_lock busy q = (q, false)
mutex_lock failed q = ((mark_state queue_abort q).0, false)

-- `done job broadcast`, with job 0 for NULL, or a wait that remembers `full`.
pub data Popped : Type 0 where
  done : ℕ → Bool → Popped
  blocked : Bool → Popped

-- The test of the while loop, and what follows the loop.
unfoldable pub pop_loop : Bool → ℕ → JobQueue → Popped × JobQueue
pop_loop full job q =
    let (last, rest) = pop q.queue in
    if q.wait && (job == 0) && (get_count q.queue == 0) && is_run q.finish_mode
    then (blocked full, q)
    else if (job == 0) && not (is_abort q.finish_mode)
    then (done last (not (last == 0) && full), record q { queue = rest })
    else (done job (not (job == 0) && full), q)

unfoldable pub pop_enter : LockResult → JobQueue → Popped × JobQueue
pop_enter lock q0 =
    let (q, held) = mutex_lock lock q0 in
    let (job, rest) = pop q.queue in
    if held then pop_loop (is_full q.queue) job (record q { queue = rest }) else (done 0 false, q)

unfoldable pub pop_wake : Bool → JobQueue → Popped × JobQueue
pop_wake full q =
    let (job, rest) = pop q.queue in
    if is_abort q.finish_mode
    then pop_loop full 0 q
    else pop_loop full job (record q { queue = rest })

-- `done rv broadcast`, with `none` for -1, or a wait that remembers `empty` and the job.
pub data Pushed : Type 0 where
  done : Option ℕ → Bool → Pushed
  blocked : Bool → ℕ → Pushed

abbrev accepted : Option ℕ → Bool
accepted none = false
accepted (some n) = true

-- The test of the while loop with a job in hand, and what follows the loop.
unfoldable pub push_loop : Bool → ℕ → JobQueue → Pushed × JobQueue
push_loop empty job q =
    if is_full q.queue && not (is_abort q.finish_mode)
    then (blocked empty job, q)
    else if is_abort q.finish_mode
    then (done none false, q)
    else let (rv, rest) = push job q.queue in
      (done rv (accepted rv && empty), record q { queue = rest })

-- The first test of push, without the mutex: whether it goes on.
unfoldable pub push_test : JobQueue → Bool
push_test q = not (is_abort q.finish_mode)

unfoldable pub push_enter : LockResult → ℕ → JobQueue → Pushed × JobQueue
push_enter lock job q0 =
    let (q, held) = mutex_lock lock q0 in
    let empty = get_count q.queue == 0 in
    let (rv, rest) = push job q.queue in
    if not held
    then (done none false, q)
    else if job == 0
    then (
      done (some 0) true,
      if is_run q.finish_mode then record q { finish_mode = queue_end_of_data } else q,
    )
    else if q.wait
    then push_loop empty job q
    else (done rv (accepted rv && empty), record q { queue = rest })

unfoldable pub push_wake : Bool → ℕ → JobQueue → Pushed × JobQueue
push_wake empty job q =
    let (rv, rest) = push job q.queue in
    if is_abort q.finish_mode
    then push_loop empty job q
    else if accepted rv
    then (done rv empty, record q { queue = rest })
    else push_loop empty job q
