-- ===== src/Queue/Calls.antt =====
-- What one call of JobQueue::pop or JobQueue::push does to the list of waiting jobs, on every branch.
use mathlib.Core.Path.{subst}
use parity_backup.Base.{
  if_split, ℕ, Bool, true, false, List, [], ◌∷◌, ◌++◌, none, some, ◌==◌, ◌≡◌, ◌≢◌, ◌⊎◌, inl, inr,
  arith, All, All-append, refl, sym, Bool-cases,
}
use parity_backup.Queue.{pop, push, is_full, get_count, to_list, IsValid}
use parity_backup.Queue.Laws.{pop_lem, push_lem, pop-IsValid, push-IsValid, clear-IsValid}
use parity_backup.Queue.Job.{
  JobQueue, queue_abort, LockResult, locked, busy, failed, Popped, Pushed, is_abort, mark_state,
  clear_state, mutex_lock, pop_loop, pop_enter, pop_wake, push_loop, push_enter, push_wake,
}

-- The jobs that wait in the queue.
abbrev pub waiting : JobQueue → List ℕ
waiting q = to_list q.queue

-- What holds of a queue at every wait and return.
pub record IsSound (q : JobQueue) : Type 0 where
  pub valid : IsValid q.queue
  pub nonzero : All (λ j. j ≢ 0) (waiting q)

-- A queue that is not aborted was not aborted before.
abbrev pub Abides : JobQueue → JobQueue → Type 0
Abides q q' = is_abort q'.finish_mode ≡ false → is_abort q.finish_mode ≡ false

-- A call that hands out `job` has taken it from the front; 0 stands for NULL.
abbrev pub Takes : ℕ → JobQueue → JobQueue → Type 0
Takes job q q' =
    ((job ≢ 0) × (waiting q ≡ job ∷ waiting q') × Abides q q')
    ⊎ ((job ≡ 0) × (waiting q' ≡ waiting q) × Abides q q')

abbrev pub job_of : Popped → ℕ
job_of (Popped.done job b) = job
job_of (Popped.blocked full) = 0

pub marked-IsSound :
    (q : JobQueue)
    → IsSound q
    → let q' = (mark_state queue_abort q).0 in
      IsSound q' × (waiting q' ≡ waiting q) × (is_abort q'.finish_mode ≡ true)
unfolding mark_state
marked-IsSound q v = ground arith

pub clear_state-IsSound :
    (q : JobQueue)
    → IsSound q
    → let q' = clear_state q in
      IsSound q'
      × (is_abort q'.finish_mode ≡ is_abort q.finish_mode)
      × ((waiting q' ≡ []) × (is_abort q.finish_mode ≡ true) ⊎ (waiting q' ≡ waiting q))
unfolding clear_state
clear_state-IsSound q v = elim (Bool-cases (is_abort q.finish_mode)) [
  | inl aborted ↦
      let c = clear-IsValid q.queue in
      rw aborted (
        record { valid = c.0; nonzero = subst (All (λ j. j ≢ 0)) (sym c.1) tt },
        refl,
        inl (c.1, refl),
      )
  | inr live ↦ rw live (v, refl, inr refl)
]

-- The front of a list of jobs.
nonzero_front :
    (xs ys : List ℕ) (x : ℕ) → xs ≡ x ∷ ys → All (λ j. j ≢ 0) xs → (x ≢ 0) × All (λ j. j ≢ 0) ys
nonzero_front xs ys x e h = rw e at h

pop_front :
    (full : Bool) (q : JobQueue)
    → IsSound q
    → let (r, q') = pop_loop full (pop q.queue).0 (record q { queue = (pop q.queue).1 }) in
      IsSound q' × Takes (job_of r) q q'
unfolding pop_loop
pop_front full q v = elim (pop_lem q.queue v.valid) [
  | inl (no_job, same) ↦ rw same (ground arith)
  | inr taken ↦
      let front =
        nonzero_front (to_list q.queue) (to_list (pop q.queue).1) (pop q.queue).0 taken v.nonzero in
      let some_job : ((pop q.queue).0 == 0) ≡ false = ground arith in
      rw some_job (ground (arith, pop-IsValid q.queue v.valid))
]

pub pop_enter-Takes :
    (lock : LockResult) (q : JobQueue)
    → IsSound q
    → let (r, q') = pop_enter lock q in IsSound q' × Takes (job_of r) q q'
unfolding pop_enter mutex_lock
pop_enter-Takes locked q v = pop_front (is_full q.queue) q v
pop_enter-Takes busy q v = ground arith
pop_enter-Takes failed q v = ground (arith, marked-IsSound q v)

pub pop_wake-Takes :
    (full : Bool) (q : JobQueue)
    → IsSound q
    → let (r, q') = pop_wake full q in IsSound q' × Takes (job_of r) q q'
unfolding pop_wake
pop_wake-Takes full q v =
    if_split (λ (r : Popped × JobQueue). IsSound r.1 × Takes (job_of r.0) q r.1)
      (is_abort q.finish_mode) (pop_loop full 0 q)
      (pop_loop full (pop q.queue).0 (record q { queue = (pop q.queue).1 }))
      (λ aborted. unfold pop_loop in ground arith) (λ live. pop_front full q v)

-- A call that takes `job` in has put it at the end; 0 stands for a call that takes nothing in.
abbrev pub Gives : ℕ → JobQueue → JobQueue → Type 0
Gives job q q' =
    ((job ≢ 0) × (waiting q' ≡ waiting q ++ job ∷ []) × Abides q q')
    ⊎ ((job ≡ 0) × (waiting q' ≡ waiting q) × Abides q q')

abbrev pub taken_in : ℕ → Pushed → ℕ
taken_in job (Pushed.done none b) = 0
taken_in job (Pushed.done (some head) b) = job
taken_in job (Pushed.blocked empty later) = 0

-- Only jobs wait.
abbrev pub StillJob : Pushed → Type 0
StillJob (Pushed.done r b) = Unit {0}
StillJob (Pushed.blocked empty later) = later ≢ 0

push_back :
    (empty : Bool) (job : ℕ) (q : JobQueue)
    → IsSound q
    → job ≢ 0
    → IsSound (record q { queue = (push job q.queue).1 })
      × (((push job q.queue).0 ≡ none)
          ⊎ (waiting (record q { queue = (push job q.queue).1 }) ≡ waiting q ++ job ∷ []))
push_back empty job q v some_job = elim (push_lem job q.queue v.valid) [
  | inl (room, at, grown) ↦ (
    record {
      valid = push-IsValid job q.queue v.valid;
      nonzero =
          subst (All (λ j. j ≢ 0)) (sym grown)
            (All-append (λ (j : ℕ). j ≢ 0) (to_list q.queue) (job ∷ []) v.nonzero (some_job, tt));
    },
    inr grown,
  )
  | inr (full, same) ↦ rw same (v, inl refl)
]

push_loop-Gives :
    (empty : Bool) (job : ℕ) (q : JobQueue)
    → IsSound q
    → job ≢ 0
    → let (r, q') = push_loop empty job q in IsSound q' × Gives (taken_in job r) q q' × StillJob r
unfolding push_loop
push_loop-Gives empty job q v some_job =
    ground (arith, push_back empty job q v some_job, push_lem job q.queue v.valid)

-- What a result of `push` is required to be.
abbrev pub Sends : ℕ → JobQueue → Pushed × JobQueue → Type 0
Sends job q r = IsSound r.1 × Gives (taken_in job r.0) q r.1 × StillJob r.0

pub push_enter-Gives :
    (lock : LockResult) (job : ℕ) (q : JobQueue) → IsSound q → Sends job q (push_enter lock job q)
unfolding push_enter mutex_lock
push_enter-Gives locked job q v = elim (Bool-cases (job == 0)) [
  | inl null ↦ ground arith
  | inr some_job ↦
      let ne : job ≢ 0 = ground arith in
      ground (
        arith,
        push_loop-Gives (get_count q.queue == 0) job q v ne,
        push_back true job q v ne,
        push_lem job q.queue v.valid,
      )
]
push_enter-Gives busy job q v = ground arith
push_enter-Gives failed job q v = ground (arith, marked-IsSound q v)

pub push_wake-Gives :
    (empty : Bool) (job : ℕ) (q : JobQueue)
    → IsSound q
    → job ≢ 0
    → Sends job q (push_wake empty job q)
unfolding push_wake
push_wake-Gives empty job q v some_job = elim (Bool-cases (is_abort q.finish_mode)) [
  | inl aborted ↦ ground (arith, push_loop-Gives empty job q v some_job)
  | inr live ↦ ground (
    arith,
    push_loop-Gives empty job q v some_job,
    push_back true job q v some_job,
    push_lem job q.queue v.valid,
  )
]
