-- ===== src/Queue/Threads.antt =====
-- Threads that share one JobQueue: what holds in every state that they reach.
use mathlib.Core.Path.{subst}
use parity_backup.Base.{
  ℕ, zero, suc, Bool, false, List, [], ◌∷◌, ◌++◌, none, some, ◌≡◌, ◌≢◌, inl, inr, arith, All,
  append_assoc, append-nil, refl, sym, ◌∙◌, ap,
}
use parity_backup.Queue.{TinyQueue}
use parity_backup.Queue.Job.{
  JobQueue, QueueState, create_job_queue, Popped, Pushed, is_abort, pop_enter, pop_wake, push_enter,
  push_wake,
}
use parity_backup.Queue.Calls.{
  waiting, IsSound, Takes, job_of, Gives, taken_in, StillJob, marked-IsSound, clear_state-IsSound,
  pop_enter-Takes, pop_wake-Takes, push_enter-Gives, push_wake-Gives,
}
use parity_backup.Queue.Shared.{
  System, with_popped, with_pushed, Step, pops, pop_wakes, push_tests, pushes, push_wakes,
  push_overwrites, cancels, clears, Reach, here, next, start,
}

-- The first list is what is left of the second if some of its entries are dropped.
pub data Sub : List ℕ → List ℕ → Type 0 where
  nothing : Sub [] []
  keeps : {xs ys : List ℕ} (x : ℕ) → Sub xs ys → Sub (x ∷ xs) (x ∷ ys)
  drops : {xs ys : List ℕ} (x : ℕ) → Sub xs ys → Sub xs (x ∷ ys)

Sub-refl : (xs : List ℕ) → Sub xs xs
Sub-refl [] = nothing
Sub-refl (x ∷ xs) = keeps x (Sub-refl xs)

Sub-append : {xs ys us vs : List ℕ} → Sub xs ys → Sub us vs → Sub (xs ++ us) (ys ++ vs)
Sub-append nothing t = t
Sub-append (keeps x s) t = keeps x (Sub-append s t)
Sub-append (drops x s) t = drops x (Sub-append s t)

Sub-back : {xs ys : List ℕ} (y : ℕ) → Sub xs ys → Sub xs (ys ++ y ∷ [])
Sub-back y nothing = drops y nothing
Sub-back y (keeps x s) = keeps x (Sub-back y s)
Sub-back y (drops x s) = drops x (Sub-back y s)

Sub-none : (ys : List ℕ) → Sub [] ys
Sub-none [] = nothing
Sub-none (y ∷ ys) = drops y (Sub-none ys)

Sub-front : {zs ys : List ℕ} (xs us : List ℕ) → Sub zs ys → zs ≡ xs ++ us → Sub xs ys
Sub-front {zs} {ys} [] us s e = Sub-none ys
Sub-front (x ∷ xs) us nothing e = absurd cc
Sub-front (x ∷ xs) us (keeps {xs = zs} {ys = ys} z s) e =
    let same : z ≡ x = cc in
    let rest : zs ≡ xs ++ us = cc in
    subst (λ (h : ℕ). Sub (x ∷ xs) (h ∷ ys)) (sym same) (keeps x (Sub-front xs us s rest))
Sub-front (x ∷ xs) us (drops z s) e = drops z (Sub-front (x ∷ xs) us s e)

-- What holds in every state: the jobs handed out and those that wait are some of those taken in, in
-- order, and all of them as long as the queue is not aborted.
pub record Inv (s : System) : Type 0 where
  pub sound : IsSound s.queue
  pub jobs_wait : All (λ (p : Bool × ℕ). p.1 ≢ 0) s.pushers
  pub ordered : Sub (s.popped ++ waiting s.queue) s.pushed
  pub kept : is_abort s.queue.finish_mode ≡ false → s.pushed ≡ s.popped ++ waiting s.queue

All-split {ℓ κ} :
    {A : Type ℓ} (P : A → Type κ) (xs ys : List A) (x : A)
    → All P (xs ++ x ∷ ys)
    → P x × All P (xs ++ ys)
All-split P [] ys x h = h
All-split P (y ∷ xs) ys x h = let rest = All-split P xs ys x h.1 in (rest.0, (h.0, rest.1))

-- A job that a call has handed out or taken in stands in the account of these calls; 0 is no job.
abbrev noted : List ℕ → ℕ → List ℕ
noted jobs zero = jobs
noted jobs (suc job) = jobs ++ suc job ∷ []

noted_job : (jobs : List ℕ) (job : ℕ) → job ≢ 0 → noted jobs job ≡ jobs ++ job ∷ []
noted_job jobs zero h = ground arith
noted_job jobs (suc job) h = refl

-- The accounts of jobs taken in and handed out, and a queue.
abbrev Accounts : List ℕ → List ℕ → JobQueue → Type 0
Accounts pushed popped q =
    Sub (popped ++ waiting q) pushed
    × (is_abort q.finish_mode ≡ false → pushed ≡ popped ++ waiting q)

-- The accounts after a call that hands out `job`, or none.
popped-Accounts :
    (s : System) (job : ℕ) (q' : JobQueue)
    → Inv s
    → Takes job s.queue q'
    → Accounts s.pushed (noted s.popped job) q'
popped-Accounts s job q' v (inl (some_job, front, mode)) =
    let moved : s.popped ++ waiting s.queue ≡ noted s.popped job ++ waiting q' =
      ap (λ (w : List ℕ). s.popped ++ w) front
      ∙ sym (append_assoc s.popped (job ∷ []) (waiting q'))
      ∙ ap (λ (p : List ℕ). p ++ waiting q') (sym (noted_job s.popped job some_job)) in
    (subst (λ (w : List ℕ). Sub w s.pushed) moved v.ordered, λ h. v.kept (mode h) ∙ moved)
popped-Accounts s job q' v (inr (null, same, mode)) =
    let still : s.popped ++ waiting s.queue ≡ noted s.popped job ++ waiting q' =
      rw (null, same) refl in
    (subst (λ (w : List ℕ). Sub w s.pushed) still v.ordered, λ h. v.kept (mode h) ∙ still)

popped-Inv :
    (s : System) (others : List Bool) (r : Popped) (q' : JobQueue)
    → Inv s
    → IsSound q' × Takes (job_of r) s.queue q'
    → Inv (with_popped s others (r, q'))
popped-Inv s others (Popped.done zero b) q' v (sound, takes) =
    let (ordered, kept) = popped-Accounts s 0 q' v takes in
    record { sound = sound; jobs_wait = v.jobs_wait; ordered = ordered; kept = kept }
popped-Inv s others (Popped.done (suc job) b) q' v (sound, takes) =
    let (ordered, kept) = popped-Accounts s (suc job) q' v takes in
    record { sound = sound; jobs_wait = v.jobs_wait; ordered = ordered; kept = kept }
popped-Inv s others (Popped.blocked full) q' v (sound, takes) =
    let (ordered, kept) = popped-Accounts s 0 q' v takes in
    record { sound = sound; jobs_wait = v.jobs_wait; ordered = ordered; kept = kept }

-- The accounts after a call that takes in `job`, or none.
pushed-Accounts :
    (s : System) (job : ℕ) (q' : JobQueue)
    → Inv s
    → Gives job s.queue q'
    → Accounts (noted s.pushed job) s.popped q'
pushed-Accounts s job q' v (inl (some_job, back, mode)) =
    let grown : (s.popped ++ waiting s.queue) ++ job ∷ [] ≡ s.popped ++ waiting q' =
      append_assoc s.popped (waiting s.queue) (job ∷ [])
      ∙ ap (λ (w : List ℕ). s.popped ++ w) (sym back) in
    let note = noted_job s.pushed job some_job in
    (
      subst (λ (w : List ℕ). Sub w (noted s.pushed job)) grown
          (subst (λ (p : List ℕ). Sub ((s.popped ++ waiting s.queue) ++ job ∷ []) p) (sym note)
            (Sub-append v.ordered (Sub-refl (job ∷ [])))),
      λ h. note ∙ ap (λ (w : List ℕ). w ++ job ∷ []) (v.kept (mode h)) ∙ grown,
    )
pushed-Accounts s job q' v (inr (null, same, mode)) =
    let still : s.popped ++ waiting s.queue ≡ s.popped ++ waiting q' = rw same refl in
    rw null (subst (λ (w : List ℕ). Sub w s.pushed) still v.ordered, λ h. v.kept (mode h) ∙ still)

pushed-Inv :
    (s : System) (others : List (Bool × ℕ)) (job : ℕ) (r : Pushed) (q' : JobQueue)
    → Inv s
    → All (λ (p : Bool × ℕ). p.1 ≢ 0) others
    → IsSound q' × Gives (taken_in job r) s.queue q' × StillJob r
    → Inv (with_pushed s others job (r, q'))
pushed-Inv s others zero (Pushed.done none b) q' v wait (sound, gives, still) =
    let (ordered, kept) = pushed-Accounts s 0 q' v gives in
    record { sound = sound; jobs_wait = wait; ordered = ordered; kept = kept }
pushed-Inv s others zero (Pushed.done (some head) b) q' v wait (sound, gives, still) =
    let (ordered, kept) = pushed-Accounts s 0 q' v gives in
    record { sound = sound; jobs_wait = wait; ordered = ordered; kept = kept }
pushed-Inv s others (suc job) (Pushed.done none b) q' v wait (sound, gives, still) =
    let (ordered, kept) = pushed-Accounts s 0 q' v gives in
    record { sound = sound; jobs_wait = wait; ordered = ordered; kept = kept }
pushed-Inv s others (suc job) (Pushed.done (some head) b) q' v wait (sound, gives, still) =
    let (ordered, kept) = pushed-Accounts s (suc job) q' v gives in
    record { sound = sound; jobs_wait = wait; ordered = ordered; kept = kept }
pushed-Inv s others zero (Pushed.blocked empty later) q' v wait (sound, gives, still) =
    let (ordered, kept) = pushed-Accounts s 0 q' v gives in
    record { sound = sound; jobs_wait = (still, wait); ordered = ordered; kept = kept }
pushed-Inv s others (suc job) (Pushed.blocked empty later) q' v wait (sound, gives, still) =
    let (ordered, kept) = pushed-Accounts s 0 q' v gives in
    record { sound = sound; jobs_wait = (still, wait); ordered = ordered; kept = kept }

Step-Inv : {s t : System} → Inv s → Step s t → Inv t
Step-Inv {s} v (pops lock) =
    let out = pop_enter lock s.queue in
    popped-Inv s s.poppers out.0 out.1 v (pop_enter-Takes lock s.queue v.sound)
Step-Inv {s} v (pop_wakes full xs ys at) =
    let out = pop_wake full s.queue in
    popped-Inv s (xs ++ ys) out.0 out.1 v (pop_wake-Takes full s.queue v.sound)
Step-Inv {s} v (push_tests job goes) = record {
  sound = v.sound;
  jobs_wait = v.jobs_wait;
  ordered = v.ordered;
  kept = v.kept;
}
Step-Inv {s} v (pushes lock job xs ys at) =
    let out = push_enter lock job s.queue in
    let s1 : System = record s { entering = xs ++ ys } in
    let v1 : Inv s1 = record {
      sound = v.sound;
      jobs_wait = v.jobs_wait;
      ordered = v.ordered;
      kept = v.kept;
    } in
    pushed-Inv s1 s.pushers job out.0 out.1 v1 v.jobs_wait
      (push_enter-Gives lock job s.queue v.sound)
Step-Inv {s} v (push_wakes empty job xs ys at) =
    let out = push_wake empty job s.queue in
    let (some_job, others) =
      All-split (λ (p : Bool × ℕ). p.1 ≢ 0) xs ys (empty, job)
        (subst (All (λ (p : Bool × ℕ). p.1 ≢ 0)) at v.jobs_wait) in
    pushed-Inv s (xs ++ ys) job out.0 out.1 v others
      (push_wake-Gives empty job s.queue v.sound some_job)
Step-Inv {s} v (push_overwrites xs ys at run) =
    let (sound, same, aborted) = marked-IsSound s.queue v.sound in
    record {
      sound = record { valid = sound.valid; nonzero = sound.nonzero };
      jobs_wait = v.jobs_wait;
      ordered = subst (λ (w : List ℕ). Sub (s.popped ++ w) s.pushed) (sym same) v.ordered;
      kept = λ h. v.kept (ap is_abort run) ∙ ap (λ (w : List ℕ). s.popped ++ w) (sym same);
    }
Step-Inv {s} v cancels =
    let (sound, same, aborted) = marked-IsSound s.queue v.sound in
    record {
      sound = sound;
      jobs_wait = v.jobs_wait;
      ordered = subst (λ (w : List ℕ). Sub (s.popped ++ w) s.pushed) (sym same) v.ordered;
      kept = λ h. absurd (ground arith);
    }
Step-Inv {s} v clears =
    let (sound, mode, waits) = clear_state-IsSound s.queue v.sound in
    elim waits [
      | inl (empty, aborted) ↦ record {
        sound = sound;
        jobs_wait = v.jobs_wait;
        ordered =
            subst (λ (w : List ℕ). Sub (s.popped ++ w) s.pushed) (sym empty)
              (subst (λ (p : List ℕ). Sub p s.pushed) (sym (append-nil s.popped))
                (Sub-front s.popped (waiting s.queue) v.ordered refl));
        kept = λ h. absurd (ground arith);
      }
      | inr same ↦ record {
        sound = sound;
        jobs_wait = v.jobs_wait;
        ordered = subst (λ (w : List ℕ). Sub (s.popped ++ w) s.pushed) (sym same) v.ordered;
        kept = λ h. v.kept (sym mode ∙ h) ∙ ap (λ (w : List ℕ). s.popped ++ w) (sym same);
      }
    ]

start-Inv : (q : JobQueue) → IsSound q → Inv (start q)
start-Inv q v = record {
  sound = v;
  jobs_wait = tt;
  ordered = Sub-refl (waiting q);
  kept = λ h. refl;
}

Reach-Inv : (q : JobQueue) → IsSound q → {s : System} → Reach (start q) s → Inv s
Reach-Inv q v here = start-Inv q v
Reach-Inv q v (next reach step) = Step-Inv (Reach-Inv q v reach) step

-- Let a JobQueue be made over a queue that is valid and holds no NULL, in any state and mode. Whatever
-- the threads then do, cancellation and failures to lock included, the jobs that pop has handed
-- out are some of those that the queue was filled with and push has taken in, in the same order:
-- none is handed out twice, before an earlier one or without having been pushed.
pub jobs_in_order :
    (squeue : TinyQueue) (state : QueueState) (wait_mode : Bool) (s : System)
    → IsSound (create_job_queue squeue state wait_mode)
    → Reach (start (create_job_queue squeue state wait_mode)) s
    → Sub s.popped s.pushed
jobs_in_order squeue state wait_mode s sound reach =
    let v = Reach-Inv (create_job_queue squeue state wait_mode) sound reach in
    Sub-front s.popped (waiting s.queue) v.ordered refl

-- Let a JobQueue be made over a queue that is valid and holds no NULL, in any state and mode. In each
-- state that the threads reach where finishMode is not QUEUE_ABORT, the jobs that the queue was
-- filled with and push has taken in are those that pop has handed out and then those that wait in
-- the queue, in order: no job is lost, doubled or overtaken.
pub jobs_kept :
    (squeue : TinyQueue) (state : QueueState) (wait_mode : Bool) (s : System)
    → IsSound (create_job_queue squeue state wait_mode)
    → Reach (start (create_job_queue squeue state wait_mode)) s
    → is_abort s.queue.finish_mode ≡ false
    → s.pushed ≡ s.popped ++ waiting s.queue
jobs_kept squeue state wait_mode s sound reach live =
    (Reach-Inv (create_job_queue squeue state wait_mode) sound reach).kept live
