-- ===== src/Queue.antt =====
-- utils.h and utils.cpp: the class TinyQueue, an array of row ids that is filled from `head` and
-- emptied from `tail`. The array is a function of the index with the `size` that was allocated.
-- jobqueue.cpp is in the child Job, and the threads that share a queue in Shared.
pub mod Laws
pub mod Job
pub mod Calls
pub mod Shared
pub mod Threads
use parity_backup.Base.{
  ℕ, zero, suc, ◌+◌, ◌-◌, ◌≤◌, Bool, Option, none, some, List, [], ◌∷◌, update, if◌then◌else◌, ◌==◌,
  ltb,
}

pub record TinyQueue : Type 0 where
  pub rowids : ℕ → ℕ
  pub size : ℕ
  pub tail : ℕ
  pub head : ℕ

-- The constructor: calloc gives zeros.
unfoldable pub create : ℕ → TinyQueue
create qsize = record { rowids = λ i. 0; size = qsize; tail = 0; head = 0 }

pub clear : TinyQueue → TinyQueue
clear q = record q { rowids = λ i. 0; head = 0; tail = 0 }

-- The popped row id, or 0 for NULL.
unfoldable pub pop : TinyQueue → ℕ × TinyQueue
pop q = if q.head == q.tail then (0, q) else (q.rowids q.tail, record q { tail = q.tail + 1 })

-- The new head, or `none` for -1.
unfoldable pub push : ℕ → TinyQueue → Option ℕ × TinyQueue
push job q =
    if ltb q.head q.size
    then (some (q.head + 1), record q { rowids = update q.rowids q.head job; head = q.head + 1 })
    else (none, q)

unfoldable pub is_full : TinyQueue → Bool
is_full q = q.head == q.size

unfoldable pub get_count : TinyQueue → ℕ
get_count q = q.head - q.tail

-- The entries from `i` on, `n` of them.
unfoldable pub entries : (ℕ → ℕ) → ℕ → ℕ → List ℕ
entries rowids zero i = []
entries rowids (suc n) i = rowids i ∷ entries rowids n (i + 1)

-- The abstract view: the jobs that wait, oldest first.
unfoldable pub to_list : TinyQueue → List ℕ
to_list q = entries q.rowids (q.head - q.tail) q.tail

pub record IsValid (q : TinyQueue) : Type 0 where
  pub ordered : q.tail ≤ q.head
  pub bounded : q.head ≤ q.size
