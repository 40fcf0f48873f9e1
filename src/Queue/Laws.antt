-- ===== src/Queue/Laws.antt =====
-- TinyQueue as a first-in first-out list.
use parity_backup.Base.{
  ℕ, zero, suc, ◌+◌, ◌-◌, ◌≤◌, none, some, List, [], ◌∷◌, ◌++◌, update, ◌==◌, ltb, ◌≡◌, ◌⊎◌, inl,
  inr, arith, length, refl, ap, ◌∙◌, Bool-cases, true, false, ap, sym,
}
use parity_backup.Queue.{
  TinyQueue, create, clear, pop, push, is_full, get_count, entries, to_list, IsValid,
}

-- Writes outside the range do not show.
entries-update : (r : ℕ → ℕ) (n i h v : ℕ) → i + n ≤ h → entries (update r h v) n i ≡ entries r n i
unfolding entries
entries-update r zero i h v le = refl
entries-update r (suc n) i h v le =
    let miss : (i == h) ≡ false = ground arith in
    rw (miss, entries-update r n (i + 1) h v (omega arith))

entries-last : (r : ℕ → ℕ) (n i : ℕ) → entries r (suc n) i ≡ entries r n i ++ r (i + n) ∷ []
unfolding entries
entries-last r zero i = let e : i + 0 ≡ i = omega arith in rw e
entries-last r (suc n) i =
    let e : i + suc n ≡ i + 1 + n = omega arith in
    rw e (ap (λ (xs : List ℕ). r i ∷ xs) (entries-last r n (i + 1)))

length-entries : (r : ℕ → ℕ) (n i : ℕ) → length (entries r n i) ≡ n
unfolding entries
length-entries r zero i = refl
length-entries r (suc n) i = ap suc (length-entries r n (i + 1))

pub create-IsValid : (n : ℕ) → IsValid (create n) × (to_list (create n) ≡ [])
unfolding create to_list entries
create-IsValid n = (record { ordered = omega arith; bounded = omega arith }, refl)

pub clear-IsValid : (q : TinyQueue) → IsValid (clear q) × (to_list (clear q) ≡ [])
unfolding clear to_list entries
clear-IsValid q = (record { ordered = omega arith; bounded = omega arith }, refl)

pub push-IsValid : (job : ℕ) (q : TinyQueue) → IsValid q → IsValid (push job q).1
unfolding push
push-IsValid job q v = ground arith

pub pop-IsValid : (q : TinyQueue) → IsValid q → IsValid (pop q).1
unfolding pop
pop-IsValid q v = ground arith

pub get_count-length : (q : TinyQueue) → get_count q ≡ length (to_list q)
unfolding get_count to_list
get_count-length q = sym (length-entries q.rowids (q.head - q.tail) q.tail)

appended :
    (job : ℕ) (q : TinyQueue)
    → IsValid q
    → is_full q ≡ false
    → to_list (push job q).1 ≡ to_list q ++ job ∷ []
unfolding push to_list is_full
appended job q v room =
    let below : ltb q.head q.size ≡ true = ground (arith, v.bounded) in
    let one_more : q.head + 1 - q.tail ≡ suc (q.head - q.tail) = omega arith in
    let at_head : q.tail + (q.head - q.tail) ≡ q.head = omega arith in
    let hit : (q.head == q.head) ≡ true = ground arith in
    rw (below, one_more)
      (entries-last (update q.rowids q.head job) (q.head - q.tail) q.tail
        ∙ rw (
          at_head,
          hit,
          entries-update q.rowids (q.head - q.tail) q.tail q.head job (omega arith),
        ))

-- A push on a queue that is not full appends the job; on a full queue it fails and changes nothing.
pub push_lem :
    (job : ℕ) (q : TinyQueue)
    → IsValid q
    → ((is_full q ≡ false)
        × ((push job q).0 ≡ some (q.head + 1))
        × (to_list (push job q).1 ≡ to_list q ++ job ∷ []))
      ⊎ ((is_full q ≡ true) × (push job q ≡ (none, q)))
push_lem job q v = elim (Bool-cases (is_full q)) [
  | inl full ↦ inr (full, unfold push is_full in ground arith)
  | inr room ↦ inl (room, unfold push is_full in ground arith, appended job q v room)
]

-- A pop of an empty queue gives NULL and changes nothing; else it takes the oldest job.
pub pop_lem :
    (q : TinyQueue)
    → IsValid q
    → ((to_list q ≡ []) × (pop q ≡ (0, q))) ⊎ (to_list q ≡ (pop q).0 ∷ to_list (pop q).1)
unfolding pop to_list entries
pop_lem q v = elim (Bool-cases (q.head == q.tail)) [
  | inl hit ↦ let none_left : q.head - q.tail ≡ 0 = ground arith in inl (rw none_left, rw hit)
  | inr miss ↦
      let some_left : q.head - q.tail ≡ suc (q.head - (q.tail + 1)) = ground arith in
      inr (rw (some_left, miss))
]

-- As many jobs as `n`, popped one after the other.
abbrev pub pop_all : ℕ → TinyQueue → List ℕ × TinyQueue
pop_all zero q = ([], q)
pop_all (suc n) q = let r = pop q in let more = pop_all n r.1 in (r.0 ∷ more.0, more.1)

pop_all_lem :
    (n : ℕ) (q : TinyQueue)
    → IsValid q
    → get_count q ≡ n
    → ((pop_all n q).0 ≡ to_list q)
      × (get_count (pop_all n q).1 ≡ 0)
      × (is_full (pop_all n q).1 ≡ is_full q)
      × (((pop_all n q).1).size ≡ q.size)
unfolding pop is_full get_count to_list entries
pop_all_lem zero q v e = (rw e refl, e, refl, refl)
pop_all_lem (suc n) q v e =
    let miss : (q.head == q.tail) ≡ false = ground arith in
    let ordered = v.ordered in
    let q1 : TinyQueue = record q { tail = q.tail + 1 } in
    let (jobs, none_left, full, size) =
      pop_all_lem n q1 (record { ordered = omega arith; bounded = v.bounded }) (omega arith) in
    let rest : q.head - (q.tail + 1) ≡ n = omega arith in
    rw (miss, e)
      (rw rest at (ap (λ (js : List ℕ). q.rowids q.tail ∷ js) jobs), none_left, full, size)

-- Cells are never used again: when all jobs of a full queue are popped, in order, the queue is empty
-- and still full, and each push on it fails.
pub drained_full :
    (q : TinyQueue) (job : ℕ)
    → IsValid q
    → is_full q ≡ true
    → ((pop_all (get_count q) q).0 ≡ to_list q)
      × (get_count (pop_all (get_count q) q).1 ≡ 0)
      × (is_full (pop_all (get_count q) q).1 ≡ true)
      × ((push job (pop_all (get_count q) q).1).0 ≡ none)
unfolding push is_full
drained_full q job v full =
    let (jobs, none_left, same, size) = pop_all_lem (get_count q) q v refl in
    let still : is_full (pop_all (get_count q) q).1 ≡ true = same ∙ full in
    (jobs, none_left, still, ground arith)
