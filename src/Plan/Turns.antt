-- ===== src/Plan/Turns.antt =====
-- The turns of createSlices: each but the last lays a file, finishes a disk or finishes the slice.
use mathlib.Core.Path.{subst}
use parity_backup.Base.{
  ℕ, ◌+◌, ◌-◌, ◌≤◌, ◌<◌, Bool, true, false, ◌==◌, if◌then◌else◌, none, some, List, ◌≡◌, ◌⊎◌, inl,
  inr, arith, refl, sym, ap, Bool-cases, sum_upto, sum_upto-le, sum_upto-lt, length,
}
use parity_backup.Slice.{SliceDisk}
use parity_backup.Plan.{
  Config, Plan, NewFile, open_disk, disk_in_use, select_next_disk, lack, abs_ℤ, compute_fill_factor,
}
use parity_backup.Base.{Run, returns}
use parity_backup.Plan.Hole.{add_file2slice, fill_hole}
use parity_backup.Plan.Rows.{left_count, Listed}
use parity_backup.Plan.Stats.{KnowsMax, percent_diff_cases}
use parity_backup.Plan.Select.{select_next_disk_cases}
use parity_backup.Plan.Extends.{Extends}
use parity_backup.Plan.Filled.{has_work}
use parity_backup.Plan.Runs.{fill_hole-Filled}
use parity_backup.Plan.Sound.{Moves, Extends-Moves, Sound, Extends-Sound, still_filled}
use parity_backup.Plan.Started.{Fresh}
use parity_backup.Plan.Cleared.{clear_slice_stat_lem}
use parity_backup.Plan.Loop.{Planning, head_row, commit_head, finish_slice, grow_slice, all_left}

-- How many disks are not finished.
abbrev pub open_count : Config → Plan → ℕ
open_count config p = sum_upto (λ i. if (p.slice.disks i).disk_finished then 0 else 1) config.disks

-- What is left to do within the slice.
abbrev pub rest_of_slice : Config → Plan → ℕ
rest_of_slice config p = if p.slice.slice_size == 0 then 1 else open_count config p + 2

-- Less is left than before: fewer files, or as many and less to do in the slice.
abbrev pub Less : Config → Plan → Plan → Type 0
Less config q p =
    (all_left config q < all_left config p)
    ⊎ ((all_left config q ≤ all_left config p) × (rest_of_slice config q < rest_of_slice config p))

pub all_left-le : (config : Config) (p q : Plan) → Moves p q → all_left config q ≤ all_left config p
all_left-le config p q m =
    sum_upto-le (λ i. left_count (q.newfiles i)) (λ i. left_count (p.newfiles i)) config.disks
      (λ i lt. m.fewer i)

-- A turn goes on with a sound plan, and less is left.
pub record GoesOn (config : Config) (big : ℕ → ℕ) (s : Planning) (r : Run (Bool × Planning))
    : Type 0 where
  pub next : Planning
  pub returned : r ≡ returns (true, next)
  pub sound : Sound config big next.plan
  pub moves : Moves s.plan next.plan
  pub less : Less config next.plan s.plan
  pub ended :
      ((next.plan.slice.slice_size ≡ 0) × Fresh config next.plan × (next.begun ≡ none))
      ⊎ ((0 < next.plan.slice.slice_size) × (next.begun ≡ s.begun))

-- A slice that holds a file is finished.
pub finish_slice-GoesOn :
    (config : Config) (big : ℕ → ℕ) (s : Planning)
    → 0 < config.disks
    → Sound config big s.plan
    → 0 < s.plan.slice.slice_size
    → GoesOn config big s (finish_slice config s)
unfolding finish_slice
finish_slice-GoesOn config big s some_disk sound filled =
    let fill = compute_fill_factor config none s.plan in
    let p : Plan = record s.plan { slice = record s.plan.slice { fill_factor = fill } } in
    let (q, gives, sound1, fresh, moves) = clear_slice_stat_lem config big p some_disk (record {
      listed = sound.listed;
      in_range = sound.in_range;
      no_empty = sound.no_empty;
      accounts = sound.accounts;
      max = record {
        in_range = sound.max.in_range;
        of_max = sound.max.of_max;
        above = sound.max.above;
      };
    }) in
    let empty = fresh.size in
    let same : Moves s.plan q = record { counts = moves.counts; fewer = moves.fewer } in
    record {
      next = commit_head (head_row fill s.plan.slice) s q;
      returned = rw (gives, finish_slice) refl;
      sound = sound1;
      moves = same;
      less = inr (all_left-le config s.plan q same, ground arith);
      ended = inl (empty, fresh, refl);
    }

-- A disk that is chosen has a hole to fill and is not at its limit.
chosen-has_work :
    (config : Config) (p : Plan) (d : ℕ)
    → KnowsMax config.disks p.slice
    → d < config.disks
    → open_disk config p d ≡ true
    → config.percent_tolerance < abs_ℤ (lack config p d)
    → has_work config d
        ((p.slice.disks p.slice.max_filled_disk).sum_files_len - (p.slice.disks d).sum_files_len)
        p
      ≡ true
unfolding disk_in_use
chosen-has_work config p d k lt opened far =
    let above = k.above d lt in
    let top = k.of_max in
    let cases =
      percent_diff_cases config (p.slice.disks d).sum_files_len
        (p.slice.disks p.slice.max_filled_disk).sum_files_len in
    elim cases [
      | inl same ↦ absurd (let e = ap abs_ℤ same in omega arith)
      | inr (inl (less, by, sign)) ↦ ground arith
      | inr (inr (more, by, sign)) ↦ absurd (omega arith)
    ]

-- Of the other disks none is opened, and the disk is finished.
open_count-lt :
    (config : Config) (d : ℕ) (ys : List NewFile) (p q : Plan)
    → d < config.disks
    → Extends d ys p q
    → (p.slice.disks d).disk_finished ≡ false
    → (q.slice.disks d).disk_finished ≡ true
    → open_count config q < open_count config p
open_count-lt config d ys p q lt e was now =
    sum_upto-lt (λ i. if (q.slice.disks i).disk_finished then 0 else 1)
      (λ i. if (p.slice.disks i).disk_finished then 0 else 1) config.disks d
      (λ i lt'. elim (Bool-cases (i == d)) [
        | inl own ↦
            let same : d ≡ i = ground arith in
            let done : (q.slice.disks i).disk_finished ≡ true = rw same at now in
            rw done (omega arith)
        | inr other ↦
            let kept : (q.slice.disks i).disk_finished ≡ (p.slice.disks i).disk_finished =
              ap (λ (sd : SliceDisk). sd.disk_finished) (e.other_disks i (ground arith)) in
            rw kept (omega arith)
      ])
      lt (rw (was, now) (omega arith))

-- The extension of the disk that was chosen.
grown-GoesOn :
    (config : Config) (big : ℕ → ℕ) (s : Planning) (d : ℕ) (ys : List NewFile) (q : Plan)
    → d < config.disks
    → Sound config big s.plan
    → 0 < s.plan.slice.slice_size
    → Extends d ys s.plan q
    → Listed 0 (big d) (q.newfiles d)
    → (s.plan.slice.disks d).disk_finished ≡ false
    → (0 < length ys) ⊎ ((q.slice.disks d).disk_finished ≡ true)
    → GoesOn config big s (returns (true, record s { plan = q }))
grown-GoesOn config big s d ys q lt sound filled e listed was_open progress =
    let sound1 = Extends-Sound config big d ys s.plan q lt sound e listed in
    let moves = Extends-Moves d ys s.plan q e in
    let filled1 = still_filled config big d ys s.plan q sound sound1 e filled in
    let left = e.left in
    record {
      next = record s { plan = q };
      returned = refl;
      sound = sound1;
      moves = moves;
      less = elim progress [
        | inl laid ↦ inl (
            sum_upto-lt (λ i. left_count (q.newfiles i)) (λ i. left_count (s.plan.newfiles i))
              config.disks d (λ i lt'. moves.fewer i) lt (omega arith))
        | inr done ↦
            let fewer_open = open_count-lt config d ys s.plan q lt e was_open done in
            inr (all_left-le config s.plan q moves, ground arith)
      ];
      ended = inr (filled1, refl);
    }

grow_ready :
    (fuel : ℕ) (config : Config) (s : Planning)
    → select_next_disk config s.plan ≡ none
    → grow_slice fuel config s ≡ finish_slice config s
unfolding grow_slice add_file2slice
grow_ready fuel config s ready = rw (ready, grow_slice, add_file2slice) refl

grow_chosen :
    (fuel : ℕ) (config : Config) (s : Planning) (d : ℕ) (q : Plan)
    → select_next_disk config s.plan ≡ some d
    → fill_hole fuel config d
        ((s.plan.slice.disks s.plan.slice.max_filled_disk).sum_files_len
          - (s.plan.slice.disks d).sum_files_len)
        s.plan
      ≡ returns q
    → grow_slice fuel config s ≡ returns (true, record s { plan = q })
unfolding grow_slice add_file2slice
grow_chosen fuel config s d q chosen filled =
    rw (chosen, grow_slice, add_file2slice) (rw (filled, grow_slice, add_file2slice) refl)

pub grow_slice-GoesOn :
    (fuel : ℕ) (config : Config) (big : ℕ → ℕ) (s : Planning)
    → config.max_size_disk < config.disks
    → Sound config big s.plan
    → 0 < s.plan.slice.slice_size
    → ((i : ℕ) → i < config.disks → left_count (s.plan.newfiles i) + 2 ≤ fuel)
    → GoesOn config big s (grow_slice fuel config s)
grow_slice-GoesOn fuel config big s in_range sound filled enough =
    elim (select_next_disk_cases config s.plan in_range) [
      | inl (ready, all) ↦
          subst (GoesOn config big s) (sym (grow_ready fuel config s ready))
            (finish_slice-GoesOn config big s (omega arith) sound filled)
      | inr (d, chosen, lt, opened, far, most) ↦
          let p = s.plan in
          let hole =
            (p.slice.disks p.slice.max_filled_disk).sum_files_len
            - (p.slice.disks d).sum_files_len in
          let f = fill_hole-Filled fuel config d hole (big d) p (sound.listed d lt) (enough d lt) in
          subst (GoesOn config big s) (sym (grow_chosen fuel config s d f.result chosen f.returned))
            (grown-GoesOn config big s d f.ys f.result lt sound filled f.extends f.listed
              (ground arith) (f.progress (chosen-has_work config p d sound.max lt opened far)))
    ]
