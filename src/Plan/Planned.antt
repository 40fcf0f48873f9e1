-- ===== src/Plan/Planned.antt =====
-- createSlices: it ends, and each file is planned as often as it is marked.
use parity_backup.Base.{
  ℕ, zero, suc, ◌+◌, ◌*◌, ◌≤◌, ◌<◌, Bool, true, false, not, ◌&&◌, ◌==◌, leb, if◌then◌else◌, Option,
  none, some, List, All, ◌≡◌, ◌⊎◌, inl, inr, arith, refl, if_split, if_true, sum_upto_bound,
  term-le-sum_upto,
}
use parity_backup.Base.Int.{ℤ, negsuc}
use parity_backup.Plan.{Config, Plan}
use parity_backup.Plan.Insert.{long_max}
use parity_backup.Base.{Run, returns}
use parity_backup.Plan.Rows.{Listed, left_count, left_total, row_sizes, marked_count}
use parity_backup.Plan.Sound.{placed, Moves, Moves-same, Moves-trans}
use parity_backup.Plan.Started.{start_disks-StartInv}
use parity_backup.Plan.Turns.{rest_of_slice, Less, grow_slice-GoesOn}
use parity_backup.Plan.Whole.{
  Going, Stops, TurnOutcome, GoesOn-TurnOutcome, start_state, start_StartInv, start_slice-eq,
  go_on-TurnOutcome,
}
use parity_backup.Plan.Start.{start_slice, slice_id_of}
use parity_backup.Plan.Loop.{
  Planning, SliceHead, all_left, after_start, grow_slice, plan_turn, plan_loop, plan_slices,
  empty_slice, roll_back, close_plan,
}

module _ (fuel : ℕ) (config : Config) (big : ℕ → ℕ) (p0 : Plan)
    (in_range : config.max_size_disk < config.disks) where
  -- The start of a slice: a file is laid, or nothing is left on any disk.
  start-TurnOutcome :
      (stamp : List ℕ) (canceled : Bool) (s : Planning)
      → Going config big p0 s
      → (0 < s.plan.slice.slice_size → ⊥)
      → ((i : ℕ) → i < config.disks → left_count (s.plan.newfiles i) + 2 ≤ fuel)
      → TurnOutcome config big canceled p0 s
          (after_start fuel config s (start_slice config stamp s.slc_count s.plan))
  start-TurnOutcome stamp canceled s g empty enough = elim g.ready [
    | inr filled ↦ absurd (empty filled)
    | inl (fresh, closed) ↦
        let sid = slice_id_of stamp_count stamp in
        let (t, goes, inv) =
          start_disks-StartInv config big _ config.disks 0 (start_state sid s.plan) (omega arith)
            (record {
              size = fresh.size;
              sums = fresh.sums;
              files = fresh.files;
              open_disks = fresh.open_disks;
            })
            (start_StartInv config big sid s.plan g.sound fresh) in
        let eq = start_slice-eq config stamp s.slc_count s.plan t goes in
        rw eq (elim inv.outcome [
          | inl (idle, still_empty, nothing) ↦
              let now : t.plan.slice.slice_size == 0 ≡ true = ground arith in
              rw now (
                inl (
                  record s { plan = t.plan; begun = some s.plan },
                  refl,
                  record {
                    based = Moves-trans p0 s.plan _ g.moves (Moves-same s.plan _ refl refl);
                    reason = inr (inr nothing);
                  },
                ))
          | inr (active, filled, first, fewer, solo) ↦
              let now : t.plan.slice.slice_size == 0 ≡ false = ground arith in
              rw now (
                go_on-TurnOutcome fuel config big canceled p0 s sid t (s.slc_count + 1) in_range
                  g.moves inv active filled first fewer solo enough)
        ])
  ]
    where
      stamp_count : ℕ
      stamp_count = s.slc_count

  plan_turn-TurnOutcome :
      (stamp : List ℕ) (canceled : Bool) (s : Planning)
      → Going config big p0 s
      → ((i : ℕ) → i < config.disks → left_count (s.plan.newfiles i) + 2 ≤ fuel)
      → TurnOutcome config big canceled p0 s (plan_turn fuel config stamp canceled s)
  unfolding plan_turn
  plan_turn-TurnOutcome stamp canceled s g enough =
      let T = TurnOutcome config big canceled p0 s in
      if_split T canceled _ _ (λ stop. inl (s, refl, record { based = g.based; reason = inl stop }))
        (λ goes.
          if_split T (s.plan.slice.slice_size == 0) _ _
            (λ empty.
              if_split T (not (config.max_slices == 0) && leb config.max_slices s.slc_count) _ _
                (λ limit. inl (
                  s,
                  refl,
                  record { based = g.based; reason = inr (inl (ground arith, ground arith)) },
                ))
                (λ more.
                  start-TurnOutcome stamp canceled s g (λ filled. absurd (ground arith)) enough))
            (λ filled.
              let size : 0 < s.plan.slice.slice_size = ground arith in
              GoesOn-TurnOutcome config big canceled p0 s s (grow_slice fuel config s) g.moves
                (λ q. open_base q) (λ q l. l)
                (grow_slice-GoesOn fuel config big s in_range g.sound size enough)))
    where
      open_base : (q : Plan) → Moves p0 (roll_back s.begun q) ⊎ (s.begun ≡ none)
      open_base q = base s.begun g.based
        where
          base :
              (b : Option Plan)
              → Moves p0 (roll_back b s.plan)
              → Moves p0 (roll_back b q) ⊎ (b ≡ none)
          base none m = inr refl
          base (some old) m = inl (record { counts = m.counts; fewer = m.fewer })

rest_bound : (config : Config) (p : Plan) → rest_of_slice config p < config.disks + 3
rest_bound config p =
    let bound =
      sum_upto_bound (λ i. if (p.slice.disks i).disk_finished then 0 else 1) config.disks
        (λ i. ground arith) in
    ground arith

-- What is left to do, in one number.
abbrev weight : Config → Plan → ℕ
weight config p = all_left config p * (config.disks + 3) + rest_of_slice config p

mul_gap : (a b m c d : ℕ) → a < b → c < m → a * m + c < b * m + d
mul_gap a b m c d lt less = grind arith

mul_same : (a b m c d : ℕ) → a ≤ b → c < d → a * m + c < b * m + d
mul_same a b m c d le less = grind arith

weight_lt : (config : Config) (q p : Plan) → Less config q p → weight config q < weight config p
weight_lt config q p (inl fewer) =
    mul_gap (all_left config q) (all_left config p) (config.disks + 3) (rest_of_slice config q)
      (rest_of_slice config p) fewer (rest_bound config q)
weight_lt config q p (inr (same, less)) =
    mul_same (all_left config q) (all_left config p) (config.disks + 3) (rest_of_slice config q)
      (rest_of_slice config p) same less

-- The loop from turn `k` on, with more turns than the weight: it is left.
plan_loop-Stops :
    (turns fuel : ℕ) (config : Config) (big : ℕ → ℕ) (stamps : ℕ → List ℕ) (canceled : ℕ → Bool)
    → (p0 : Plan) (k : ℕ) (s : Planning) → config.max_size_disk < config.disks
    → Going config big p0 s
    → all_left config p0 + 2 ≤ fuel
    → weight config s.plan < turns
    → (t : Planning) × (j : ℕ) × (plan_loop turns fuel config stamps canceled k s
        ≡ returns (canceled (j + 1), t))
      × Stops config (canceled j) p0 t
unfolding plan_loop
plan_loop-Stops zero fuel config big stamps canceled p0 k s in_range g enough less =
    absurd (omega arith)
plan_loop-Stops (suc turns) fuel config big stamps canceled p0 k s in_range g enough less =
    elim (plan_turn-TurnOutcome fuel config big p0 in_range (stamps k) (canceled k) s g (λ i lt.
      let here = term-le-sum_upto (λ j. left_count (p0.newfiles j)) config.disks i lt in
      let fewer = g.moves.fewer i in omega arith)) [
        | inl (t, ends, stops) ↦ (t, k, rw (ends, plan_loop) refl, stops)
        | inr (t, goes, g1, lighter) ↦
            let lt = weight_lt config t.plan s.plan lighter in
            let (u, j, rest, stops) =
              plan_loop-Stops turns fuel config big stamps canceled p0 (k + 1) t in_range g1 enough
                (omega arith) in
            (u, j, rw (goes, plan_loop) rest, stops)
      ]

-- The rows as the lists of files load them: on each disk the sizes descend along ascending seqs, no
-- file is empty or larger than a long holds, and the size of the disk's files is what was planned before and what is left.
pub record Loaded (config : Config) (big : ℕ → ℕ) (p : Plan) : Type 0 where
  pub in_range : config.max_size_disk < config.disks
  pub listed : (i : ℕ) → i < config.disks → Listed 0 (big i) (p.newfiles i)
  pub largest : (i : ℕ) → i < config.disks → big i ≤ long_max
  pub no_empty : (i : ℕ) → i < config.disks → All (λ n. 0 < n) (row_sizes (p.newfiles i))
  pub accounts :
      (i : ℕ)
      → i < config.disks
      → p.consumed_size i + left_total (p.newfiles i) ≡ config.files_size i

-- What `plan_slices-PlansAll` states.
abbrev pub PlansAll : Config → (ℕ → Bool) → Plan → Run (ℤ × Planning) → Type 0
PlansAll config canceled p r =
    (n : ℤ) × (s : Planning) × (r ≡ returns (n, s))
    × ((disk : ℕ) (nm : List ℕ)
        → placed disk nm s.plan.slpos + marked_count nm (p.newfiles disk)
          ≡ placed disk nm p.slpos + marked_count nm (s.plan.newfiles disk))
    × (((n ≡ negsuc 0) × (k : ℕ) × (canceled k ≡ true))
        ⊎ ((0 < config.max_slices) × (config.max_slices ≤ s.slc_count))
        ⊎ ((i : ℕ) → i < config.disks → left_count (s.plan.newfiles i) ≡ 0))

-- Suppose that maxSizeDisk is one of the disks, that on each disk the rows of newfiles have descending
-- sizes along ascending seqs, none of them 0 or more than a long holds, that the size of the disk's
-- files is what was planned before and what is left, and that the flag of cancellation stays set once it is set. Then the loop of createSlices ends, and not by
-- log_fatal. For each disk and each path it has added as many positions to slpos as it has marked
-- rows of newfiles. Either the result is -1 and the flag was set, or the limit on the count of slices
-- is set and reached, or no row is left without a mark.
pub plan_slices-PlansAll :
    (config : Config) (big : ℕ → ℕ) (stamps : ℕ → List ℕ) (canceled : ℕ → Bool)
    → (heads : List SliceHead) (p : Plan) → ((k : ℕ) → canceled k ≡ true → canceled (k + 1) ≡ true)
    → Loaded config big p
    → PlansAll config canceled p (plan_slices config stamps canceled heads p)
unfolding plan_slices
plan_slices-PlansAll config big stamps canceled heads p stays h =
    let p1 : Plan = record p { slice = empty_slice } in
    let s0 : Planning = record { plan = p1; slheads = heads; slc_count = 0; begun = none } in
    let lt = h.in_range in
    let (t, j, ends, stops) =
      plan_loop-Stops (all_left config p * (config.disks + 3) + 2) (all_left config p + 2) config
        big stamps canceled p 0 s0 lt
        (record {
          sound = record {
            listed = h.listed;
            in_range = h.largest;
            no_empty = h.no_empty;
            accounts = λ i lt'. let a = h.accounts i lt' in omega arith;
            max = record { in_range = omega arith; of_max = refl; above = λ i lt'. omega arith };
          };
          moves = Moves-same p p1 refl refl;
          based = Moves-same p p1 refl refl;
          ready = inl (
            record {
              size = refl;
              sums = λ i lt'. refl;
              files = λ i lt'. refl;
              open_disks = λ i lt'. refl;
            },
            refl,
          );
        })
        (omega arith) (omega arith) in
    let r = close_plan (canceled (j + 1), t) in
    (
      r.0,
      r.1,
      rw (ends, plan_slices) refl,
      stops.based.counts,
      elim stops.reason [ inl c ↦ inl (if_true _ _ _ (stays j c), j, c) | inr other ↦ inr other ],
    )
