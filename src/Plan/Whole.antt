-- ===== src/Plan/Whole.antt =====
-- What a turn of createSlices keeps, and the turn after startSlice.
use mathlib.Core.Path.{subst}
use parity_backup.Base.{
  ℕ, ◌+◌, ◌≤◌, ◌<◌, Bool, true, false, ◌==◌, Option, none, some, List, ◌≡◌, ◌≢◌, ◌⊎◌, inl, inr,
  arith, refl, sym, ◌∙◌, Bool-cases, if_true, if_false,
}
use parity_backup.Plan.{Config, Plan}
use parity_backup.Base.{Run, returns}
use parity_backup.Plan.Rows.{left_count}
use parity_backup.Plan.Sound.{Moves, Moves-refl, Moves-same, Moves-trans, Sound}
use parity_backup.Plan.Started.{Fresh, StartInv}
use parity_backup.Plan.Cleared.{copy_rest_lem}
use parity_backup.Plan.Turns.{Less, all_left-le, GoesOn, finish_slice-GoesOn, grow_slice-GoesOn}
use parity_backup.Plan.Start.{Started, solo_disk, start_disks, start_slice, with_id, slice_id_of}
use parity_backup.Plan.Loop.{Planning, all_left, finish_slice, grow_slice, go_on, roll_back}

-- The state between two turns, from the plan `p0` on.
pub record Going (config : Config) (big : ℕ → ℕ) (p0 : Plan) (s : Planning) : Type 0 where
  pub sound : Sound config big s.plan
  pub moves : Moves p0 s.plan
  pub based : Moves p0 (roll_back s.begun s.plan)
  pub ready : (Fresh config s.plan × (s.begun ≡ none)) ⊎ (0 < s.plan.slice.slice_size)

-- The loop is left: the tables after a ROLLBACK, and why.
pub record Stops (config : Config) (canceled : Bool) (p0 : Plan) (s : Planning) : Type 0 where
  pub based : Moves p0 (roll_back s.begun s.plan)
  pub reason :
      (canceled ≡ true)
      ⊎ ((0 < config.max_slices) × (config.max_slices ≤ s.slc_count))
      ⊎ ((i : ℕ) → i < config.disks → left_count ((roll_back s.begun s.plan).newfiles i) ≡ 0)

abbrev pub TurnOutcome : Config → (ℕ → ℕ) → Bool → Plan → Planning → Run (Bool × Planning) → Type 0
TurnOutcome config big canceled p0 s r =
    ((t : Planning) × (r ≡ returns (false, t)) × Stops config canceled p0 t)
    ⊎ ((t : Planning) × (r ≡ returns (true, t)) × Going config big p0 t × Less config t.plan s.plan)

-- A turn that goes on from `s1`, where less is left than in `s`.
pub GoesOn-TurnOutcome :
    (config : Config) (big : ℕ → ℕ) (canceled : Bool) (p0 : Plan) (s s1 : Planning)
    → (r : Run (Bool × Planning)) → Moves p0 s1.plan
    → ((q : Plan) → Moves p0 (roll_back s1.begun q) ⊎ (s1.begun ≡ none))
    → ((q : Plan) → Less config q s1.plan → Less config q s.plan)
    → GoesOn config big s1 r
    → TurnOutcome config big canceled p0 s r
GoesOn-TurnOutcome config big canceled p0 s s1 r moves based less g =
    let next = g.next in
    let all_moves = Moves-trans p0 s1.plan next.plan moves g.moves in
    let none_open : next.begun ≡ none → Moves p0 (roll_back next.begun next.plan) =
      λ e. subst (λ (b : Option Plan). Moves p0 (roll_back b next.plan)) (sym e) all_moves in
    inr (
      next,
      g.returned,
      record {
        sound = g.sound;
        moves = all_moves;
        based = elim g.ended [
          | inl (empty, fresh, e) ↦ none_open e
          | inr (filled, e) ↦ elim (based next.plan) [
            | inl m ↦ subst (λ (b : Option Plan). Moves p0 (roll_back b next.plan)) (sym e) m
            | inr n ↦ none_open (e ∙ n)
          ]
        ];
        ready = elim g.ended [
          | inl (empty, fresh, e) ↦ inl (fresh, e)
          | inr (filled, e) ↦ inr filled
        ];
      },
      less next.plan g.less,
    )

-- The state from which startSlice starts its loop.
abbrev pub start_state : List ℕ → Plan → Started
start_state sid p = record { plan = with_id sid p; active_disks = 0; first = 0 }

pub start_StartInv :
    (config : Config) (big : ℕ → ℕ) (sid : List ℕ) (p : Plan)
    → Sound config big p
    → Fresh config p
    → StartInv config big (with_id sid p) 0 (start_state sid p)
start_StartInv config big sid p s f = record {
  sound = record {
    listed = s.listed;
    in_range = s.in_range;
    no_empty = s.no_empty;
    accounts = s.accounts;
    max = record { in_range = s.max.in_range; of_max = s.max.of_max; above = s.max.above };
  };
  moves = Moves-refl (with_id sid p);
  same_disks = λ i le. refl;
  same_rows = λ i le. refl;
  outcome = inl (refl, f.size, λ i lt. absurd (omega arith));
}

pub start_slice-eq :
    (config : Config) (stamp : List ℕ) (n : ℕ) (p : Plan) (t : Started)
    → start_disks config config.disks 0 (start_state (slice_id_of n stamp) p) ≡ some t
    → start_slice config stamp n p ≡ some (solo_disk t, t.plan)
unfolding start_slice
start_slice-eq config stamp n p t e = rw (e, start_slice) refl

-- After startSlice, with a slice that holds a file.
pub go_on-TurnOutcome :
    (fuel : ℕ) (config : Config) (big : ℕ → ℕ) (canceled : Bool) (p0 : Plan) (s : Planning)
    → (sid : List ℕ) (t : Started) (count : ℕ) → config.max_size_disk < config.disks
    → Moves p0 s.plan
    → StartInv config big (with_id sid s.plan) config.disks t
    → 0 < t.active_disks
    → 0 < t.plan.slice.slice_size
    → t.first < config.disks
    → all_left config t.plan < all_left config s.plan
    → (t.active_disks ≡ 1
        → (i : ℕ) → i < config.disks
        → i ≢ t.first
        → left_count (t.plan.newfiles i) ≡ 0)
    → ((i : ℕ) → i < config.disks → left_count (s.plan.newfiles i) + 2 ≤ fuel)
    → TurnOutcome config big canceled p0 s (
        go_on fuel config
          (solo_disk t)
          (record s { plan = t.plan; begun = some s.plan; slc_count = count }))
unfolding go_on
go_on-TurnOutcome fuel config big canceled p0 s sid t count in_range moves inv active filled first
      fewer solo enough =
    let s1 : Planning = record s { plan = t.plan; begun = some s.plan; slc_count = count } in
    let started : Moves s.plan t.plan = record {
      counts = inv.moves.counts;
      fewer = inv.moves.fewer;
    } in
    let all = Moves-trans p0 s.plan t.plan moves started in
    let based : (q : Plan) → Moves p0 (roll_back (some s.plan) q) = λ q.
      Moves-trans p0 s.plan (roll_back (some s.plan) q) moves
        (Moves-same s.plan (roll_back (some s.plan) q) refl refl) in
    let less : (q : Plan) → Less config q t.plan → Less config q s.plan =
      λ q l. inl (elim l [ inl a ↦ omega arith | inr (a, b) ↦ omega arith ]) in
    elim (Bool-cases (t.active_disks == 1)) [
      | inr many ↦
          let goes = if_false _ (some t.first) none many in
          rw goes (
            GoesOn-TurnOutcome config big canceled p0 s s1 (grow_slice fuel config s1) all
              (λ q. inl (based q)) less
              (grow_slice-GoesOn fuel config big s1 in_range inv.sound filled
                (λ i lt. let now = started.fewer i in let was = enough i lt in omega arith)))
      | inl one ↦
          let goes = if_true _ (some t.first) none one in
          let (q, copied, sound1, moves1, filled1) =
            copy_rest_lem config big t.first t.plan first inv.sound filled (solo (ground arith)) in
          let s2 : Planning = record s1 { plan = q } in
          let copy_left = all_left-le config t.plan q moves1 in
          rw goes (
            rw (copied, go_on)
              (GoesOn-TurnOutcome config big canceled p0 s s2 (finish_slice config s2)
                (Moves-trans p0 t.plan q all moves1) (λ q. inl (based q))
                (λ r l. inl (elim l [ inl a ↦ omega arith | inr (a, b) ↦ omega arith ]))
                (finish_slice-GoesOn config big s2 (omega arith) sound1 filled1)))
    ]
