-- ===== src/Plan/Cleared.antt =====
-- clearSliceStat, and the copy of what is left of the only active disk.
use mathlib.Core.Path.{subst}
use parity_backup.Base.{
  ℕ, zero, suc, ◌+◌, ◌<◌, true, false, ◌==◌, none, some, List, [], ◌∷◌, ◌++◌, All, update,
  count_loop_upto, ltb, ◌≡◌, ◌≢◌, ◌⊎◌, inl, inr, arith, refl, sym, ap, ◌∙◌, Bool-cases, if_true,
  if_false,
}
use parity_backup.Slice.{set_disk}
use parity_backup.Plan.{Config, Plan, NewFile, clear_disks, clear_slice_stat}
use parity_backup.Plan.Rows.{Listed, row_sizes, left_count, left_total}
use parity_backup.Plan.Fill.{insert2slice_outcome}
use parity_backup.Plan.Sound.{
  Moves, Moves-refl, Moves-same, Extends-Moves, Sound, still_filled, Extends-Sound,
}
use parity_backup.Plan.Started.{Fresh}
use parity_backup.Plan.Loop.{left_group, left_groups, copy_rest}

-- The disks below `i` are cleared, the others as in `p`.
record ClearInv (config : Config) (p : Plan) (i : ℕ) (q : Plan) : Type 0 where
  size : q.slice.slice_size ≡ 0
  fullest : q.slice.max_filled_disk ≡ 0
  positions : q.slpos ≡ p.slpos
  rows : q.newfiles ≡ p.newfiles
  sums : (k : ℕ) → k < i → (q.slice.disks k).sum_files_len ≡ 0
  files : (k : ℕ) → k < i → (q.slice.disks k).files_in_slice ≡ 0
  open_disks : (k : ℕ) → k < i → (q.slice.disks k).disk_finished ≡ false
  accounts :
      (k : ℕ)
      → k < config.disks
      → q.consumed_size k + (q.slice.disks k).sum_files_len + left_total (p.newfiles k)
        ≡ config.files_size k

-- The plan with disk `i` cleared.
abbrev cleared : ℕ → Plan → Plan
cleared i p =
    let sd = p.slice.disks i in
    record p {
      consumed_size = update p.consumed_size i (p.consumed_size i + sd.sum_files_len);
      slice =
          set_disk p.slice i
            (record sd { files_in_slice = 0; sum_files_len = 0; disk_finished = false });
    }

same_index : (k i : ℕ) → (k == i) ≡ true → i ≡ k
same_index k i h = ground arith

cleared-ClearInv :
    (config : Config) (p : Plan) (i : ℕ) (q : Plan)
    → i < config.disks
    → ClearInv config p i q
    → ClearInv config p (i + 1) (cleared i q)
cleared-ClearInv config p i q lt inv = record {
  size = inv.size;
  fullest = inv.fullest;
  positions = inv.positions;
  rows = inv.rows;
  sums = λ k lt'. elim (Bool-cases (k == i)) [
    | inl own ↦ rw own refl
    | inr other ↦ rw other (inv.sums k (ground arith))
  ];
  files = λ k lt'. elim (Bool-cases (k == i)) [
    | inl own ↦ rw own refl
    | inr other ↦ rw other (inv.files k (ground arith))
  ];
  open_disks = λ k lt'. elim (Bool-cases (k == i)) [
    | inl own ↦ rw own refl
    | inr other ↦ rw other (inv.open_disks k (ground arith))
  ];
  accounts = λ k lt'. elim (Bool-cases (k == i)) [
    | inl own ↦
        let old = inv.accounts i lt in
        let same : i ≡ k = same_index k i own in
        let at_i : q.consumed_size i
              + (q.slice.disks i).sum_files_len
              + 0
              + left_total (p.newfiles i)
            ≡ config.files_size i =
          omega arith in
        rw own (
          subst
            (λ (m : ℕ).
              q.consumed_size i + (q.slice.disks i).sum_files_len + 0 + left_total (p.newfiles m)
              ≡ config.files_size m)
            same at_i)
    | inr other ↦ rw other (inv.accounts k lt')
  ];
}

clear_disks-ClearInv :
    (config : Config) (p : Plan) (left i : ℕ) (q : Plan)
    → i + left ≡ config.disks
    → ClearInv config p i q
    → (r : Plan) × (clear_disks config left i q ≡ some r) × ClearInv config p config.disks r
clear_disks-ClearInv config p zero i q e inv =
    (q, refl, subst (λ (k : ℕ). ClearInv config p k q) (omega arith) inv)
clear_disks-ClearInv config p (suc left) i q e inv =
    let old = inv.accounts i (omega arith) in
    let fits : ltb (config.files_size i) (q.consumed_size i + (q.slice.disks i).sum_files_len)
        ≡ false =
      ground arith in
    let (r, goes, inv1) =
      clear_disks-ClearInv config p left (i + 1) (cleared i q) (omega arith)
        (cleared-ClearInv config p i q (omega arith) inv) in
    (r, if_false _ none _ fits ∙ goes, inv1)

-- After clearSliceStat the slice is empty and the tables are as before.
pub clear_slice_stat_lem :
    (config : Config) (big : ℕ → ℕ) (p : Plan)
    → 0 < config.disks
    → Sound config big p
    → (q : Plan) × (clear_slice_stat config p ≡ some q)
      × Sound config big q
      × Fresh config q
      × Moves p q
unfolding clear_slice_stat
clear_slice_stat_lem config big p some_disk s =
    let (q, gives, inv) =
      clear_disks-ClearInv config p config.disks 0
        (record p {
          slice = record p.slice { slice_size = 0; max_filled_disk = 0; files_count = 0 };
        })
        (omega arith)
        (record {
          size = refl;
          fullest = refl;
          positions = refl;
          rows = refl;
          sums = λ k lt. absurd (omega arith);
          files = λ k lt. absurd (omega arith);
          open_disks = λ k lt. absurd (omega arith);
          accounts = s.accounts;
        }) in
    let size = inv.size in
    let fullest = inv.fullest in
    let row_eq : (i : ℕ) → q.newfiles i ≡ p.newfiles i =
      λ i. ap (λ (f : ℕ → List NewFile). f i) inv.rows in
    (
      q,
      gives,
      record {
        listed = λ i lt. subst (Listed 0 (big i)) (sym (row_eq i)) (s.listed i lt);
        in_range = s.in_range;
        no_empty = λ i lt.
            subst (λ (rs : List NewFile). All (λ n. 0 < n) (row_sizes rs)) (sym (row_eq i))
              (s.no_empty i lt);
        accounts = λ i lt.
            let left : left_total (q.newfiles i) ≡ left_total (p.newfiles i) =
              ap left_total (row_eq i) in
            let now = inv.accounts i lt in omega arith;
        max = record {
          in_range = omega arith;
          of_max =
              ap (λ (i : ℕ). (q.slice.disks i).sum_files_len) fullest
              ∙ (inv.sums 0 some_disk ∙ sym size);
          above = λ i lt. let none_there = inv.sums i lt in omega arith;
        };
      },
      record { size = size; sums = inv.sums; files = inv.files; open_disks = inv.open_disks },
      Moves-same p q inv.positions inv.rows,
    )

-- The groups where at most the disk `solo` has rows left.
AtMostOne : ℕ → ℕ → List (ℕ × ℕ) → Type 0
AtMostOne solo j groups = (groups ≡ []) ⊎ ((g : ℕ × ℕ) × (solo < j) × (groups ≡ g ∷ []))

left_groups-AtMostOne :
    (config : Config) (solo : ℕ) (p : Plan)
    → ((i : ℕ) → i < config.disks → i ≢ solo → left_count (p.newfiles i) ≡ 0)
    → AtMostOne solo config.disks (left_groups config p)
unfolding AtMostOne
left_groups-AtMostOne config solo p others =
    count_loop_upto (AtMostOne solo) (λ i groups. left_group (p.newfiles i) groups) config.disks []
      (λ j groups lt h. elim (Bool-cases (j == solo)) [
        | inr other ↦
            let empty : left_count (p.newfiles j) == 0 ≡ true =
              let e = others j lt (ground arith) in ground arith in
            rw
              (if_true _ groups
                (groups ++ (left_count (p.newfiles j), left_total (p.newfiles j)) ∷ []) empty)
              (elim h [ inl e ↦ inl e | inr (g, lt', e) ↦ inr (g, omega arith, e) ])
        | inl own ↦
            let g : ℕ × ℕ = (left_count (p.newfiles j), left_total (p.newfiles j)) in
            let e : groups ≡ [] = elim h [ inl e ↦ e | inr (g, lt', e) ↦ absurd (ground arith) ] in
            elim (Bool-cases (left_count (p.newfiles j) == 0)) [
              | inl empty ↦ inl (if_true _ groups (groups ++ g ∷ []) empty ∙ e)
              | inr some_left ↦ inr (
                g,
                ground arith,
                if_false _ groups (groups ++ g ∷ []) some_left
                    ∙ ap (λ (gs : List (ℕ × ℕ)). gs ++ g ∷ []) e,
              )
            ]
      ])
      (inl refl)

-- The rest of the only disk with rows is copied.
pub copy_rest_lem :
    (config : Config) (big : ℕ → ℕ) (solo : ℕ) (p : Plan)
    → solo < config.disks
    → Sound config big p
    → 0 < p.slice.slice_size
    → ((i : ℕ) → i < config.disks → i ≢ solo → left_count (p.newfiles i) ≡ 0)
    → (q : Plan) × (copy_rest config solo (left_groups config p) p ≡ some q)
      × Sound config big q
      × Moves p q
      × (0 < q.slice.slice_size)
unfolding AtMostOne copy_rest
copy_rest_lem config big solo p lt s filled others =
    of_groups (left_groups config p) (left_groups-AtMostOne config solo p others)
  where
    inserted :
        (files sizes : ℕ)
        → (q : Plan) × (copy_rest config solo ((files, sizes) ∷ []) p ≡ some q)
          × Sound config big q
          × Moves p q
          × (0 < q.slice.slice_size)
    inserted files sizes =
        elim (insert2slice_outcome config solo 0 0 files sizes (big solo) p (s.listed solo lt)) [
          | inl (fails, in_range, bad) ↦ absurd (ground arith)
          | inr (q, ys, zs, gives, split, whole, extends, listed) ↦ (
            q,
            rw (gives, copy_rest) refl,
            Extends-Sound config big solo ys p q lt s extends listed,
            Extends-Moves solo ys p q extends,
            still_filled config big solo ys p q s
                (Extends-Sound config big solo ys p q lt s extends listed) extends filled,
          )
        ]

    of_groups :
        (groups : List (ℕ × ℕ))
        → AtMostOne solo config.disks groups
        → (q : Plan) × (copy_rest config solo groups p ≡ some q)
          × Sound config big q
          × Moves p q
          × (0 < q.slice.slice_size)
    of_groups [] h = (p, refl, s, Moves-refl p, filled)
    of_groups ((files, sizes) ∷ []) h = inserted files sizes
    of_groups (g ∷ h ∷ gs) (inl e) = absurd cc
    of_groups (g ∷ h ∷ gs) (inr (k, lt', e)) = absurd cc
