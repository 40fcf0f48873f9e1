-- ===== src/Plan/Started.antt =====
-- startSlice: each disk that has files left gives one.
use mathlib.Core.Path.{subst}
use parity_backup.Base.{
  ℕ, zero, suc, ◌+◌, ◌≤◌, ◌<◌, false, some, [], ◌∷◌, ◌≡◌, ◌≢◌, ◌⊎◌, inl, inr, arith, refl, sym, ap,
  ◌∙◌, Bool-cases, if_true, if_false, sum_upto-lt,
}
use parity_backup.Slice.{SliceDisk}
use parity_backup.Plan.{Config, Plan, NewFile, open_disk, disk_in_use}
use parity_backup.Plan.Hole.{init_slice_files}
use parity_backup.Plan.Rows.{Listed, left_count, left_total, left_count-le}
use parity_backup.Plan.Extends.{Extends}
use parity_backup.Plan.Sound.{Moves, Moves-trans, Extends-Moves, Sound, Extends-Sound}
use parity_backup.Plan.Start.{Started, note_started, start_disk, start_disks}
use parity_backup.Plan.Loop.{all_left}
use parity_backup.Plan.First.{InitOutcome, init_slice_files_lem}

-- The slice is empty.
pub record Fresh (config : Config) (p : Plan) : Type 0 where
  pub size : p.slice.slice_size ≡ 0
  pub sums : (i : ℕ) → i < config.disks → (p.slice.disks i).sum_files_len ≡ 0
  pub files : (i : ℕ) → i < config.disks → (p.slice.disks i).files_in_slice ≡ 0
  pub open_disks : (i : ℕ) → i < config.disks → (p.slice.disks i).disk_finished ≡ false

-- A disk that has given nothing and is not in use has nothing left.
nothing_to_give :
    (config : Config) (p : Plan) (i : ℕ)
    → p.consumed_size i + (p.slice.disks i).sum_files_len + left_total (p.newfiles i)
      ≡ config.files_size i
    → left_count (p.newfiles i) ≤ left_total (p.newfiles i)
    → (p.slice.disks i).sum_files_len ≡ 0
    → (p.slice.disks i).files_in_slice ≡ 0
    → (p.slice.disks i).disk_finished ≡ false
    → open_disk config p i ≡ false
    → left_count (p.newfiles i) ≡ 0
unfolding disk_in_use
nothing_to_give config p i accounts le sum files unfinished closed = ground arith

-- What startSlice has done with the disks below `j`, from the plan `p` on.
pub record StartInv (config : Config) (big : ℕ → ℕ) (p : Plan) (j : ℕ) (s : Started) : Type 0 where
  pub sound : Sound config big s.plan
  pub moves : Moves p s.plan
  pub same_disks : (i : ℕ) → j ≤ i → s.plan.slice.disks i ≡ p.slice.disks i
  pub same_rows : (i : ℕ) → j ≤ i → s.plan.newfiles i ≡ p.newfiles i
  pub outcome :
      ((s.active_disks ≡ 0)
        × (s.plan.slice.slice_size ≡ 0)
        × ((i : ℕ) → i < j → left_count (p.newfiles i) ≡ 0))
      ⊎ ((0 < s.active_disks)
          × (0 < s.plan.slice.slice_size)
          × (s.first < config.disks)
          × (all_left config s.plan < all_left config p)
          × (s.active_disks ≡ 1
              → (i : ℕ) → i < j
              → i ≢ s.first
              → left_count (s.plan.newfiles i) ≡ 0))

at_last : (i j : ℕ) → i < j + 1 → (i < j) ⊎ (i ≡ j)
at_last i j lt = omega arith

-- A disk with nothing left is passed over.
passed-StartInv :
    (config : Config) (big : ℕ → ℕ) (p : Plan) (j : ℕ) (s : Started)
    → StartInv config big p j s
    → left_count (s.plan.newfiles j) ≡ 0
    → StartInv config big p (j + 1) s
passed-StartInv config big p j s inv none_left = record {
  sound = inv.sound;
  moves = inv.moves;
  same_disks = λ i le. inv.same_disks i (omega arith);
  same_rows = λ i le. inv.same_rows i (omega arith);
  outcome = elim inv.outcome [
    | inl (idle, empty, done) ↦ inl (
      idle,
      empty,
      λ i lt. elim (at_last i j lt) [
        | inl before ↦ done i before
        | inr last ↦
            subst (λ (k : ℕ). left_count (p.newfiles k) ≡ 0) (sym last)
              (sym (ap left_count (inv.same_rows j (omega arith))) ∙ none_left)
      ],
    )
    | inr (active, filled, first, fewer, solo) ↦ inr (
      active,
      filled,
      first,
      fewer,
      λ one i lt ne. elim (at_last i j lt) [
        | inl before ↦ solo one i before ne
        | inr last ↦ subst (λ (k : ℕ). left_count (s.plan.newfiles k) ≡ 0) (sym last) none_left
      ],
    )
  ];
}

-- A disk has given a file.
given-StartInv :
    (config : Config) (big : ℕ → ℕ) (p : Plan) (j : ℕ) (s : Started) (f : NewFile) (q : Plan)
    → j < config.disks
    → StartInv config big p j s
    → 0 < f.size
    → Extends j (f ∷ []) s.plan q
    → Listed 0 (big j) (q.newfiles j)
    → StartInv config big p
        (j + 1)
        (record { plan = q; active_disks = s.active_disks + 1; first = j })
given-StartInv config big p j s f q lt inv some_size e listed =
    let sound = Extends-Sound config big j (f ∷ []) s.plan q lt inv.sound e listed in
    let step = Extends-Moves j (f ∷ []) s.plan q e in
    let moves = Moves-trans p s.plan q inv.moves step in
    let sum = e.sum in
    let above = sound.max.above j lt in
    let left = e.left in
    let rows : left_count (s.plan.newfiles j) ≡ left_count (p.newfiles j) =
      ap left_count (inv.same_rows j (omega arith)) in
    record {
      sound = sound;
      moves = moves;
      same_disks = λ i le. e.other_disks i (omega arith) ∙ inv.same_disks i (omega arith);
      same_rows = λ i le. e.other_rows i (omega arith) ∙ inv.same_rows i (omega arith);
      outcome = inr (
        omega arith,
        omega arith,
        lt,
        sum_upto-lt (λ i. left_count (q.newfiles i)) (λ i. left_count (p.newfiles i)) config.disks j
            (λ i lt'. moves.fewer i) lt (omega arith),
        λ one i lt' ne. elim inv.outcome [
          | inl (idle, empty, done) ↦ elim (at_last i j lt') [
            | inl before ↦ let was = done i before in let now = moves.fewer i in omega arith
            | inr last ↦ absurd (ne last)
          ]
          | inr (active, filled, first, fewer, solo) ↦ absurd (omega arith)
        ],
      );
    }

note_started-some :
    (j : ℕ) (s : Started) (size : ℕ) (q : Plan)
    → 0 < size
    → note_started j s (some (size, q))
      ≡ some (record { plan = q; active_disks = s.active_disks + 1; first = j })
note_started-some j s zero q lt = absurd (omega arith)
note_started-some j s (suc size) q lt = refl

start_disk-StartInv :
    (config : Config) (big : ℕ → ℕ) (p : Plan) (j : ℕ) (s : Started)
    → j < config.disks
    → Fresh config p
    → StartInv config big p j s
    → (t : Started) × (start_disk config j s ≡ some t) × StartInv config big p (j + 1) t
start_disk-StartInv config big p j s lt fresh inv =
    let sd_same = inv.same_disks j (omega arith) in
    let sound = inv.sound in
    elim (Bool-cases (open_disk config s.plan j)) [
      | inr closed ↦
          let nothing =
            nothing_to_give config s.plan j (sound.accounts j lt)
              (left_count-le (s.plan.newfiles j) (sound.no_empty j lt))
              (ap (λ (sd : SliceDisk). sd.sum_files_len) sd_same ∙ fresh.sums j lt)
              (ap (λ (sd : SliceDisk). sd.files_in_slice) sd_same ∙ fresh.files j lt)
              (ap (λ (sd : SliceDisk). sd.disk_finished) sd_same ∙ fresh.open_disks j lt) closed in
          (s, if_false _ _ (some s) closed, passed-StartInv config big p j s inv nothing)
      | inl opened ↦
          let gives : InitOutcome config j (big j) s.plan =
            init_slice_files_lem config j (big j) s.plan (sound.listed j lt) (sound.in_range j lt)
              (sound.no_empty j lt) in
          let goes =
            if_true _ (note_started j s (init_slice_files config j s.plan)) (some s) opened in
          elim gives [
            | inl (nothing, same) ↦
                (s, goes ∙ ap (note_started j s) same, passed-StartInv config big p j s inv nothing)
            | inr (f, q, given, some_size, extends, listed) ↦ (
              record { plan = q; active_disks = s.active_disks + 1; first = j },
              goes ∙ (ap (note_started j s) given ∙ note_started-some j s f.size q some_size),
              given-StartInv config big p j s f q lt inv some_size extends listed,
            )
          ]
    ]

pub start_disks-StartInv :
    (config : Config) (big : ℕ → ℕ) (p : Plan) (left j : ℕ) (s : Started)
    → j + left ≡ config.disks
    → Fresh config p
    → StartInv config big p j s
    → (t : Started) × (start_disks config left j s ≡ some t) × StartInv config big p config.disks t
start_disks-StartInv config big p zero j s e fresh inv =
    (s, refl, subst (λ (k : ℕ). StartInv config big p k s) (omega arith) inv)
start_disks-StartInv config big p (suc left) j s e fresh inv =
    let (t, stepped, inv1) = start_disk-StartInv config big p j s (omega arith) fresh inv in
    let (u, goes, inv2) =
      start_disks-StartInv config big p left (j + 1) t (omega arith) fresh inv1 in
    (u, rw (stepped, start_disks) goes, inv2)
