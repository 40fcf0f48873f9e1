-- ===== src/Plan/Select.antt =====
-- selectNextDisk.
use mathlib.Core.Path.{subst}
use parity_backup.Base.{
  ℕ, ◌+◌, ◌≤◌, ◌<◌, Bool, true, none, some, count_loop, count_loop_upto, if◌then◌else◌, ◌==◌, ltb,
  leb, ◌≡◌, ◌⊎◌, inl, inr, arith, refl, sym, ap, ◌∙◌, Bool-cases, if_split, leb→le, if_true,
  if_false, not, ◌&&◌,
}
use parity_backup.Base.Int.{ℤ, pos, pos_part, neg_part, ◌≤ℤ◌, ltb_ℤ}
use parity_backup.Plan.{Config, Plan, Choice, choice_step, select_next_disk, open_disk, abs_ℤ, lack}
use parity_backup.Plan.Stats.{percent_diff_cases, Within, Beyond, percent_diff_lem}

-- What the loop has found among the disks below `j`, with `diff i` for the lack of a disk.
record Found (opened : ℕ → Bool) (diff : ℕ → ℤ) (max_size_disk j : ℕ) (c : Choice) : Type 0 where
  lowest : (i : ℕ) → i < j → opened i ≡ true → c.max_percent ≤ℤ diff i
  choice :
      ((c.next_disk ≡ none) × (c.max_percent ≡ pos 0))
      ⊎ ((d : ℕ) × (c.next_disk ≡ some d)
          × (d < j)
          × (opened d ≡ true)
          × (c.max_percent ≡ diff d)
          × (0 < neg_part (diff d)))
  of_max_size :
      max_size_disk < j
      → opened max_size_disk ≡ true
      → c.max_size_percent ≡ abs_ℤ (diff max_size_disk)

at_last : (i j : ℕ) → i < j + 1 → (i < j) ⊎ (i ≡ j)
at_last i j lt = omega arith

canon : (a : ℤ) → (pos_part a ≡ 0) ⊎ (neg_part a ≡ 0)
canon a = ground arith

-- The choice never has a positive lack.
choice_low :
    (opened : ℕ → Bool) (diff : ℕ → ℤ) (m j : ℕ) (c : Choice)
    → Found opened diff m j c
    → pos_part c.max_percent ≡ 0
choice_low opened diff m j c f = elim f.choice [
  | inl (e, z) ↦ ap pos_part z
  | inr (d, e, lt, o, same, neg) ↦ ap pos_part same ∙ omega (arith, canon (diff d))
]

-- An open disk that lacks more than the choice so far, or one that does not, is noted.
open_Found :
    (opened : ℕ → Bool) (diff : ℕ → ℤ) (m j share : ℕ) (c : Choice)
    → Found opened diff m j c
    → opened j ≡ true
    → share ≡ (if j == m then abs_ℤ (diff j) else c.max_size_percent)
    → let lower = ltb_ℤ (diff j) c.max_percent in
      Found opened diff m (j + 1) (record {
        max_percent = if lower then diff j else c.max_percent;
        next_disk = if lower then some j else c.next_disk;
        max_size_percent = share;
      })
open_Found opened diff m j share c f is_open noted =
    let low = choice_low opened diff m j c f in
    record {
      lowest = λ i lt o. elim (at_last i j lt) [
        | inl below ↦ let old = f.lowest i below o in ground arith
        | inr e ↦ rw e (ground arith)
      ];
      choice = elim (Bool-cases (ltb_ℤ (diff j) c.max_percent)) [
        | inl lower ↦
            inr (j, if_true _ _ _ lower, omega arith, is_open, if_true _ _ _ lower, ground arith)
        | inr other ↦ elim f.choice [
          | inl (e, z) ↦ inl (if_false _ _ _ other ∙ e, if_false _ _ _ other ∙ z)
          | inr (d, e, lt, o, same, neg) ↦
              inr (d, if_false _ _ _ other ∙ e, omega arith, o, if_false _ _ _ other ∙ same, neg)
        ]
      ];
      of_max_size = λ lt o. noted ∙ elim (at_last m j lt) [
        | inl below ↦ let old = f.of_max_size below o in ground arith
        | inr e ↦
            let hit : (j == m) ≡ true = ground arith in
            if_true _ _ _ hit ∙ ap (λ (n : ℕ). abs_ℤ (diff n)) (sym e)
      ];
    }

step-Found :
    (opened : ℕ → Bool) (diff : ℕ → ℤ) (m j : ℕ) (c : Choice)
    → Found opened diff m j c
    → Found opened diff m (j + 1) (choice_step m (opened j) (diff j) j c)
step-Found opened diff m j c f =
    let lower = ltb_ℤ (diff j) c.max_percent in
    let share = if j == m then abs_ℤ (diff j) else c.max_size_percent in
    if_split (Found opened diff m (j + 1)) (opened j)
      (record {
        max_percent = if lower then diff j else c.max_percent;
        next_disk = if lower then some j else c.next_disk;
        max_size_percent = share;
      })
      c (λ o. open_Found opened diff m j share c f o refl)
      (λ closed. record {
        lowest = λ i lt o. elim (at_last i j lt) [
          | inl below ↦ f.lowest i below o
          | inr e ↦ let o' = subst (λ (n : ℕ). opened n ≡ true) e o in absurd cc
        ];
        choice = elim f.choice [
          | inl none_yet ↦ inl none_yet
          | inr (d, e, lt, o, same, neg) ↦ inr (d, e, omega arith, o, same, neg)
        ];
        of_max_size = λ lt o. elim (at_last m j lt) [
          | inl below ↦ f.of_max_size below o
          | inr e ↦ let o' = subst (λ (n : ℕ). opened n ≡ true) e o in absurd cc
        ];
      })

-- A disk that is short at all is short by more than the tolerance.
short_beyond :
    (config : Config) (p : Plan) (d : ℕ)
    → 0 < neg_part (lack config p d)
    → config.percent_tolerance < abs_ℤ (lack config p d)
short_beyond config p d neg =
    elim (percent_diff_cases config (p.slice.disks d).sum_files_len
      (p.slice.disks p.slice.max_filled_disk).sum_files_len) [
        | inl e ↦
            let none_short : neg_part (lack config p d) ≡ 0 = ap neg_part e in absurd (omega arith)
        | inr (inl (lt, beyond, z)) ↦ omega arith
        | inr (inr (gt, beyond, z)) ↦ omega arith
      ]

-- Each disk that still has files to give is filled to the tolerance or better.
abbrev pub AllFilled : Config → Plan → Type 0
AllFilled config p =
    (i : ℕ) → i < config.disks → open_disk config p i ≡ true → pos 0 ≤ℤ lack config p i

-- No disk that still has files to give lacks more.
abbrev pub LacksMost : Config → Plan → ℕ → Type 0
LacksMost config p d =
    (i : ℕ) → i < config.disks → open_disk config p i ≡ true → lack config p d ≤ℤ lack config p i

-- What `select_next_disk_cases` states.
abbrev pub Ready : Config → Plan → Type 0
Ready config p =
    ((select_next_disk config p ≡ none) × AllFilled config p)
    ⊎ ((d : ℕ) × (select_next_disk config p ≡ some d)
        × (d < config.disks)
        × (open_disk config p d ≡ true)
        × (config.percent_tolerance < abs_ℤ (lack config p d))
        × ((d ≡ config.max_size_disk) ⊎ LacksMost config p d))

-- The result in terms of `lack`.
pub select_next_disk_cases :
    (config : Config) (p : Plan) → config.max_size_disk < config.disks → Ready config p
unfolding select_next_disk
select_next_disk_cases config p in_range =
    let opened = open_disk config p in
    let diff = lack config p in
    let m = config.max_size_disk in
    let c0 : Choice = record { max_percent = pos 0; next_disk = none; max_size_percent = 100 } in
    let c = count_loop config.disks 0 (λ i c. choice_step m (opened i) (diff i) i c) c0 in
    let f : Found opened diff m config.disks c =
      count_loop_upto (Found opened diff m) (λ i c. choice_step m (opened i) (diff i) i c)
        config.disks c0 (λ j c lt f. step-Found opened diff m j c f)
        (record {
          lowest = λ i lt o. absurd (omega arith);
          choice = inl (refl, refl);
          of_max_size = λ lt o. absurd (omega arith);
        }) in
    let big_share =
      not (p.slice.max_filled_disk == m)
      && ltb config.percent_tolerance c.max_size_percent
      && opened m in
    elim (Bool-cases (leb (abs_ℤ c.max_percent) config.percent_tolerance)) [
      | inl ready ↦ elim f.choice [
        | inl (e, z) ↦
            inl (if_true _ _ _ ready, λ i lt o. subst (λ (n : ℤ). n ≤ℤ diff i) z (f.lowest i lt o))
        | inr (d, e, lt, o, same, neg) ↦
            let short = short_beyond config p d neg in
            let parts : abs_ℤ c.max_percent ≡ abs_ℤ (diff d) = ap abs_ℤ same in
            let within = leb→le (abs_ℤ c.max_percent) config.percent_tolerance ready in
            absurd (omega arith)
      ]
      | inr unready ↦ elim (Bool-cases big_share) [
        | inl big ↦
            let share = f.of_max_size in_range (ground arith) in
            inr (
              m,
              if_false _ _ _ unready ∙ if_true _ _ _ big,
              in_range,
              ground arith,
              ground arith,
              inl refl,
            )
        | inr small ↦ elim f.choice [
          | inl (e, z) ↦
              let zero_abs : abs_ℤ c.max_percent ≡ 0 = ap abs_ℤ z in absurd (ground arith)
          | inr (d, e, lt, o, same, neg) ↦
              let parts : abs_ℤ c.max_percent ≡ abs_ℤ (diff d) = ap abs_ℤ same in
              inr (
                d,
                if_false _ _ _ unready ∙ (if_false _ _ _ small ∙ e),
                lt,
                o,
                ground arith,
                inr (λ i lt' o'. subst (λ (n : ℤ). n ≤ℤ diff i) same (f.lowest i lt' o')),
              )
        ]
      ]
    ]

-- The bytes that a disk has in the slice, and those of the disk that is taken for the fullest.
abbrev pub sum_of : Plan → ℕ → ℕ
sum_of p i = (p.slice.disks i).sum_files_len

abbrev pub fullest : Plan → ℕ
fullest p = sum_of p p.slice.max_filled_disk

-- What `select_next_disk_lem` states.
abbrev pub Chosen : Config → Plan → Type 0
Chosen config p =
    ((select_next_disk config p ≡ none)
      × ((i : ℕ)
          → i < config.disks
          → open_disk config p i ≡ true
          → Within config (sum_of p i) (fullest p)))
    ⊎ ((d : ℕ) × (select_next_disk config p ≡ some d)
        × (d < config.disks)
        × (open_disk config p d ≡ true)
        × (sum_of p d < fullest p)
        × Beyond config (sum_of p d) (fullest p)
        × ((d ≡ config.max_size_disk) ⊎ LacksMost config p d))

filled-Within :
    (config : Config) (p : Plan) (i : ℕ)
    → sum_of p i ≤ fullest p
    → pos 0 ≤ℤ lack config p i
    → Within config (sum_of p i) (fullest p)
filled-Within config p i le filled = elim (percent_diff_lem config (sum_of p i) (fullest p)) [
  | inl (near, zero_lack) ↦ near
  | inr (prc, far, percent, beyond, inl (less, e)) ↦ absurd (let n = ap neg_part e in ground arith)
  | inr (prc, far, percent, beyond, inr (more, e)) ↦ absurd (omega arith)
]

lacking-Beyond :
    (config : Config) (p : Plan) (i : ℕ)
    → sum_of p i ≤ fullest p
    → config.percent_tolerance < abs_ℤ (lack config p i)
    → (sum_of p i < fullest p) × Beyond config (sum_of p i) (fullest p)
lacking-Beyond config p i le lacks = elim (percent_diff_lem config (sum_of p i) (fullest p)) [
  | inl (near, zero_lack) ↦ absurd (let n = ap abs_ℤ zero_lack in omega arith)
  | inr (prc, far, percent, beyond, inl (less, e)) ↦ (less, far)
  | inr (prc, far, percent, beyond, inr (more, e)) ↦ absurd (omega arith)
]

-- If no disk has more in the slice than the one that is taken for the fullest, then either no disk is
-- chosen, and each disk that still has files to give has as much as the fullest, to the tolerance;
-- or the disk that is chosen still has files to give and has less than the fullest, by more than the
-- tolerance, and it is one of the disks that lack most in percent or the disk with the most files.
pub select_next_disk_lem :
    (config : Config) (p : Plan)
    → config.max_size_disk < config.disks
    → ((i : ℕ) → i < config.disks → sum_of p i ≤ fullest p)
    → Chosen config p
select_next_disk_lem config p in_range top = elim (select_next_disk_cases config p in_range) [
  | inl (ready, all) ↦ inl (ready, λ i lt o. filled-Within config p i (top i lt) (all i lt o))
  | inr (d, chosen, lt, opened, far, most) ↦
      let (less, beyond) = lacking-Beyond config p d (top d lt) far in
      inr (d, chosen, lt, opened, less, beyond, most)
]
