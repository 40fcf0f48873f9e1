-- ===== src/Plan/Skew.antt =====
-- sidChanged of planer.cpp: whether a saved slice is given up to balance the disks. `dsizes` are the
-- slice's sizes on each disk; the sums on the disks are those of the files to be planned.
use mathlib.Core.Path.{subst}
use parity_backup.Base.{
  ℕ, ◌+◌, ◌≤◌, ◌<◌, Bool, true, false, not, ◌&&◌, ◌||◌, Option, none, some, count_loop,
  count_loop_upto, if◌then◌else◌, ◌==◌, ltb, ◌≡◌, ◌⊎◌, inl, inr, arith, refl, sym, ap, Bool-cases,
  if_true, if_split,
}
use parity_backup.Base.Int.{ℤ, ltb_ℤ, ◌≤ℤ◌}
use parity_backup.Slice.{SliceDisk}
use parity_backup.Plan.{Config, Plan, compute_fill_factor}

-- The sizes with those of the slice added.
abbrev pub grown : (ℕ → ℕ) → Plan → ℕ → ℕ
grown dsizes p i = dsizes i + (p.slice.disks i).sum_files_len

-- The body of the first loop: the disks with the most and the least so far, none for -1.
abbrev pub extremes_step : (ℕ → ℕ) → ℕ → Option ℕ × Option ℕ → Option ℕ × Option ℕ
extremes_step sizes i (none, none) = (some i, some i)
extremes_step sizes i (some m, none) = (if ltb (sizes m) (sizes i) then some i else some m, some i)
extremes_step sizes i (none, some n) = (some i, if ltb (sizes i) (sizes n) then some i else some n)
extremes_step sizes i (some m, some n) = (
  if ltb (sizes m) (sizes i) then some i else some m,
  if ltb (sizes i) (sizes n) then some i else some n,
)

abbrev pub extremes : (ℕ → ℕ) → ℕ → Option ℕ × Option ℕ
extremes sizes n = count_loop n 0 (λ i st. extremes_step sizes i st) (none, none)

-- The slice is accepted: the sums grow, and the fullest disk is noted.
abbrev pub accept_sizes : Config → (ℕ → ℕ) → ℤ → ℕ → Plan → Plan
accept_sizes config sizes fill maxfd p = record p {
  slice = record p.slice {
    fill_factor = fill;
    max_filled_disk = maxfd;
    disks = λ i.
        if ltb i config.disks
        then record (p.slice.disks i) { sum_files_len = sizes i }
        else p.slice.disks i;
  };
}

-- The disk with the least, or none for -1. There is at least one disk.
abbrev pub balance_sizes : Config → (ℕ → ℕ) → ℤ → Option ℕ × Option ℕ → Plan → Option ℕ × Plan
balance_sizes config sizes fill (some maxfd, minfd) p =
    let same_fill = not (ltb_ℤ fill p.slice.fill_factor) && not (ltb_ℤ p.slice.fill_factor fill) in
    if ltb_ℤ p.slice.fill_factor fill
      || same_fill && (sizes maxfd == (p.slice.disks maxfd).sum_files_len)
    then (minfd, accept_sizes config sizes fill maxfd p)
    else (none, p)
balance_sizes config sizes fill (none, minfd) p = (none, p)

unfoldable pub sid_changed : Config → (ℕ → ℕ) → Plan → Option ℕ × Plan
sid_changed config dsizes p =
    let sizes = grown dsizes p in
    balance_sizes config sizes (compute_fill_factor config (some sizes) p)
      (extremes sizes config.disks) p

-- Among the disks below `j`, `m` has the most and `n` the least.
pub record IsMostLeast (sizes : ℕ → ℕ) (j m n : ℕ) : Type 0 where
  pub most_in : m < j
  pub least_in : n < j
  pub most : (i : ℕ) → i < j → sizes i ≤ sizes m
  pub least : (i : ℕ) → i < j → sizes n ≤ sizes i

-- What the first loop has found among the disks below `j`.
IsExtreme : (ℕ → ℕ) → ℕ → Option ℕ × Option ℕ → Type 0
IsExtreme sizes j st =
    ((j ≡ 0) × (st ≡ (none, none)))
    ⊎ ((m : ℕ) × (n : ℕ) × (st ≡ (some m, some n)) × IsMostLeast sizes j m n)

same_disk : (sizes : ℕ → ℕ) (i j : ℕ) → i ≡ j → sizes i ≡ sizes j
same_disk sizes i j e = ap sizes e

next-IsMostLeast :
    (sizes : ℕ → ℕ) (j m n : ℕ)
    → IsMostLeast sizes j m n
    → IsMostLeast sizes
        (j + 1)
        (if ltb (sizes m) (sizes j) then j else m)
        (if ltb (sizes j) (sizes n) then j else n)
next-IsMostLeast sizes j m n h =
    let m_in = h.most_in in
    let n_in = h.least_in in
    record {
      most_in = ground arith;
      least_in = ground arith;
      most = λ i lt. elim (Bool-cases (i == j)) [
        | inl last ↦
            let e = same_disk sizes i j (ground arith) in
            if_split (λ (k : ℕ). sizes i ≤ sizes k) (ltb (sizes m) (sizes j)) j m
              (λ more. omega arith) (λ less. ground arith)
        | inr before ↦
            let old = h.most i (ground arith) in
            if_split (λ (k : ℕ). sizes i ≤ sizes k) (ltb (sizes m) (sizes j)) j m
              (λ more. ground arith) (λ less. old)
      ];
      least = λ i lt. elim (Bool-cases (i == j)) [
        | inl last ↦
            let e = same_disk sizes i j (ground arith) in
            if_split (λ (k : ℕ). sizes k ≤ sizes i) (ltb (sizes j) (sizes n)) j n
              (λ more. omega arith) (λ less. ground arith)
        | inr before ↦
            let old = h.least i (ground arith) in
            if_split (λ (k : ℕ). sizes k ≤ sizes i) (ltb (sizes j) (sizes n)) j n
              (λ more. ground arith) (λ less. old)
      ];
    }

some_if : (b : Bool) (i j : ℕ) → (if b then some i else some j) ≡ some (if b then i else j)
some_if true i j = refl
some_if false i j = refl

step-IsExtreme :
    (sizes : ℕ → ℕ) (j : ℕ) (st : Option ℕ × Option ℕ)
    → IsExtreme sizes j st
    → IsExtreme sizes (j + 1) (extremes_step sizes j st)
unfolding IsExtreme
step-IsExtreme sizes j st (inl (z, e)) = rw e (
    inr (
      j,
      j,
      refl,
      record {
        most_in = omega arith;
        least_in = omega arith;
        most = λ i lt. let same = same_disk sizes i j (omega arith) in omega arith;
        least = λ i lt. let same = same_disk sizes i j (omega arith) in omega arith;
      },
    ))
step-IsExtreme sizes j st (inr (m, n, e, h)) = rw e (
    inr (
      if ltb (sizes m) (sizes j) then j else m,
      if ltb (sizes j) (sizes n) then j else n,
      rw (some_if (ltb (sizes m) (sizes j)) j m, some_if (ltb (sizes j) (sizes n)) j n) refl,
      next-IsMostLeast sizes j m n h,
    ))

-- What `sid_changed-SidOutcome` states of a result.
abbrev pub SidOutcome : Config → (ℕ → ℕ) → Plan → Option ℕ × Plan → Type 0
SidOutcome config dsizes p (given, p') =
    ((given ≡ none) × (p' ≡ p))
    ⊎ ((n : ℕ) × (given ≡ some n)
        × IsMostLeast (grown dsizes p) config.disks p'.slice.max_filled_disk n
        × (p.slice.fill_factor ≤ℤ p'.slice.fill_factor)
        × ((i : ℕ) → i < config.disks → (p'.slice.disks i).sum_files_len ≡ grown dsizes p i))

balance_sizes-SidOutcome :
    (config : Config) (dsizes : ℕ → ℕ) (p : Plan) (fill : ℤ) (m n : ℕ)
    → IsMostLeast (grown dsizes p) config.disks m n
    → SidOutcome config dsizes p (balance_sizes config (grown dsizes p) fill (some m, some n) p)
balance_sizes-SidOutcome config dsizes p fill m n h =
    let sizes = grown dsizes p in
    let old = p.slice.fill_factor in
    let same_fill = not (ltb_ℤ fill old) && not (ltb_ℤ old fill) in
    if_split (SidOutcome config dsizes p)
      (ltb_ℤ old fill || same_fill && (sizes m == (p.slice.disks m).sum_files_len))
      (some n, accept_sizes config sizes fill m p) (none, p)
      (λ accepted. inr (
        n,
        refl,
        h,
        ground arith,
        λ i lt.
            let inside : ltb i config.disks ≡ true = ground arith in
            ap (λ (sd : SliceDisk). sd.sum_files_len) (if_true _ _ _ inside),
      ))
      (λ refused. inl (refl, refl))

-- Either sidChanged gives no disk and leaves the plan as it is. Or it gives the disk with the least
-- data, the slice's sizes included; the sums on the disks are then those with the slice's sizes,
-- the fullest disk is noted, and the fill factor is not less than before.
pub sid_changed-SidOutcome :
    (config : Config) (dsizes : ℕ → ℕ) (p : Plan)
    → 0 < config.disks
    → SidOutcome config dsizes p (sid_changed config dsizes p)
unfolding sid_changed IsExtreme
sid_changed-SidOutcome config dsizes p some_disk =
    let sizes = grown dsizes p in
    let fill = compute_fill_factor config (some sizes) p in
    let ext : IsExtreme sizes config.disks (extremes sizes config.disks) =
      count_loop_upto (IsExtreme sizes) (λ i st. extremes_step sizes i st) config.disks (none, none)
        (λ j st lt h. step-IsExtreme sizes j st h) (inl (refl, refl)) in
    elim ext [
      | inl (z, e) ↦ absurd (omega arith)
      | inr (m, n, e, h) ↦
          subst
            (λ (st : Option ℕ × Option ℕ).
              SidOutcome config dsizes p (balance_sizes config sizes fill st p))
            (sym e) (balance_sizes-SidOutcome config dsizes p fill m n h)
    ]
