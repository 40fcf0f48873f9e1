-- ===== src/Plan/Stats.antt =====
-- The statistics of the slice that is planned: percentDiff, computeFillFactor, freshSliceStat and
-- clearSliceStat.
use native.Mathlib.Nat.{div-add-mod', mod-lt, mul-le-mul_right}
use parity_backup.Base.{
  ℕ, ◌+◌, ◌*◌, ◌/◌, max, leb, ltb, if_true, if_false, ◌∙◌, ◌≤◌, ◌<◌, ◌==◌, ◌≡◌, ◌⊎◌, inl, inr,
  arith, Bool-cases,
}
use parity_backup.Base.Int.{pos, sub_ℕ, pos_part, neg_part}
use parity_backup.Slice.{Slice}
use parity_backup.Plan.{Config, distance, round_div, percent_diff, fresh_slice_stat}

-- The sign of the result, and that it is beyond the tolerance.
pub percent_diff_cases :
    (config : Config) (a b : ℕ)
    → (percent_diff config a b ≡ pos 0)
      ⊎ ((a < b)
          × (config.percent_tolerance < neg_part (percent_diff config a b))
          × (pos_part (percent_diff config a b) ≡ 0))
      ⊎ ((b < a)
          × (config.percent_tolerance < pos_part (percent_diff config a b))
          × (neg_part (percent_diff config a b) ≡ 0))
unfolding percent_diff
percent_diff_cases config a b = ground arith

-- The sizes differ by at most 64 bytes, or by less than half a percent of the greater more than the
-- tolerance; and the opposite.
abbrev pub Within : Config → ℕ → ℕ → Type 0
Within config a b =
    (distance a b ≤ 64) ⊎ (200 * distance a b < (2 * config.percent_tolerance + 1) * max a b)

abbrev pub Beyond : Config → ℕ → ℕ → Type 0
Beyond config a b =
    (64 < distance a b) × ((2 * config.percent_tolerance + 1) * max a b ≤ 200 * distance a b)

-- The integer that is nearest to the difference in percent of the greater size.
abbrev pub IsPercent : ℕ → ℕ → ℕ → Type 0
IsPercent a b prc =
    (2 * max a b * prc ≤ 200 * distance a b + max a b)
    × (200 * distance a b + max a b < 2 * max a b * (prc + 1))

-- What `percent_diff_lem` states.
abbrev pub Percent : Config → ℕ → ℕ → Type 0
Percent config a b =
    (Within config a b × (percent_diff config a b ≡ pos 0))
    ⊎ ((prc : ℕ) × Beyond config a b
        × IsPercent a b prc
        × (config.percent_tolerance < prc)
        × (((a < b) × (percent_diff config a b ≡ sub_ℕ 0 prc))
            ⊎ ((b < a) × (percent_diff config a b ≡ pos prc))))

quotient_bounds : (n k : ℕ) → 0 < k → (n / k * k ≤ n) × (n < (n / k + 1) * k)
quotient_bounds n k h =
    let whole = div-add-mod' n k in let small = mod-lt n h in (omega arith, grind arith)

within_tolerance :
    (d m t q : ℕ)
    → q * (2 * m) ≤ 2 * (d * 100) + m
    → 2 * (d * 100) + m < (q + 1) * (2 * m)
    → q ≤ t
    → 200 * d < (2 * t + 1) * m
within_tolerance d m t q lo hi le =
    let top = mul-le-mul_right {m = q + 1} {n = t + 1} (2 * m) (omega arith) in grind arith

beyond_tolerance :
    (d m t q : ℕ) → q * (2 * m) ≤ 2 * (d * 100) + m → t < q → (2 * t + 1) * m ≤ 200 * d
beyond_tolerance d m t q lo lt =
    let top = mul-le-mul_right {m = t + 1} {n = q} (2 * m) (omega arith) in grind arith

-- percentDiff is 0 if the sizes are within the tolerance; else it is the difference in percent of the
-- greater size, to the nearest integer, which is more than the tolerance, with a minus sign if the
-- first size is the smaller.
pub percent_diff_lem : (config : Config) (a b : ℕ) → Percent config a b
unfolding percent_diff
percent_diff_lem config a b = elim (Bool-cases (leb (distance a b) 64)) [
  | inl near ↦ inl (inl (ground arith), if_true _ _ _ near)
  | inr far ↦
      let m = max a b in
      let d = distance a b in
      let prc = round_div (d * 100) m in
      let beyond : 64 < distance a b = ground arith in
      let (lo, hi) = quotient_bounds (2 * (d * 100) + m) (2 * m) (omega arith) in
      elim (Bool-cases (leb prc config.percent_tolerance)) [
        | inl small ↦ inl (
          inr (within_tolerance d m config.percent_tolerance prc lo hi (ground arith)),
          if_false _ _ _ far ∙ if_true _ _ _ small,
        )
        | inr large ↦ inr (
          prc,
          (ground arith, beyond_tolerance d m config.percent_tolerance prc lo (ground arith)),
          (grind arith, grind arith),
          ground arith,
          elim (Bool-cases (ltb a b)) [
            | inl less ↦
                inl (ground arith, if_false _ _ _ far ∙ (if_false _ _ _ large ∙ if_true _ _ _ less))
            | inr more ↦
                inr
                  (ground arith, if_false _ _ _ far ∙ (if_false _ _ _ large ∙ if_false _ _ _ more))
          ],
        )
      ]
]

-- The slice knows the disk with the most data, among the first `n`.
pub record KnowsMax (n : ℕ) (cs : Slice) : Type 0 where
  pub in_range : cs.max_filled_disk < n
  pub of_max : (cs.disks cs.max_filled_disk).sum_files_len ≡ cs.slice_size
  pub above : (i : ℕ) → i < n → (cs.disks i).sum_files_len ≤ cs.slice_size

pub fresh_slice_stat-KnowsMax :
    (n disk fcount fsize : ℕ) (cs : Slice)
    → disk < n
    → KnowsMax n cs
    → KnowsMax n (fresh_slice_stat disk fcount fsize cs).1
unfolding fresh_slice_stat
fresh_slice_stat-KnowsMax n disk fcount fsize cs lt k =
    let in_range = k.in_range in
    let of_max = k.of_max in
    let own = k.above disk lt in
    elim (Bool-cases (cs.max_filled_disk == disk)) [
      | inl same ↦
          let e : cs.max_filled_disk ≡ disk = ground arith in
          let sum : (cs.disks disk).sum_files_len ≡ cs.slice_size = rw e at of_max in
          record {
            in_range = ground arith;
            of_max = ground arith;
            above = λ i lt'. let old = k.above i lt' in ground arith;
          }
      | inr other ↦ record {
        in_range = ground arith;
        of_max = ground arith;
        above = λ i lt'. let old = k.above i lt' in ground arith;
      }
    ]
