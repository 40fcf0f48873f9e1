-- ===== src/Plan.antt =====
-- planer.cpp: the statistics of the slice that is being planned, and the choice of the next disk. The
-- slice is `cSlice`; `max_size_disk` is the static maxSizeDisk. The table newfiles is, for each disk,
-- the list of its rows with type 'f' and a size, in the order of seq; `marked` says that the column
-- state is not empty. The table slpos is the list of its rows in the order of insertion. Sizes are
-- numbers below 2^46, where the quotients of doubles that the code rounds are rounded exactly.
pub mod Insert
pub mod Rows
pub mod Candidates
pub mod Ranges
pub mod Scan
pub mod Idle
pub mod Extends
pub mod Fill
pub mod Filled
pub mod Sound
pub mod Runs
pub mod Stats
pub mod Select
pub mod Skew
pub mod Hole
pub mod Start
pub mod Loop
pub mod First
pub mod Started
pub mod Cleared
pub mod Turns
pub mod Whole
pub mod Planned
use parity_backup.Base.{
  ℕ, zero, suc, ◌+◌, ◌-◌, ◌*◌, ◌/◌, max, Bool, true, false, not, ◌&&◌, ◌||◌, Option, none, some,
  List, update, count_loop, if◌then◌else◌, ◌==◌, ltb, leb,
}
use parity_backup.Base.Int.{ℤ, pos, negsuc, sub_ℕ, ltb_ℤ, pos_part, neg_part}
use parity_backup.Slice.{SliceDisk, Slice, set_disk}

pub record NewFile : Type 0 where
  pub seq : ℕ
  pub size : ℕ
  pub mtime : List ℕ
  pub name : List ℕ
  pub owner : List ℕ
  pub marked : Bool

pub record Position : Type 0 where
  pub sid : List ℕ
  pub disk : ℕ
  pub dseq : ℕ
  pub fsize : ℕ
  pub start : ℕ
  pub mtime : List ℕ
  pub fpath : List ℕ
  pub owner : List ℕ

pub record Config : Type 0 where
  pub disks : ℕ
  pub percent_tolerance : ℕ
  pub max_files_in_slice : ℕ
  pub max_slices : ℕ
  pub files_size : ℕ → ℕ
  pub max_size_disk : ℕ

pub record Plan : Type 0 where
  pub slice : Slice
  pub consumed_size : ℕ → ℕ
  pub newfiles : ℕ → List NewFile
  pub slpos : List Position

-- MIN_THE_SAME_SIZE
abbrev pub min_the_same_size : ℕ
min_the_same_size = 64

-- round(double(a) / double(b)), with halves away from zero.
abbrev pub round_div : ℕ → ℕ → ℕ
round_div a b = (2 * a + b) / (2 * b)

abbrev pub distance : ℕ → ℕ → ℕ
distance a b = a - b + (b - a)

unfoldable pub percent_diff : Config → ℕ → ℕ → ℤ
percent_diff config size1 size2 =
    let diff = distance size1 size2 in
    let prc = round_div (diff * 100) (max size1 size2) in
    if leb diff min_the_same_size
    then pos 0
    else if leb prc config.percent_tolerance
    then pos 0
    else if ltb size1 size2
    then sub_ℕ 0 prc
    else pos prc

unfoldable pub disk_in_use : Config → Plan → ℕ → ℕ
disk_in_use config p disk_idx =
    if not (config.max_files_in_slice == 0)
      && leb config.max_files_in_slice (p.slice.disks disk_idx).files_in_slice
    then 0
    else config.files_size disk_idx - p.consumed_size disk_idx

-- With `dsizes` the sizes of the argument, else those of the slice.
unfoldable pub compute_fill_factor : Config → Option (ℕ → ℕ) → Plan → ℤ
compute_fill_factor config dsizes p =
    let size_of : ℕ → ℕ = elim dsizes [
      | none ↦ λ i. (p.slice.disks i).sum_files_len
      | some d ↦ d
    ] in
    let (sum, sl_size) =
      count_loop config.disks 0 (λ i s. (s.0 + size_of i, max (size_of i) s.1)) (0, 0) in
    if sl_size == 0 then negsuc 0 else pos (round_div (sum * 100) (config.disks * sl_size))

abbrev pub abs_ℤ : ℤ → ℕ
abs_ℤ n = pos_part n + neg_part n

-- A disk that still has files to give.
abbrev pub open_disk : Config → Plan → ℕ → Bool
open_disk config p i = not (disk_in_use config p i == 0) && not (p.slice.disks i).disk_finished

-- The variables of the loop in selectNextDisk.
pub record Choice : Type 0 where
  pub max_percent : ℤ
  pub next_disk : Option ℕ
  pub max_size_percent : ℕ

-- The body of the loop for a disk that is open or not, and lacks `diff` percent.
abbrev pub choice_step : ℕ → Bool → ℤ → ℕ → Choice → Choice
choice_step max_size_disk opened diff i c =
    let lower = ltb_ℤ diff c.max_percent in
    if opened
    then record {
      max_percent = if lower then diff else c.max_percent;
      next_disk = if lower then some i else c.next_disk;
      max_size_percent = if i == max_size_disk then abs_ℤ diff else c.max_size_percent;
    }
    else c

-- How much less a disk has than the fullest, in percent; 0 within the tolerance.
abbrev pub lack : Config → Plan → ℕ → ℤ
lack config p i =
    percent_diff config (p.slice.disks i).sum_files_len
      (p.slice.disks p.slice.max_filled_disk).sum_files_len

-- The disk, or `none` for -1.
unfoldable pub select_next_disk : Config → Plan → Option ℕ
select_next_disk config p =
    let c =
      count_loop config.disks 0
        (λ i c. choice_step config.max_size_disk (open_disk config p i) (lack config p i) i c)
        (record { max_percent = pos 0; next_disk = none; max_size_percent = 100 }) in
    if leb (abs_ℤ c.max_percent) config.percent_tolerance
    then none
    else if not (p.slice.max_filled_disk == config.max_size_disk)
        && ltb config.percent_tolerance c.max_size_percent
        && open_disk config p config.max_size_disk
    then some config.max_size_disk
    else c.next_disk

-- The count of the disk's files, and the new slice.
unfoldable pub fresh_slice_stat : ℕ → ℕ → ℕ → Slice → ℕ × Slice
fresh_slice_stat disk_idx fcount fsize cs =
    let sd = cs.disks disk_idx in
    let sum = sd.sum_files_len + fsize in
    let files = sd.files_in_slice + fcount in
    let cs1 =
      set_disk (record cs { files_count = cs.files_count + fcount }) disk_idx
        (record sd { files_in_slice = files; sum_files_len = sum }) in
    (
      files,
      if ltb cs.slice_size sum
          then record cs1 { slice_size = sum; max_filled_disk = disk_idx }
          else cs1,
    )

-- The loop over the disks in clearSliceStat; `none` when log_fatal ends the program.
abbrev pub clear_disks : Config → ℕ → ℕ → Plan → Option Plan
clear_disks config zero i p = some p
clear_disks config (suc n) i p =
    let sd = p.slice.disks i in
    let consumed = p.consumed_size i + sd.sum_files_len in
    let rest = clear_disks config n (i + 1) (record p {
      consumed_size = update p.consumed_size i consumed;
      slice =
          set_disk p.slice i
            (record sd { files_in_slice = 0; sum_files_len = 0; disk_finished = false });
    }) in
    if ltb (config.files_size i) consumed then none else rest

unfoldable pub clear_slice_stat : Config → Plan → Option Plan
clear_slice_stat config p =
    clear_disks config config.disks 0
      (record p { slice = record p.slice { slice_size = 0; max_filled_disk = 0; files_count = 0 } })
