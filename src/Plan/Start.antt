-- ===== src/Plan/Start.antt =====
-- startSlice of planer.cpp. `stamp` is what getTimestamp writes.
use parity_backup.Base.{
  ℕ, zero, suc, ◌+◌, bit_and, Option, none, some, List, [], ◌∷◌, ◌++◌, if◌then◌else◌, ◌==◌,
}
use parity_backup.Plan.{Config, Plan, open_disk}
use parity_backup.Plan.Hole.{init_slice_files}
use parity_backup.Text.Numbers.{digits, pad_left}

-- SLICE_PREFIX, and VID_MASK of three hexadecimal digits
abbrev pub slice_prefix : List ℕ
slice_prefix = 115 ∷ 108 ∷ 99 ∷ 45 ∷ []

abbrev pub vid_mask : ℕ
vid_mask = 4095

unfoldable pub slice_id_of : ℕ → List ℕ → List ℕ
slice_id_of slc_count stamp =
    slice_prefix ++ (pad_left 3 48 (digits 16 (bit_and slc_count vid_mask)) ++ 45 ∷ stamp)

-- The loop of startSlice: how many disks have given a file of some size, and the last of them.
pub record Started : Type 0 where
  pub plan : Plan
  pub active_disks : ℕ
  pub first : ℕ

abbrev pub note_started : ℕ → Started → Option (ℕ × Plan) → Option Started
note_started i s none = none
note_started i s (some (zero, p)) = some (record s { plan = p })
note_started i s (some (suc size, p)) =
    some (record { plan = p; active_disks = s.active_disks + 1; first = i })

abbrev pub start_disk : Config → ℕ → Started → Option Started
start_disk config i s =
    if open_disk config s.plan i
    then note_started i s (init_slice_files config i s.plan)
    else some s

abbrev pub start_disks : Config → (left : ℕ) (i : ℕ) → Started → Option Started
start_disks config zero i s = some s
start_disks config (suc left) i s = elim (start_disk config i s) [
  | none ↦ none
  | some s1 ↦ start_disks config left (i + 1) s1
]

-- The only disk that is active, or none for -1.
abbrev pub solo_disk : Started → Option ℕ
solo_disk s = if s.active_disks == 1 then some s.first else none

abbrev pub with_id : List ℕ → Plan → Plan
with_id sid p = record p { slice = record p.slice { slice_id = sid } }

unfoldable pub start_slice : Config → List ℕ → ℕ → Plan → Option (Option ℕ × Plan)
start_slice config stamp slc_count p =
    elim (start_disks config config.disks 0
      (record { plan = with_id (slice_id_of slc_count stamp) p; active_disks = 0; first = 0 })) [
        | none ↦ none
        | some s ↦ some (solo_disk s, s.plan)
      ]
