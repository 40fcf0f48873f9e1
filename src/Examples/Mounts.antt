-- ===== src/Examples/Mounts.antt =====
-- Two disks, mounted at /mnt/a/ and /mnt/b/.
use parity_backup.Base.{ℕ, ◌+◌, ◌<◌, true, false, some, List, [], ◌∷◌, ◌++◌, ◌≡◌, arith, refl}
use parity_backup.Text.{is_prefix, get_disk_index}
use parity_backup.Prefix.RoundTrip.{Named, line_of, path2prefix-prefix2path}
use parity_backup.Prefix.{DiskName, path2prefix, prefix2path}

-- /mnt/a and /mnt/b
abbrev base_of : ℕ → List ℕ
base_of i = 47 ∷ 109 ∷ 110 ∷ 116 ∷ 47 ∷ (97 + i) ∷ []

abbrev two_disks : ℕ → DiskName
two_disks i = record { id = 68 ∷ (49 + i) ∷ []; path = base_of i ++ 47 ∷ [] }

abbrev dir : List ℕ
dir = 120 ∷ 47 ∷ 121 ∷ []

two_disks-Named : Named two_disks 2
unfolding get_disk_index
two_disks-Named = record {
  index = λ i lt s. ground arith;
  begins = λ i lt. ((49 + i) ∷ [], refl);
  plain = λ i lt. ground arith;
  absolute = λ i lt. (109 ∷ 110 ∷ 116 ∷ 47 ∷ (97 + i) ∷ 47 ∷ [], refl);
  base = base_of;
  folder = λ i lt. refl;
  longer = λ i lt. omega arith;
}

-- A file on the second disk, with its newline.
mounts_example :
    (path2prefix two_disks true 2 0 (line_of true ((two_disks 1).path ++ dir))
      ≡ some ((two_disks 1).id ++ 47 ∷ dir))
    × (prefix2path two_disks ((two_disks 1).id ++ 47 ∷ dir) ≡ some ((two_disks 1).path ++ 47 ∷ dir))
unfolding is_prefix
mounts_example =
    path2prefix-prefix2path two_disks 2 1 true dir two_disks-Named (omega arith)
      (λ j lt. other j (omega arith))
  where
    other :
        (j : ℕ)
        → j < 1
        → is_prefix (two_disks j).path (line_of true ((two_disks 1).path ++ dir)) ≡ false
    other j lt = ground arith
