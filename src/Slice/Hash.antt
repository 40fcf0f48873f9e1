-- ===== src/Slice/Hash.antt =====
-- allocHashArray, storeHash and findHash4seq of backup.cpp: the hashes of a slice's files. `digest` is
-- getBlockHash, the hexadecimal digits that the streaming hash gives for the bytes it was fed.
use mathlib.Core.Path.{subst}
use parity_backup.Base.{
  ℕ, zero, suc, ◌+◌, ◌≤◌, ◌<◌, Bool, true, false, ◌&&◌, Option, none, some, List, update,
  if◌then◌else◌, ◌==◌, leb, ◌≡◌, ◌≢◌, ◌⊎◌, inl, inr, arith, refl, sym, ap, ◌∙◌, Bool-cases, if_true,
  if_false, ==_refl,
}
use parity_backup.Slice.{HashPos, Slice}

-- `fresh` is what malloc gives; `allocated` says that there is an array.
unfoldable pub alloc_hash_array : Bool → (ℕ → HashPos) → Slice → Slice
alloc_hash_array allocated fresh cs0 =
    let cs = record cs0 { hash_count = 0 } in
    if allocated && leb cs.files_count cs.hash_size
    then cs
    else record cs { hash_array = fresh; hash_size = cs.files_count }

-- `seq` 0 and `hash` none stand for the arguments left out. `none` when log_fatal ends the program.
unfoldable pub store_hash : (List ℕ → List ℕ) → ℕ → ℕ → Option (List ℕ) → Slice → Option Slice
store_hash digest disk_idx seq hash cs =
    let sd = cs.disks disk_idx in
    let text : List ℕ = elim hash [ none ↦ digest sd.file.hash_state | some h ↦ h ] in
    let hp : HashPos = record {
      dseq = if seq == 0 then sd.seq else seq;
      disk = disk_idx;
      hash = text;
    } in
    if sd.file.file_size == 0
    then some cs
    else if leb cs.hash_size cs.hash_count
    then none
    else some (record cs {
      hash_array = update cs.hash_array cs.hash_count hp;
      hash_count = cs.hash_count + 1;
    })

-- The loop from `i` on, `n` rounds.
abbrev pub find_from : (ℕ → HashPos) → ℕ → ℕ → ℕ → ℕ → Option (List ℕ)
find_from a disk_idx seq zero i = none
find_from a disk_idx seq (suc n) i =
    let rest = find_from a disk_idx seq n (i + 1) in
    if ((a i).dseq == seq) && ((a i).disk == disk_idx) then some (a i).hash else rest

-- The loop runs over filesCount entries.
unfoldable pub find_hash4seq : ℕ → ℕ → Slice → Option (List ℕ)
find_hash4seq disk_idx seq cs = find_from cs.hash_array disk_idx seq cs.files_count 0

-- An entry for the file is found if no entry before it is for the same file.
find_from-at :
    (a : ℕ → HashPos) (disk_idx seq n i j : ℕ)
    → i ≤ j
    → j < i + n
    → (a j).dseq ≡ seq
    → (a j).disk ≡ disk_idx
    → ((k : ℕ) → i ≤ k → k < j → ((a k).dseq ≢ seq) ⊎ ((a k).disk ≢ disk_idx))
    → find_from a disk_idx seq n i ≡ some (a j).hash
find_from-at a disk_idx seq zero i j le lt e e' others = absurd (omega arith)
find_from-at a disk_idx seq (suc n) i j le lt e e' others = elim (Bool-cases (i == j)) [
  | inl hit ↦
      let same : j ≡ i = ground arith in
      let found : ((a i).dseq == seq) && ((a i).disk == disk_idx) ≡ true =
        let d = ap (λ (k : ℕ). (a k).dseq) same in
        let d' = ap (λ (k : ℕ). (a k).disk) same in ground arith in
      if_true _ _ _ found ∙ ap (λ (k : ℕ). some (a k).hash) (sym same)
  | inr miss ↦
      let other = others i (omega arith) (ground arith) in
      let skipped : ((a i).dseq == seq) && ((a i).disk == disk_idx) ≡ false = ground arith in
      if_false _ _ _ skipped
      ∙ find_from-at a disk_idx seq n (i + 1) j (ground arith) (omega arith) e e'
          (λ k lo hi. others k (omega arith) hi)
]

-- Each file of the slice has at most one entry, and there is room for the rest.
pub record HoldsHashes (cs : Slice) : Type 0 where
  pub room : cs.hash_count ≤ cs.files_count
  pub size : cs.files_count ≤ cs.hash_size
  pub single :
      (j k : ℕ)
      → j < k
      → k < cs.hash_count
      → ((cs.hash_array j).dseq ≢ (cs.hash_array k).dseq)
        ⊎ ((cs.hash_array j).disk ≢ (cs.hash_array k).disk)

-- An entry of the array is found.
found :
    (cs : Slice)
    → HoldsHashes cs
    → (j : ℕ) → j < cs.hash_count
    → find_from cs.hash_array (cs.hash_array j).disk (cs.hash_array j).dseq cs.files_count 0
      ≡ some (cs.hash_array j).hash
found cs h j lt =
    let room = h.room in
    find_from-at cs.hash_array (cs.hash_array j).disk (cs.hash_array j).dseq cs.files_count 0 j
      (omega arith) (omega arith) refl refl (λ k lo hi. h.single k j hi lt)

append-HoldsHashes :
    (cs : Slice) (hp : HashPos)
    → HoldsHashes cs
    → cs.hash_count < cs.files_count
    → ((j : ℕ)
        → j < cs.hash_count
        → ((cs.hash_array j).dseq ≢ hp.dseq) ⊎ ((cs.hash_array j).disk ≢ hp.disk))
    → HoldsHashes (record cs {
      hash_array = update cs.hash_array cs.hash_count hp;
      hash_count = cs.hash_count + 1;
    })
append-HoldsHashes cs hp h left new = record {
  room = omega arith;
  size = h.size;
  single = λ j k lt in_range.
      let old : (j == cs.hash_count) ≡ false = ground arith in
      elim (Bool-cases (k == cs.hash_count)) [
        | inl last ↦ rw (old, last) (new j (ground arith))
        | inr other ↦ rw (old, other) (h.single j k lt (ground arith))
      ];
}

-- Each entry of `cs` is found in `cs'`.
abbrev pub FindsAll : Slice → Slice → Type 0
FindsAll cs cs' =
    (j : ℕ)
    → j < cs.hash_count
    → find_hash4seq (cs.hash_array j).disk (cs.hash_array j).dseq cs' ≡ some (cs.hash_array j).hash

-- When a file of the slice that is not empty has no entry yet and there is an entry left, storeHash
-- succeeds and uses one entry more; each file still has at most one entry; findHash4seq gives the hash
-- back for this file, and the entry of every file that has one, this and those before.
pub store_hash-find_hash4seq :
    (digest : List ℕ → List ℕ) (disk_idx : ℕ) (cs : Slice)
    → HoldsHashes cs
    → (cs.disks disk_idx).file.file_size ≢ 0
    → cs.hash_count < cs.files_count
    → ((j : ℕ)
        → j < cs.hash_count
        → ((cs.hash_array j).dseq ≢ (cs.disks disk_idx).seq) ⊎ ((cs.hash_array j).disk ≢ disk_idx))
    → (cs' : Slice) × (store_hash digest disk_idx 0 none cs ≡ some cs')
      × HoldsHashes cs'
      × (cs'.hash_count ≡ cs.hash_count + 1)
      × (find_hash4seq disk_idx (cs.disks disk_idx).seq cs'
          ≡ some (digest (cs.disks disk_idx).file.hash_state))
      × FindsAll cs cs'
      × FindsAll cs' cs'
unfolding store_hash find_hash4seq
store_hash-find_hash4seq digest disk_idx cs h not_empty left new =
    let sd = cs.disks disk_idx in
    let hp : HashPos = record {
      dseq = sd.seq;
      disk = disk_idx;
      hash = digest sd.file.hash_state;
    } in
    let n = cs.hash_count in
    let cs' : Slice = record cs { hash_array = update cs.hash_array n hp; hash_count = n + 1 } in
    let size = h.size in
    let some_bytes : (sd.file.file_size == 0) ≡ false = ground arith in
    let room : leb cs.hash_size n ≡ false = ground arith in
    let h' = append-HoldsHashes cs hp h left new in
    let at_new : cs'.hash_array n ≡ hp = if_true _ _ _ (==_refl n) in
    (
      cs',
      if_false _ _ _ some_bytes ∙ if_false _ _ _ room,
      h',
      refl,
      subst (λ (p : HashPos). find_from cs'.hash_array p.disk p.dseq cs.files_count 0 ≡ some p.hash)
          at_new (found cs' h' n (omega arith)),
      λ j lt.
          subst
            (λ (p : HashPos). find_from cs'.hash_array p.disk p.dseq cs.files_count 0 ≡ some p.hash)
            (if_false (j == n) hp (cs.hash_array j) (ground arith)) (found cs' h' j (omega arith)),
      λ j lt. found cs' h' j lt,
    )
