-- ===== src/Aio/Passes.antt =====
-- The loop of getNextFile: which rows it passes over.
use parity_backup.Base.{
  ℕ, suc, ◌+◌, Bool, true, false, ◌&&◌, ◌||◌, Option, none, some, List, [], ◌∷◌, ◌++◌,
  if◌then◌else◌, ◌==◌, leb, ◌≡◌, ◌⊎◌, inl, inr, arith, refl, ap, ◌∙◌, All, if_split, ==_refl,
}
use parity_backup.Slice.{Slice, set_disk, is_parity}
use parity_backup.Aio.Next.{Row, Wanted, to_restore, count_skipped, step_rows}

-- The row is one at which the loop stops, when `target` is the disk to write and `from` the start of
-- the window.
abbrev pub stops : ℕ → Wanted → ℕ → ℕ → ℕ → Row → Bool
stops disks w disk_idx target from r =
    is_parity disks target
    || (if target == disk_idx
        then w.matches r.path && (w.restore_flat || to_restore w r)
        else leb from (r.start + r.fsize))

-- The row, passed over, counts as a file that was asked for.
abbrev pub counts : Wanted → ℕ → ℕ → Row → Bool
counts w disk_idx target r = (target == disk_idx) && w.matches r.path

abbrev pub counted_files : (Row → Bool) → List Row → ℕ
counted_files counted [] = 0
counted_files counted (r ∷ rs) =
    if counted r then suc (counted_files counted rs) else counted_files counted rs

abbrev pub counted_bytes : (Row → Bool) → List Row → ℕ
counted_bytes counted [] = 0
counted_bytes counted (r ∷ rs) =
    if counted r then r.fsize + counted_bytes counted rs else counted_bytes counted rs

-- From the counts `files`, `canceled` and `bytes` on, the loop has passed over the rows `skipped`, and
-- then stopped at a row or come to the end.
pub record Stepped (stop counted : Row → Bool) (disk_idx : ℕ) (rows : List Row)
    (files canceled bytes size target : ℕ) (r : Option Row × Slice) : Type 0 where
  pub skipped : List Row
  pub passed : All (λ q. stop q ≡ false) skipped
  pub outcome :
      ((r.0 ≡ none) × (rows ≡ skipped))
      ⊎ ((q : Row) × (rest : List Row) × (r.0 ≡ some q)
          × (rows ≡ skipped ++ q ∷ rest)
          × (stop q ≡ true)
          × ((r.1.disks disk_idx).seq ≡ q.dseq))
  pub files_written : r.1.files_written ≡ files + counted_files counted skipped
  pub files_canceled : r.1.files_canceled ≡ canceled + counted_files counted skipped
  pub bytes_written : r.1.bytes_written ≡ bytes + counted_bytes counted skipped
  pub same_size : (r.1.disks disk_idx).file.file_size ≡ size
  pub same_target : r.1.disk2write ≡ target

stopped :
    (stop counted : Row → Bool) (disk_idx : ℕ) (q : Row) (rest : List Row) (cs : Slice) (size : ℕ)
    → stop q ≡ true
    → (cs.disks disk_idx).seq ≡ q.dseq
    → (cs.disks disk_idx).file.file_size ≡ size
    → Stepped stop counted disk_idx
        (q ∷ rest)
        cs.files_written
        cs.files_canceled
        cs.bytes_written
        size
        cs.disk2write
        (some q, cs)
stopped stop counted disk_idx q rest cs size at seq same = record {
  same_target = refl;
  same_size = same;
  skipped = [];
  passed = tt;
  outcome = inr (q, rest, refl, refl, at, seq);
  files_written = omega arith;
  files_canceled = omega arith;
  bytes_written = omega arith;
}

further :
    (stop counted : Row → Bool) (disk_idx : ℕ) (q : Row) (rows : List Row)
    → (files canceled bytes files' canceled' bytes' size size' target : ℕ) (r : Option Row × Slice)
    → stop q ≡ false
    → files' ≡ files + counted_files counted (q ∷ [])
    → canceled' ≡ canceled + counted_files counted (q ∷ [])
    → bytes' ≡ bytes + counted_bytes counted (q ∷ [])
    → size' ≡ size
    → Stepped stop counted disk_idx rows files' canceled' bytes' size' target r
    → Stepped stop counted disk_idx (q ∷ rows) files canceled bytes size target r
further stop counted disk_idx q rows files canceled bytes files' canceled' bytes' size size' target
      r pass f c b same s =
    let s_files = s.files_written in
    let s_canceled = s.files_canceled in
    let s_bytes = s.bytes_written in
    record {
      same_target = s.same_target;
      same_size = s.same_size ∙ same;
      skipped = q ∷ s.skipped;
      passed = (pass, s.passed);
      outcome = elim s.outcome [
        | inl (no_row, all) ↦ inl (no_row, ap (λ (rs : List Row). q ∷ rs) all)
        | inr (p, rest, is_some, split, at, seq) ↦
            inr (p, rest, is_some, ap (λ (rs : List Row). q ∷ rs) split, at, seq)
      ];
      files_written = ground arith;
      files_canceled = ground arith;
      bytes_written = ground arith;
    }

pub step_rows-Stepped :
    (disks : ℕ) (w : Wanted) (disk_idx : ℕ) (rows : List Row) (dseq : ℕ) (cs : Slice)
    → Stepped
        (stops disks w disk_idx cs.disk2write cs.write_start)
        (counts w disk_idx cs.disk2write)
        disk_idx
        rows
        cs.files_written
        cs.files_canceled
        cs.bytes_written
        (cs.disks disk_idx).file.file_size
        cs.disk2write
        (step_rows disks w disk_idx rows dseq cs)
unfolding step_rows
step_rows-Stepped disks w disk_idx [] dseq cs = record {
  same_size = let hit : (disk_idx == disk_idx) ≡ true = ==_refl disk_idx in rw hit refl;
  same_target = refl;
  skipped = [];
  passed = tt;
  outcome = inl (refl, refl);
  files_written = omega arith;
  files_canceled = omega arith;
  bytes_written = omega arith;
}
step_rows-Stepped disks w disk_idx (q ∷ rows) dseq cs0 =
    let stop = stops disks w disk_idx cs0.disk2write cs0.write_start in
    let counted = counts w disk_idx cs0.disk2write in
    let sd = cs0.disks disk_idx in
    let P : Option Row × Slice → Type 0 = λ r.
      Stepped stop counted disk_idx (q ∷ rows) cs0.files_written cs0.files_canceled
        cs0.bytes_written sd.file.file_size cs0.disk2write r in
    let hit : (disk_idx == disk_idx) ≡ true = ==_refl disk_idx in
    let cs = set_disk cs0 disk_idx (record sd { seq = q.dseq }) in
    let cs1 =
      set_disk cs0 disk_idx
        (record sd { seq = q.dseq; file = record sd.file { mtime = q.mtime } }) in
    let next = step_rows disks w disk_idx rows q.dseq cs in
    let skip = step_rows disks w disk_idx rows q.dseq (count_skipped q cs1) in
    let wants = w.restore_flat || to_restore w q in
    let seq : (cs.disks disk_idx).seq ≡ q.dseq = rw hit refl in
    let seq1 : (cs1.disks disk_idx).seq ≡ q.dseq = rw hit refl in
    let same : (cs.disks disk_idx).file.file_size ≡ sd.file.file_size = rw hit refl in
    let same1 : (cs1.disks disk_idx).file.file_size ≡ sd.file.file_size = rw hit refl in
    let ih = step_rows-Stepped disks w disk_idx rows q.dseq cs in
    let ih1 = step_rows-Stepped disks w disk_idx rows q.dseq (count_skipped q cs1) in
    let matched = if wants then (some q, cs1) else skip in
    let own = if w.matches q.path then matched else next in
    let reaches = leb cs0.write_start (q.start + q.fsize) in
    let other = if reaches then (some q, cs) else next in
    if_split P (is_parity disks cs0.disk2write) (some q, cs)
      (if cs0.disk2write == disk_idx then own else other)
      (λ sync. stopped stop counted disk_idx q rows cs _ (ground arith) seq same)
      (λ restore.
        if_split P (cs0.disk2write == disk_idx) own other
          (λ writes.
            if_split P (w.matches q.path) matched next
              (λ match.
                if_split P wants (some q, cs1) skip
                  (λ want. stopped stop counted disk_idx q rows cs1 _ (ground arith) seq1 same1)
                  (λ no_want.
                    further stop counted disk_idx q rows _ _ _ _ _ _ _ _ _ skip (ground arith)
                      (ground arith) (ground arith) (ground arith) same1 ih1))
              (λ no_match.
                further stop counted disk_idx q rows _ _ _ _ _ _ _ _ _ next (ground arith)
                  (ground arith) (ground arith) (ground arith) same ih))
          (λ reads.
            if_split P reaches (some q, cs) next
              (λ reach. stopped stop counted disk_idx q rows cs _ (ground arith) seq same)
              (λ no_reach.
                further stop counted disk_idx q rows _ _ _ _ _ _ _ _ _ next (ground arith)
                  (ground arith) (ground arith) (ground arith) same ih)))
