-- ===== src/Aio/Skips.antt =====
-- getNextFile: which rows it passes over, and how it counts them.
use mathlib.Core.Path.{subst}
use parity_backup.Base.{
  ℕ, ◌+◌, ◌≤◌, ◌<◌, Bool, true, false, Option, none, some, List, ◌∷◌, ◌++◌, ◌==◌, ◌≡◌, ◌≢◌, ◌||◌,
  ◌&&◌, ◌⊎◌, Bool-cases, sym, eq_bytes, eq_bytes_refl, eq_bytes→≡, [], inl, inr, arith, refl, ◌∙◌,
  All, ==_refl,
}
use parity_backup.Base.Int.{ℤ, pos, negsuc, ◌≤ℤ◌}
use parity_backup.Aio.{leb_ℤ}
use parity_backup.Slice.{Slice, cancel_gen}
use parity_backup.Aio.Next.{Row, Wanted, Unset, to_restore, after, step_rows, settle, get_next_file}
use parity_backup.Aio.Passes.{
  stops, counts, counted_files, counted_bytes, Stepped, step_rows-Stepped,
}

-- A file for restore is asked for again: its copy is outdated or differs in size or time, and the
-- setting lets it be replaced, whatever its size or up to the size of the copy.
abbrev pub MustRestore : Wanted → Row → Type 0
MustRestore w q =
    (w.restore_flat ≡ true)
    ⊎ (((q.outdated ≡ true)
          ⊎ ((w.real_file q.path).0 ≢ pos q.fsize)
          ⊎ ((w.real_file q.path).1 ≢ q.mtime))
        × ((pos 1 ≤ℤ w.replace) ⊎ ((w.real_file q.path).0 ≤ℤ w.replace)))

-- The row of a file to open, when `target` is the disk to write and `from` the start of the window:
-- each in a sync; in a restore of this disk, a file that is asked for; in a restore of another
-- disk, a file that reaches the window.
abbrev pub MustOpen : ℕ → Wanted → ℕ → ℕ → ℕ → Row → Type 0
MustOpen disks w disk_idx target from q =
    (target ≡ disks)
    ⊎ ((target ≢ disks) × (target ≡ disk_idx) × (w.matches q.path ≡ true) × MustRestore w q)
    ⊎ ((target ≢ disks) × (target ≢ disk_idx) × (from ≤ q.start + q.fsize))

same_size :
    (real : ℤ) (n : ℕ) → leb_ℤ real (pos n) ≡ true → leb_ℤ (pos n) real ≡ true → real ≡ pos n
same_size (pos m) n h h' = ground arith
same_size (negsuc m) n h h' = ground arith

restore_wanted :
    (w : Wanted) (q : Row) → (w.restore_flat || to_restore w q) ≡ true → MustRestore w q
restore_wanted w q h = elim (Bool-cases w.restore_flat) [
  | inl flat ↦ inl flat
  | inr deep ↦
      let real = w.real_file q.path in
      let may : (pos 1 ≤ℤ w.replace) ⊎ (real.0 ≤ℤ w.replace) = ground arith in
      elim (Bool-cases q.outdated) [
        | inl old ↦ inr (inl old, may)
        | inr kept ↦ elim (Bool-cases (eq_bytes q.mtime real.1)) [
          | inl time ↦
              let size : real.0 ≢ pos q.fsize = λ e. ground arith in inr (inr (inl size), may)
          | inr other ↦
              let time : real.1 ≢ q.mtime = λ e.
                let same : eq_bytes q.mtime real.1 ≡ true = rw e (eq_bytes_refl q.mtime) in
                absurd (ground arith) in
              inr (inr (inr time), may)
        ]
      ]
]

wanted_restore :
    (w : Wanted) (q : Row) → MustRestore w q → (w.restore_flat || to_restore w q) ≡ true
wanted_restore w q (inl flat) = ground arith
wanted_restore w q (inr (inl old, may)) = ground arith
wanted_restore w q (inr (inr (inl size), may)) =
    let real = (w.real_file q.path).0 in
    elim (Bool-cases (leb_ℤ real (pos q.fsize) && leb_ℤ (pos q.fsize) real)) [
      | inl same ↦ absurd (size (same_size real q.fsize (ground arith) (ground arith)))
      | inr other ↦ ground arith
    ]
wanted_restore w q (inr (inr (inr time), may)) =
    let real = (w.real_file q.path).1 in
    elim (Bool-cases (eq_bytes q.mtime real)) [
      | inl same ↦ absurd (time (sym (eq_bytes→≡ q.mtime real same)))
      | inr other ↦ ground arith
    ]

stops-MustOpen :
    (disks : ℕ) (w : Wanted) (disk_idx target from : ℕ) (q : Row)
    → (stops disks w disk_idx target from q ≡ true → MustOpen disks w disk_idx target from q)
      × (stops disks w disk_idx target from q ≡ false → ¬ MustOpen disks w disk_idx target from q)
stops-MustOpen disks w disk_idx target from q = (
  λ h. elim (Bool-cases (target == disks)) [
    | inl sync ↦ inl (ground arith)
    | inr restore ↦ elim (Bool-cases (target == disk_idx)) [
      | inl own ↦
          inr (inl (ground arith, ground arith, ground arith, restore_wanted w q (ground arith)))
      | inr other ↦ inr (inr (ground arith, ground arith, ground arith))
    ]
  ],
  λ h. λ must. elim must [
    | inl sync ↦ ground arith
    | inr (inl (restore, own, match, asked)) ↦ let e = wanted_restore w q asked in ground arith
    | inr (inr (restore, other, reach)) ↦ ground arith
  ],
)

settle_lem :
    (disks start : ℕ) (no_space : Bool) (disk_idx : ℕ) (q : Row) (cs : Slice)
    → let (given, cs') = settle disks start disk_idx no_space (some q, cs) in
      let sd = cs.disks disk_idx in
      let sd' = cs'.disks disk_idx in
      (cs'.files_written ≡ cs.files_written)
      × (cs'.files_canceled ≡ cs.files_canceled)
      × (cs'.bytes_written ≡ cs.bytes_written)
      × (((given ≡ some q)
            × ((sd.file.file_size ≡ 0) ⊎ (q.fsize ≤ sd.file.file_size))
            × (sd'.seq ≡ sd.seq)
            × (sd'.file.file_size ≡ q.fsize)
            × (cs.disk2write ≢ disks → sd'.file.parity_start ≡ q.start))
          ⊎ ((given ≡ none) × (sd.file.file_size < q.fsize) × (cs'.gen_canceled ≡ true)))
unfolding cancel_gen
settle_lem disks start no_space disk_idx q cs = ground arith

-- What getNextFile has done when it gives `r`: it was to look at `todo`.
abbrev pub Gives :
    ℕ → (Row → Type 0) → (Row → Bool) → ℕ → Slice → List Row → Option Row × Slice → Type 0
Gives disks Stop counted disk_idx cs todo (given, cs') =
    let sd = cs.disks disk_idx in
    let sd' = cs'.disks disk_idx in
    (skipped : List Row) × All (λ q. ¬ Stop q) skipped
    × (cs'.files_written ≡ cs.files_written + counted_files counted skipped)
    × (cs'.files_canceled ≡ cs.files_canceled + counted_files counted skipped)
    × (cs'.bytes_written ≡ cs.bytes_written + counted_bytes counted skipped)
    × (((given ≡ none) × (todo ≡ skipped) × (sd'.disk_finished ≡ true))
        ⊎ ((q : Row) × (rest : List Row) × (todo ≡ skipped ++ q ∷ rest)
            × Stop q
            × (((given ≡ some q)
                  × ((sd.file.file_size ≡ 0) ⊎ (q.fsize ≤ sd.file.file_size))
                  × (sd'.seq ≡ q.dseq)
                  × (sd'.file.file_size ≡ q.fsize)
                  × (cs.disk2write ≢ disks → sd'.file.parity_start ≡ q.start))
                ⊎ ((given ≡ none) × (sd.file.file_size < q.fsize) × (cs'.gen_canceled ≡ true)))))

All-map :
    {A : Type 0} (P Q : A → Type 0) (f : (x : A) → P x → Q x) (xs : List A) → All P xs → All Q xs
All-map P Q f [] h = tt
All-map P Q f (x ∷ xs) h = (f x h.0, All-map P Q f xs h.1)

settle-Gives :
    (disks start : ℕ) (stop counted : Row → Bool) (Stop : Row → Type 0) (disk_idx : ℕ)
    → (no_space : Bool) (cs : Slice) (todo : List Row) (r : Option Row × Slice)
    → ((q : Row) → (stop q ≡ true → Stop q) × (stop q ≡ false → ¬ Stop q))
    → Stepped stop counted disk_idx todo cs.files_written cs.files_canceled cs.bytes_written
        (cs.disks disk_idx).file.file_size
        cs.disk2write
        r
    → Gives disks Stop counted disk_idx cs todo (settle disks start disk_idx no_space r)
settle-Gives disks start stop counted Stop disk_idx no_space cs todo (none, cs1) means s =
    let passed = All-map _ _ (λ q. (means q).1) s.skipped s.passed in
    let hit : (disk_idx == disk_idx) ≡ true = ==_refl disk_idx in
    elim s.outcome [
      | inl (e, all) ↦ (
        s.skipped,
        passed,
        s.files_written,
        s.files_canceled,
        s.bytes_written,
        inl (refl, all, rw hit refl),
      )
      | inr (q, rest, e, split, at, seq) ↦ absurd cc
    ]
settle-Gives disks start stop counted Stop disk_idx no_space cs todo (some p, cs1) means s =
    let passed = All-map _ _ (λ q. (means q).1) s.skipped s.passed in
    let same = s.same_size in
    let (files, canceled, bytes, settled) = settle_lem disks start no_space disk_idx p cs1 in
    elim s.outcome [
      | inl (e, all) ↦ absurd cc
      | inr (q, rest, e, split, at, seq) ↦
          let is_q : q ≡ p = cc in
          let (split', at', seq') =
            subst
              (λ (q : Row).
                (todo ≡ s.skipped ++ q ∷ rest)
                × (stop q ≡ true)
                × ((cs1.disks disk_idx).seq ≡ q.dseq))
              is_q (split, at, seq) in
          (
            s.skipped,
            passed,
            files ∙ s.files_written,
            canceled ∙ s.files_canceled,
            bytes ∙ s.bytes_written,
            inr (
              p,
              rest,
              split',
              (means p).0 at',
              elim settled [
                | inl (given, small, same_seq, size, place) ↦ inl (
                  given,
                  small_before small same,
                  same_seq ∙ seq',
                  size,
                  λ restore. place (λ e. restore (sym s.same_target ∙ e)),
                )
                | inr (given, large, over) ↦ inr (given, omega arith, over)
              ],
            ),
          )
    ]
  where
    small_before : {a b n : ℕ} → (a ≡ 0) ⊎ (n ≤ a) → a ≡ b → (b ≡ 0) ⊎ (n ≤ b)
    small_before h e = omega arith

-- getNextFile passes over the first of the rows that the statement has still to give, none of them a
-- file to open, and counts those of them that were asked for as done. It comes to the end of the
-- rows, and the disk is finished; or it comes to a file to open, which is given, with its size, its
-- seq and, in a restore, its start, if it is not larger than the file before, and cancels the slice
-- if it is. In a sync each file is to be opened. In a restore of this disk it is a file that
-- matches the pattern and, unless all are restored flat, is outdated or differs in size or time, and
-- may be replaced; in a restore of another disk, a file that does not end before the window.
pub get_next_file-Gives :
    (disks : ℕ) (w : Wanted) (unset : Unset) (no_space : Bool) (disk_idx : ℕ) (rows : List Row)
    → (cs : Slice)
    → Gives disks
        (MustOpen disks w disk_idx cs.disk2write cs.write_start)
        (counts w disk_idx cs.disk2write)
        disk_idx
        cs
        (after (cs.disks disk_idx).seq rows)
        (get_next_file disks w unset no_space disk_idx rows cs)
unfolding get_next_file
get_next_file-Gives disks w unset no_space disk_idx rows cs =
    let todo = after (cs.disks disk_idx).seq rows in
    settle-Gives disks unset.start _ _ _ disk_idx no_space cs todo
      (step_rows disks w disk_idx todo unset.dseq cs)
      (stops-MustOpen disks w disk_idx cs.disk2write cs.write_start)
      (step_rows-Stepped disks w disk_idx todo unset.dseq cs)
