-- ===== src/Plan/Filled.antt =====
-- What a run of fillHole is shown to do, and its insertions.
use mathlib.Core.Path.{subst}
use parity_backup.Base.{
  ℕ, ◌<◌, Bool, true, false, not, ◌&&◌, some, List, [], ◌∷◌, ◌++◌, length, if◌then◌else◌, ◌==◌, leb,
  ltb, ◌≡◌, ◌⊎◌, inl, inr, arith, refl, sym, length-append, ap, ◌∙◌, if_split, append-nil, if_false,
}
use parity_backup.Slice.{Slice, set_disk}
use parity_backup.Plan.{NewFile, Config, Plan}
use parity_backup.Plan.Insert.{long_max, select_between, insert2slice}
use parity_backup.Base.{Run, returns}
use parity_backup.Plan.Hole.{Scan, note_finished, at_limit, new_scan}
use parity_backup.Plan.Rows.{Listed, total, last_from}
use parity_backup.Plan.Scan.{Describes}
use parity_backup.Plan.Stats.{KnowsMax}
use parity_backup.Plan.Extends.{Extends, Extends-trans}
use parity_backup.Plan.Fill.{insert2slice_outcome}

pub Extends-refl : (disk : ℕ) (p : Plan) → Extends disk [] p p
Extends-refl disk p = record {
  slice_id = refl;
  positions = sym (append-nil p.slpos);
  sum = omega arith;
  files = omega arith;
  left = omega arith;
  left_bytes = omega arith;
  marks = λ nm. omega arith;
  sizes = refl;
  consumed = refl;
  knows = λ n lt k. k;
  other_rows = λ i ne. refl;
  other_disks = λ i ne. refl;
}

pub finished-KnowsMax :
    (disk n : ℕ) (cs : Slice)
    → KnowsMax n cs
    → KnowsMax n (set_disk cs disk (record (cs.disks disk) { disk_finished = true }))
finished-KnowsMax disk n cs k = record {
  in_range = k.in_range;
  of_max = let e = k.of_max in ground arith;
  above = λ i lt. let old = k.above i lt in ground arith;
}

-- That a disk is finished changes none of its data.
pub note_finished-Extends :
    (disk : ℕ) (s : Scan) (p : Plan)
    → Extends disk [] p (note_finished disk s p) × ((note_finished disk s p).newfiles ≡ p.newfiles)
note_finished-Extends disk s p =
    let sd = p.slice.disks disk in
    let p1 : Plan = record p {
      slice = set_disk p.slice disk (record sd { disk_finished = true });
    } in
    let hit : (disk == disk) ≡ true = ground arith in
    if_split (λ (q : Plan). Extends disk [] p q × (q.newfiles ≡ p.newfiles)) s.finished p1 p
      (λ e. (
        record {
          slice_id = refl;
          positions = sym (append-nil p.slpos);
          sum = rw hit (omega arith);
          files = rw hit (omega arith);
          left = omega arith;
          left_bytes = omega arith;
          marks = λ nm. omega arith;
          sizes = refl;
          consumed = refl;
          knows = λ n lt k. finished-KnowsMax disk n p.slice k;
          other_rows = λ i ne. refl;
          other_disks = λ i ne. let miss : (i == disk) ≡ false = ground arith in rw miss;
        },
        refl,
      ))
      (λ e. (Extends-refl disk p, refl))

-- An insertion of all that a scan has taken.
pub insert-taken :
    (config : Config) (disk big : ℕ) (p : Plan) (s : Scan) (y : NewFile) (ys : List NewFile)
    → Listed 0 big (p.newfiles disk)
    → 0 < y.seq
    → Describes (y ∷ ys) s
    → select_between y.seq (last_from y.seq ys) (p.newfiles disk) ≡ y ∷ ys
    → (p' : Plan) × (too_big : Bool) × (insert2slice config disk s.start_rowid s.last_rowid
          s.file_count s.size_sum p
        ≡ some (too_big, p'))
      × Extends disk (y ∷ ys) p p'
      × Listed 0 big (p'.newfiles disk)
insert-taken config disk big p s y ys h pos d sel =
    let last = last_from y.seq ys in
    let n = length (y ∷ ys) in
    let ranged : (y.seq == 0) && (last == 0) ≡ false = ground arith in
    let start_is : (if (y.seq == 0) && (last == 0) then 1 else y.seq) ≡ y.seq =
      if_false _ _ y.seq ranged in
    let last_is : (if (y.seq == 0) && (last == 0) then long_max else last) ≡ last =
      if_false _ _ last ranged in
    let outcome = insert2slice_outcome config disk y.seq last n (total (y ∷ ys)) big p h in
    let outcome' = rw (start_is, last_is, sel) at outcome in
    rw (d.start, d.last, d.count, d.sum)
      (elim outcome' [
        | inl (fails, in_range, bad) ↦ elim bad [
          | inl wrong_count ↦ absurd (wrong_count refl)
          | inr wrong_sum ↦ absurd (wrong_sum refl)
        ]
        | inr (p', ys', zs, gives, split, whole, extends, listed) ↦
            let nothing_left : zs ≡ [] = elim whole [ inl all_left ↦ absurd cc | inr w ↦ w.0 ] in
            let same : ys' ≡ y ∷ ys =
              sym (append-nil ys')
              ∙ (ap (λ (gs : List NewFile). ys' ++ gs) (sym nothing_left) ∙ sym split) in
            (
              p',
              leb config.max_files_in_slice (p'.slice.disks disk).files_in_slice,
              gives,
              subst (λ (gs : List NewFile). Extends disk gs p p') same extends,
              listed,
            )
      ])

-- A run of fillHole has something to do: there is a hole, and the disk is not at its limit.
abbrev pub has_work : Config → ℕ → ℕ → Plan → Bool
has_work config disk hole p =
    ltb 0 hole && not (at_limit config (p.slice.disks disk).files_in_slice (new_scan hole))

-- What a run of fillHole has done: it has returned, and it has laid files of the disk end to end. With
-- work to do it has laid a file, or it has found that the disk has none left.
pub record Filled (disk big : ℕ) (work : Bool) (p : Plan) (run : Run Plan) : Type 0 where
  pub result : Plan
  pub ys : List NewFile
  pub returned : run ≡ returns result
  pub extends : Extends disk ys p result
  pub listed : Listed 0 big (result.newfiles disk)
  pub progress : work ≡ true → (0 < length ys) ⊎ ((result.slice.disks disk).disk_finished ≡ true)

pub Filled-weaken :
    (disk big : ℕ) (work : Bool) (p : Plan) (run : Run Plan)
    → Filled disk big work p run
    → Filled disk big false p run
Filled-weaken disk big work p run f = record {
  result = f.result;
  ys = f.ys;
  returned = f.returned;
  extends = f.extends;
  listed = f.listed;
  progress = λ no_work. absurd (ground arith);
}

pub Filled-after :
    (disk big : ℕ) (work inner : Bool) (xs : List NewFile) (p q : Plan) (run : Run Plan)
    → (work ≡ true → (0 < length xs) ⊎ (inner ≡ true))
    → Extends disk xs p q
    → Filled disk big inner q run
    → Filled disk big work p run
Filled-after disk big work inner xs p q run some_work e f = record {
  result = f.result;
  ys = xs ++ f.ys;
  returned = f.returned;
  extends = Extends-trans disk xs f.ys p q f.result e f.extends;
  listed = f.listed;
  progress = λ w. elim (some_work w) [
    | inl some_laid ↦ inl (omega (arith, length-append xs f.ys))
    | inr later ↦ elim (f.progress later) [
      | inl some_laid ↦ inl (omega (arith, length-append xs f.ys))
      | inr done ↦ inr done
    ]
  ];
}
