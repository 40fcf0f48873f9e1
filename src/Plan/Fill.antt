-- ===== src/Plan/Fill.antt =====
-- insert2slice and fillHole: what is inserted, and that no run of fillHole ends the program or
-- loops.
use parity_backup.Base.{
  ℕ, ◌+◌, true, false, not, ◌&&◌, ◌||◌, Option, none, some, List, [], ◌++◌, length, update,
  if◌then◌else◌, ◌==◌, leb, ◌≡◌, ◌≢◌, ◌⊎◌, inl, inr, arith, refl, sym, ap, ◌∙◌, append-nil,
  Bool-cases, if_true, if_false,
}
use parity_backup.Slice.{Slice}
use parity_backup.Plan.{NewFile, Position, Config, Plan, fresh_slice_stat}
use parity_backup.Plan.Insert.{
  select_between, mark_between, Added, add_rows, insert2slice, long_max,
}
use parity_backup.Plan.Rows.{
  Listed, total, mark_between-left_count, mark_between-Listed, mark_between-left_total, named,
  marked_count, marked_count-mark_between, row_sizes-mark_between,
}
use parity_backup.Plan.Stats.{fresh_slice_stat-KnowsMax}
use parity_backup.Plan.Ranges.{select_prefix}
use parity_backup.Plan.Extends.{Adds, add_rows-Adds, Extends}

-- The range of seqs that insert2slice selects.
abbrev pub range_start : ℕ → ℕ → ℕ
range_start start last = if (start == 0) && (last == 0) then 1 else start

abbrev pub range_last : ℕ → ℕ → ℕ
range_last start last = if (start == 0) && (last == 0) then long_max else last

-- The state after the insertion of what `added` holds.
abbrev inserted : ℕ → ℕ → Added → Plan → Plan
inserted disk_idx start added p = record p {
  slice = (fresh_slice_stat disk_idx added.files added.bytes p.slice).1;
  slpos = p.slpos ++ added.positions;
  newfiles = update p.newfiles disk_idx (mark_between start added.seq (p.newfiles disk_idx));
}

fresh_slice_stat_lem :
    (disk fcount fsize : ℕ) (cs : Slice)
    → let (files, out) = fresh_slice_stat disk fcount fsize cs in
      (files ≡ (cs.disks disk).files_in_slice + fcount)
      × (out.slice_id ≡ cs.slice_id)
      × ((out.disks disk).sum_files_len ≡ (cs.disks disk).sum_files_len + fsize)
      × ((out.disks disk).files_in_slice ≡ (cs.disks disk).files_in_slice + fcount)
      × ((i : ℕ) → i ≢ disk → out.disks i ≡ cs.disks i)
unfolding fresh_slice_stat
fresh_slice_stat_lem disk fcount fsize cs =
    (refl, ground arith, ground arith, ground arith, λ i ne. ground arith)

-- An insertion of the first rows `ys` of the selection.
inserted-Extends :
    (disk start last big : ℕ) (rest : Option ℕ) (p : Plan) (added : Added)
    → (a : Adds rest p.slice.slice_id disk
        (p.slice.disks disk).sum_files_len
        (select_between start last (p.newfiles disk))
        (record { positions = []; files = 0; bytes = 0; seq = 0 })
        added)
    → Listed 0 big (p.newfiles disk)
    → Extends disk a.ys p (inserted disk start added p)
      × Listed 0 big ((inserted disk start added p).newfiles disk)
inserted-Extends disk start last big rest p added a h =
    let (files, id, sum, in_slice, others) =
      fresh_slice_stat_lem disk added.files added.bytes p.slice in
    let hit : (disk == disk) ≡ true = ground arith in
    let a_files = a.files in
    let a_bytes = a.bytes in
    let rows = p.newfiles disk in
    let sel : select_between start added.seq rows ≡ a.ys =
      ap (λ (n : ℕ). select_between start n rows) a.seq
      ∙ select_prefix start last 0 big rows a.ys a.zs h a.split 0 (omega arith) in
    let counted = mark_between-left_count start added.seq rows in
    let same_len : length (select_between start added.seq rows) ≡ length a.ys =
      ap (λ (gs : List NewFile). length gs) sel in
    (
      record {
        slice_id = id;
        positions = ap (λ (ps : List Position). p.slpos ++ ps) a.positions;
        sum = omega arith;
        files = omega arith;
        left = rw hit (omega arith);
        left_bytes =
            let same_total : total (select_between start added.seq rows) ≡ total a.ys =
              ap (λ (gs : List NewFile). total gs) sel in
            let bytes_counted = mark_between-left_total start added.seq rows in
            rw hit (omega arith);
        marks = λ nm. rw hit (
            marked_count-mark_between nm start added.seq rows
            ∙ ap (λ (gs : List NewFile). marked_count nm rows + named nm gs) sel);
        sizes = rw hit (row_sizes-mark_between start added.seq rows);
        consumed = refl;
        knows = λ n lt k. fresh_slice_stat-KnowsMax n disk added.files added.bytes p.slice lt k;
        other_rows = λ i ne. let miss : (i == disk) ≡ false = ground arith in rw miss;
        other_disks = others;
      },
      rw hit (mark_between-Listed start added.seq 0 big rows h),
    )

-- insert2slice with the rows selected.
abbrev selected : ℕ → ℕ → ℕ → Plan → List NewFile
selected disk start last p =
    select_between (range_start start last) (range_last start last) (p.newfiles disk)

-- What `insert2slice_outcome` states.
abbrev pub InsertOutcome : Config → ℕ → ℕ → ℕ → ℕ → ℕ → ℕ → Plan → Type 0
InsertOutcome config disk start last fcount fsum big p =
    let rest = (start == 0) && (last == 0) in
    let sel = selected disk start last p in
    ((insert2slice config disk start last fcount fsum p ≡ none)
      × (rest ≡ false)
      × ((fcount ≢ length sel) ⊎ (fsum ≢ total sel)))
    ⊎ ((p' : Plan) × (ys : List NewFile) × (zs : List NewFile) × (insert2slice config disk start
            last fcount fsum p
          ≡ some (leb config.max_files_in_slice (p'.slice.disks disk).files_in_slice, p'))
        × (sel ≡ ys ++ zs)
        × ((rest ≡ true) ⊎ ((zs ≡ []) × (fcount ≡ length ys) × (fsum ≡ total ys)))
        × Extends disk ys p p'
        × Listed 0 big (p'.newfiles disk))

-- The result of insert2slice, on every branch. Either it is given a range and a count or a sum that
-- differs from the count or the sum of the rows in that range that are not marked, and the program
-- ends. Or it lays the first of these rows, all of them if it is given a range, end to end after what
-- the slice has of that disk, counts them and marks them; the flag says whether the disk now has
-- the maximal count of files.
pub insert2slice_outcome :
    (config : Config) (disk start last fcount fsum big : ℕ) (p : Plan)
    → Listed 0 big (p.newfiles disk)
    → InsertOutcome config disk start last fcount fsum big p
unfolding insert2slice
insert2slice_outcome config disk start last fcount fsum big p h =
    let rest = (start == 0) && (last == 0) in
    let sel = selected disk start last p in
    let limit = if rest then some config.max_files_in_slice else none in
    let a0 : Added = record { positions = []; files = 0; bytes = 0; seq = 0 } in
    let soffset = (p.slice.disks disk).sum_files_len in
    let added = add_rows limit p.slice.slice_id disk soffset sel a0 in
    let a = add_rows-Adds limit p.slice.slice_id disk soffset sel a0 in
    let a_files : added.files ≡ length a.ys = a.files ∙ ground arith in
    let a_bytes : added.bytes ≡ total a.ys = a.bytes ∙ ground arith in
    let (extends, listed) =
      inserted-Extends disk (range_start start last) (range_last start last) big limit p added a
        h in
    let stat = fresh_slice_stat_lem disk added.files added.bytes p.slice in
    let counted : (fresh_slice_stat disk added.files added.bytes p.slice).0
        ≡ ((fresh_slice_stat disk added.files added.bytes p.slice).1.disks disk).files_in_slice =
      stat.0 ∙ sym stat.3 in
    let bad = not rest && (not (added.files == fcount) || not (added.bytes == fsum)) in
    let p' = inserted disk (range_start start last) added p in
    let all_of : rest ≡ false → a.zs ≡ [] = λ no. a.no_limit (ground arith) in
    let whole : rest ≡ false → sel ≡ a.ys =
      λ no. a.split ∙ (ap (λ (gs : List NewFile). a.ys ++ gs) (all_of no) ∙ append-nil a.ys) in
    elim (Bool-cases bad) [
      | inl differs ↦
          let ranged : rest ≡ false = ground arith in
          let len : length sel ≡ length a.ys =
            ap (λ (gs : List NewFile). length gs) (whole ranged) in
          let sum : total sel ≡ total a.ys = ap (λ (gs : List NewFile). total gs) (whole ranged) in
          inl (if_true bad none (some (_, p')) differs, ranged, ground arith)
      | inr agrees ↦ inr (
        p',
        a.ys,
        a.zs,
        if_false bad none (some (_, p')) agrees
            ∙ ap (λ (n : ℕ). some (leb config.max_files_in_slice n, p')) counted,
        a.split,
        elim (Bool-cases rest) [
          | inl all_left ↦ inl all_left
          | inr ranged ↦ inr (all_of ranged, ground arith, ground arith)
        ],
        extends,
        listed,
      )
    ]
