-- ===== src/Plan/Scan.antt =====
-- The inner loop of fillHole: its variables always describe a run of rows that follow one another.
use parity_backup.Base.{
  ℕ, ◌+◌, ◌≤◌, ◌<◌, Bool, true, false, not, ◌||◌, List, [], ◌∷◌, ◌++◌, length, if◌then◌else◌, ◌==◌,
  ltb, ◌≡◌, ◌⊎◌, inl, inr, arith, refl, sym, ap, ◌∙◌, Bool-cases, if_split, append_assoc,
  append-nil, length-append,
}
use parity_backup.Plan.{NewFile, Config, percent_diff, abs_ℤ}
use parity_backup.Plan.Hole.{
  candidates, Scan, shrink, at_limit, scan_rows, close_scan, new_scan, scan_hole,
}
use parity_backup.Plan.Rows.{
  Listed, total, first_seq, last_from, total-append, last_from-append, candidates-bounded,
}

-- The variables stand for the rows `xs`.
pub record Describes (xs : List NewFile) (s : Scan) : Type 0 where
  pub count : s.file_count ≡ length xs
  pub sum : s.size_sum ≡ total xs
  pub start : s.start_rowid ≡ first_seq xs
  pub last : s.last_rowid ≡ last_from 0 xs
  pub some_start : 0 < length xs → 0 < s.start_rowid

first_seq-append :
    (xs : List NewFile) (f : NewFile)
    → (0 < length xs → 0 < first_seq xs)
    → first_seq (xs ++ f ∷ []) ≡ (if first_seq xs == 0 then f.seq else first_seq xs)
first_seq-append [] f h = refl
first_seq-append (x ∷ xs) f h = let p = h (omega arith) in ground arith

same :
    {xs : List NewFile} {s : Scan} {hole seq file_size : ℕ} {finished : Bool}
    → Describes xs s
    → Describes xs
        (record s { hole_size = hole; seq = seq; file_size = file_size; finished = finished })
same d = record {
  count = d.count;
  sum = d.sum;
  start = d.start;
  last = d.last;
  some_start = d.some_start;
}

-- A row taken after `xs`.
take_row-Describes :
    (xs : List NewFile) (f : NewFile) (s s' : Scan)
    → Describes xs s
    → 0 < f.seq
    → s'.file_count ≡ s.file_count + 1
    → s'.size_sum ≡ s.size_sum + f.size
    → s'.last_rowid ≡ f.seq
    → s'.start_rowid ≡ (if s.start_rowid == 0 then f.seq else s.start_rowid)
    → Describes (xs ++ f ∷ []) s'
take_row-Describes xs f s s' d some_seq count sum last start =
    let old_count = d.count in
    let old_sum = d.sum in
    let old_start = d.start in
    record {
      count = omega (arith, length-append xs (f ∷ []));
      sum = omega (arith, total-append xs (f ∷ []));
      start =
          start
          ∙ (ap (λ (n : ℕ). if n == 0 then f.seq else n) d.start
              ∙ sym (first_seq-append xs f (λ p. let q = d.some_start p in omega arith)));
      last = last ∙ sym (last_from-append 0 xs f);
      some_start = λ p. ground arith;
    }

-- What the loop and the lines after it do from `xs` on: they take the first rows `ys` of those that
-- are left, and they take at least one row or leave no hole.
pub record Taken (xs fs : List NewFile) (s : Scan) : Type 0 where
  pub ys : List NewFile
  pub zs : List NewFile
  pub split : fs ≡ ys ++ zs
  pub describes : Describes (xs ++ ys) s
  pub progress : (0 < length (xs ++ ys)) ⊎ (s.hole_size ≡ 0)

close_scan-Describes :
    (xs : List NewFile) (s : Scan) → Describes xs s → s.seq ≡ 0 → Describes xs (close_scan s)
close_scan-Describes [] s d e =
    let a = d.count in
    let b = d.sum in
    let c = d.start in
    let l = d.last in
    record {
      count = ground arith;
      sum = ground arith;
      start = ground arith;
      last = ground arith;
      some_start = λ p. absurd (omega arith);
    }
close_scan-Describes (x ∷ xs) s d e =
    let a = d.count in
    let b = d.sum in
    let c = d.start in
    let l = d.last in
    let p = d.some_start (omega arith) in
    record {
      count = ground arith;
      sum = ground arith;
      start = ground arith;
      last = ground arith;
      some_start = λ p. ground arith;
    }

nothing-Taken :
    (xs fs : List NewFile) (s : Scan)
    → Describes xs s
    → s.seq ≡ 0
    → (0 < length xs) ⊎ (s.hole_size ≡ 0)
    → Taken xs fs (close_scan s)
nothing-Taken xs fs s d e progress = record {
  ys = [];
  zs = fs;
  split = refl;
  describes = rw (append-nil xs) (close_scan-Describes xs s d e);
  progress = rw (append-nil xs) (elim progress [ inl p ↦ inl p | inr z ↦ inr (ground arith) ]);
}

grown : (xs : List NewFile) (f : NewFile) → 0 < length (xs ++ f ∷ [])
grown xs f = omega (arith, length-append xs (f ∷ []))

-- The row at which the loop stops with `seq` set.
last-Taken :
    (xs fs : List NewFile) (f : NewFile) (s : Scan) (hole : ℕ)
    → Describes xs s
    → 0 < f.seq
    → Taken xs
        (f ∷ fs)
        (close_scan (record s { seq = f.seq; file_size = f.size; hole_size = hole }))
last-Taken xs fs f s hole d some_seq = record {
  ys = f ∷ [];
  zs = fs;
  split = refl;
  describes =
      take_row-Describes xs f s
        (close_scan (record s { seq = f.seq; file_size = f.size; hole_size = hole })) d some_seq
        (ground arith) (ground arith) (ground arith) (ground arith);
  progress = inl (grown xs f);
}

shrink-Describes :
    (xs : List NewFile) (f : NewFile) (s : Scan)
    → Describes xs s
    → 0 < f.seq
    → Describes (xs ++ f ∷ []) (shrink f s)
shrink-Describes xs f s d some_seq =
    take_row-Describes xs f s (shrink f s) d some_seq (ground arith) (ground arith) (ground arith)
      (ground arith)

prepend :
    (xs fs : List NewFile) (f : NewFile) (s : Scan)
    → Taken (xs ++ f ∷ []) fs s
    → Taken xs (f ∷ fs) s
prepend xs fs f s t =
    let e = append_assoc xs (f ∷ []) t.ys in
    record {
      ys = f ∷ t.ys;
      zs = t.zs;
      split = ap (λ (gs : List NewFile). f ∷ gs) t.split;
      describes = rw e at t.describes;
      progress = rw e at t.progress;
    }

-- From `xs` on the loop takes the first rows of those that are left.
pub scan_rows-Taken :
    (config : Config) (disk_idx disk_files lo big : ℕ) (first : Bool) (fs : List NewFile) (s : Scan)
    → (xs : List NewFile) → Listed lo big fs
    → (first ≡ true → big ≤ s.hole_size)
    → (first ≡ false → 0 < length xs)
    → Describes xs s
    → Taken xs fs (close_scan (scan_rows config disk_idx disk_files first fs s))
unfolding scan_rows
scan_rows-Taken config disk_idx disk_files lo big first [] s xs h fits some_taken d =
    if_split (λ (t : Scan). Taken xs [] (close_scan t)) (at_limit config disk_files s)
      (record s { seq = 0; hole_size = 0 })
      (if first then record s { seq = 0; finished = true; hole_size = 0 } else record s { seq = 0 })
      (λ e. nothing-Taken xs [] (record s { seq = 0; hole_size = 0 }) (same d) refl (inr refl))
      (λ e.
        if_split (λ (t : Scan). Taken xs [] (close_scan t)) first
          (record s { seq = 0; finished = true; hole_size = 0 }) (record s { seq = 0 })
          (λ e.
            nothing-Taken xs [] (record s { seq = 0; finished = true; hole_size = 0 }) (same d) refl
              (inr refl))
          (λ e. nothing-Taken xs [] (record s { seq = 0 }) (same d) refl (inl (some_taken e))))
scan_rows-Taken config disk_idx disk_files lo big first (f ∷ fs) s xs h fits some_taken d =
    let T : Scan → Type 0 = λ t. Taken xs (f ∷ fs) (close_scan t) in
    let some_seq : 0 < f.seq = omega (arith, h.0) in
    let full : Scan = record s { seq = 0; hole_size = 0 } in
    let filled : Scan = record s { seq = f.seq; file_size = f.size; hole_size = 0 } in
    let kept = if not (disk_idx == config.max_size_disk) || not first then 0 else f.seq in
    let too_big : Scan = record s { seq = kept; file_size = f.size } in
    let more = scan_rows config disk_idx disk_files false fs (shrink f s) in
    let fill = abs_ℤ (percent_diff config f.size s.hole_size) == 0 in
    let over = ltb s.hole_size f.size in
    if_split T (at_limit config disk_files s) full
      (if fill then filled else if over then too_big else more)
      (λ e. nothing-Taken xs (f ∷ fs) full (same d) refl (inr refl))
      (λ e.
        if_split T fill filled (if over then too_big else more)
          (λ e. last-Taken xs fs f s 0 d some_seq)
          (λ e.
            if_split T over too_big more (λ e. not_first e)
              (λ e. prepend xs fs f (close_scan more) (
                scan_rows-Taken config disk_idx disk_files f.seq f.size false fs (shrink f s)
                  (xs ++ f ∷ []) h.2 (λ e. absurd (ground arith)) (λ e. grown xs f)
                  (shrink-Describes xs f s d some_seq)))))
  where
    not_first :
        ltb s.hole_size f.size ≡ true
        → Taken xs (f ∷ fs) (
            close_scan (record s {
              seq = if not (disk_idx == config.max_size_disk) || not first then 0 else f.seq;
              file_size = f.size;
            }))
    not_first over = elim (Bool-cases first) [
      | inl is_first ↦ let le = fits is_first in let le' = h.1 in absurd (ground arith)
      | inr later ↦
          nothing-Taken xs (f ∷ fs)
            (record s {
              seq = if not (disk_idx == config.max_size_disk) || not first then 0 else f.seq;
              file_size = f.size;
            })
            (same d) (ground arith) (inl (some_taken later))
    ]

-- One turn of the outer loop takes the first candidates, and at least one or the hole is closed.
pub scan_hole-Taken :
    (config : Config) (disk_idx disk_files hole lo big : ℕ) (rows : List NewFile)
    → Listed lo big rows
    → Taken [] (candidates hole rows) (scan_hole config disk_idx disk_files hole rows)
unfolding scan_hole
scan_hole-Taken config disk_idx disk_files hole lo big rows h =
    scan_rows-Taken config disk_idx disk_files lo hole true (candidates hole rows) (new_scan hole)
      [] (candidates-bounded hole lo big rows h) (λ e. omega arith) (λ e. absurd (ground arith))
      (record {
        count = refl;
        sum = refl;
        start = refl;
        last = refl;
        some_start = λ p. absurd (omega arith);
      })
