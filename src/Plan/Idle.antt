-- ===== src/Plan/Idle.antt =====
-- A turn of fillHole on a disk that is not at its limit takes a row, or else the disk has none left.
use parity_backup.Base.{
  ℕ, ◌<◌, ◌≤◌, Bool, true, false, List, [], ◌∷◌, ◌==◌, ltb, ◌≡◌, ◌⊎◌, inl, inr, arith, if_split,
}
use parity_backup.Plan.{NewFile, Config, percent_diff, abs_ℤ}
use parity_backup.Plan.Hole.{
  candidates, Scan, at_limit, shrink, close_scan, new_scan, scan_rows, scan_hole,
}
use parity_backup.Plan.Rows.{Listed, candidates-bounded}

-- The scan never gives a row back.
scan_rows-file_count :
    (config : Config) (disk files : ℕ) (first : Bool) (fs : List NewFile) (s : Scan)
    → s.file_count ≤ (scan_rows config disk files first fs s).file_count
unfolding scan_rows
scan_rows-file_count config disk files first [] s = ground arith
scan_rows-file_count config disk files first (f ∷ fs) s =
    let more = scan_rows config disk files false fs (shrink f s) in
    let fill = abs_ℤ (percent_diff config f.size s.hole_size) == 0 in
    let over = ltb s.hole_size f.size in
    let P : Scan → Type 0 = λ t. s.file_count ≤ t.file_count in
    if_split P (at_limit config files s) _ _ (λ e. omega arith)
      (λ e.
        if_split P fill _ _ (λ e. omega arith)
          (λ e.
            if_split P over _ more (λ e. omega arith)
              (λ e.
                let ih = scan_rows-file_count config disk files false fs (shrink f s) in
                ground arith)))

-- With a row that fits the hole, the scan takes one.
some_taken :
    (config : Config) (disk files hole : ℕ) (f : NewFile) (fs : List NewFile)
    → at_limit config files (new_scan hole) ≡ false
    → 0 < f.seq
    → f.size ≤ hole
    → 0 < (close_scan (scan_rows config disk files true (f ∷ fs) (new_scan hole))).file_count
unfolding scan_rows
some_taken config disk files hole f fs free pos fits =
    let s = new_scan hole in
    let more = scan_rows config disk files false fs (shrink f s) in
    let fill = abs_ℤ (percent_diff config f.size hole) == 0 in
    let over = ltb hole f.size in
    let P : Scan → Type 0 = λ t. 0 < (close_scan t).file_count in
    if_split P (at_limit config files s) _ _ (λ e. absurd (ground arith))
      (λ e.
        if_split P fill _ _ (λ e. ground arith)
          (λ e.
            if_split P over _ more (λ e. absurd (ground arith))
              (λ e.
                let ih = scan_rows-file_count config disk files false fs (shrink f s) in
                let one : 1 ≤ (shrink f s).file_count = ground arith in ground arith)))

pub scan_hole_idle :
    (config : Config) (disk files hole big : ℕ) (rows : List NewFile)
    → Listed 0 big rows
    → at_limit config files (new_scan hole) ≡ false
    → (0 < (scan_hole config disk files hole rows).file_count)
      ⊎ ((scan_hole config disk files hole rows).finished ≡ true)
unfolding scan_hole
scan_hole_idle config disk files hole big rows h free =
    idle (candidates hole rows) (candidates-bounded hole 0 big rows h)
  where
    none_left : (close_scan (scan_rows config disk files true [] (new_scan hole))).finished ≡ true
    none_left = unfold scan_rows in ground arith

    idle :
        (cs : List NewFile)
        → Listed 0 hole cs
        → (0 < (close_scan (scan_rows config disk files true cs (new_scan hole))).file_count)
          ⊎ ((close_scan (scan_rows config disk files true cs (new_scan hole))).finished ≡ true)
    idle [] l = inr none_left
    idle (f ∷ fs) l = inl (some_taken config disk files hole f fs free l.0 l.1)
