-- ===== src/Plan/First.antt =====
-- initSliceFiles: a disk that has files left gives the first of them.
use mathlib.Core.Path.{subst}
use parity_backup.Base.{
  ℕ, ◌≤◌, ◌<◌, true, false, not, ◌&&◌, leb, some, List, [], ◌∷◌, All, ◌≡◌, ◌⊎◌, inl, inr, arith,
  refl, sym, ◌∙◌, Bool-cases, if_true, if_false, if_split,
}
use parity_backup.Plan.{Config, Plan, NewFile}
use parity_backup.Plan.Insert.{long_max}
use parity_backup.Plan.Hole.{Scan, candidates, init_slice_files}
use parity_backup.Plan.Rows.{Listed, left_count, row_sizes, candidates-bounded}
use parity_backup.Plan.Candidates.{select_candidates}
use parity_backup.Plan.Extends.{Extends}
use parity_backup.Plan.Filled.{insert-taken}

-- Without a candidate no row is left.
no_candidates :
    (bound lo big : ℕ) (rows : List NewFile)
    → Listed lo big rows
    → big ≤ bound
    → candidates bound rows ≡ []
    → left_count rows ≡ 0
unfolding candidates left_count
no_candidates bound lo big [] h le e = refl
no_candidates bound lo big (f ∷ fs) h le e =
    let small = h.1 in
    elim (Bool-cases f.marked) [
      | inl marked ↦
          let out : not f.marked && leb f.size bound ≡ false = ground arith in
          let rest = sym (if_false _ (f ∷ candidates bound fs) (candidates bound fs) out) ∙ e in
          if_true _ _ _ marked ∙ no_candidates bound f.seq f.size fs h.2 (omega arith) rest
      | inr fresh ↦
          let inside : not f.marked && leb f.size bound ≡ true = ground arith in
          let taken = sym (if_true _ (f ∷ candidates bound fs) (candidates bound fs) inside) ∙ e in
          absurd cc
    ]

candidates_positive :
    (bound : ℕ) (rows : List NewFile)
    → All (λ n. 0 < n) (row_sizes rows)
    → All (λ n. 0 < n) (row_sizes (candidates bound rows))
unfolding candidates
candidates_positive bound [] h = tt
candidates_positive bound (f ∷ fs) h =
    if_split (λ (rs : List NewFile). All (λ n. 0 < n) (row_sizes rs))
      (not f.marked && leb f.size bound) (f ∷ candidates bound fs) (candidates bound fs)
      (λ e. (h.0, candidates_positive bound fs h.1)) (λ e. candidates_positive bound fs h.1)

-- What initSliceFiles gives: nothing if no row is left, or the first row that is left.
abbrev pub InitOutcome : Config → ℕ → ℕ → Plan → Type 0
InitOutcome config disk big p =
    ((left_count (p.newfiles disk) ≡ 0) × (init_slice_files config disk p ≡ some (0, p)))
    ⊎ ((f : NewFile) × (q : Plan) × (init_slice_files config disk p ≡ some (f.size, q))
        × (0 < f.size)
        × Extends disk (f ∷ []) p q
        × Listed 0 big (q.newfiles disk))

pub init_slice_files_lem :
    (config : Config) (disk big : ℕ) (p : Plan)
    → Listed 0 big (p.newfiles disk)
    → big ≤ long_max
    → All (λ n. 0 < n) (row_sizes (p.newfiles disk))
    → InitOutcome config disk big p
unfolding init_slice_files
init_slice_files_lem config disk big p h le sizes =
    first_row (candidates long_max (p.newfiles disk)) refl
  where
    first_row :
        (cs : List NewFile)
        → candidates long_max (p.newfiles disk) ≡ cs
        → InitOutcome config disk big p
    first_row [] e =
        inl (no_candidates long_max 0 big (p.newfiles disk) h le e, rw (e, init_slice_files) refl)
    first_row (f ∷ fs) e =
        let listed : Listed 0 long_max (f ∷ fs) =
          subst (Listed 0 long_max) e (candidates-bounded long_max 0 big (p.newfiles disk) h) in
        let positive : All (λ n. 0 < n) (row_sizes (f ∷ fs)) =
          subst (λ (rs : List NewFile). All (λ n. 0 < n) (row_sizes rs)) e
            (candidates_positive long_max (p.newfiles disk) sizes) in
        let s : Scan = record {
          start_rowid = f.seq;
          last_rowid = f.seq;
          size_sum = f.size;
          file_count = 1;
          hole_size = 0;
          seq = 0;
          file_size = 0;
          finished = false;
        } in
        let (q, too_big, gives, extends, listed2) =
          insert-taken config disk big p s f [] h listed.0
            (record {
              count = refl;
              sum = omega arith;
              start = refl;
              last = refl;
              some_start = λ lt. listed.0;
            })
            (select_candidates long_max 0 big (p.newfiles disk) f [] fs h e) in
        inr (f, q, rw (e, init_slice_files) (rw gives refl), positive.0, extends, listed2)
