-- ===== src/Plan/Candidates.antt =====
-- The first candidates of fillHole and the range of seqs from the first to the last of them.
use mathlib.Core.Path.{subst}
use parity_backup.Base.{
  if_true, if_false, ℕ, ◌≤◌, true, false, not, ◌&&◌, List, [], ◌∷◌, ◌++◌, if◌then◌else◌, leb, ◌≡◌,
  inl, inr, arith, refl, sym, ap, ◌∙◌, Bool-cases,
}
use parity_backup.Plan.{NewFile}
use parity_backup.Plan.Insert.{select_between, between}
use parity_backup.Plan.Hole.{candidates}
use parity_backup.Plan.Rows.{Listed, last_from, select_above, last_from-le, candidates-Listed}

pub cons_parts {ℓ} : {A : Type ℓ} (x y : A) (xs ys : List A) → x ∷ xs ≡ y ∷ ys → (x ≡ y) × (xs ≡ ys)
cons_parts x y xs ys e = (cc, cc)

-- A row in range that is not marked heads the selection.
pub head_selected :
    (start : ℕ) (f y : NewFile) (fs ys : List NewFile)
    → f ≡ y
    → not f.marked ≡ true
    → start ≤ f.seq
    → f.seq ≤ last_from f.seq ys
    → select_between start (last_from f.seq ys) fs ≡ ys
    → select_between start (last_from y.seq ys) (f ∷ fs) ≡ y ∷ ys
unfolding select_between
head_selected start f y fs ys same fresh lo hi ih =
    let seq_same : y.seq ≡ f.seq = ap (λ (g : NewFile). g.seq) (sym same) in
    let inside : not f.marked && between start (last_from f.seq ys) f.seq ≡ true = ground arith in
    ap
      (λ (n : ℕ).
        if not f.marked && between start (last_from n ys) f.seq
        then f ∷ select_between start (last_from n ys) fs
        else select_between start (last_from n ys) fs)
      seq_same
    ∙ (if_true _ (f ∷ select_between start (last_from f.seq ys) fs)
          (select_between start (last_from f.seq ys) fs) inside
        ∙ (ap (λ (gs : List NewFile). f ∷ gs) ih ∙ ap (λ (g : NewFile). g ∷ ys) same))

-- Where every size is at most the bound, the range from `start` to the last of the first candidates
-- selects just these candidates.
select_next :
    (bound start lo big : ℕ) (rows ys zs : List NewFile)
    → Listed lo big rows
    → big ≤ bound
    → start ≤ lo
    → candidates bound rows ≡ ys ++ zs
    → (d : ℕ) → d ≤ lo
    → select_between start (last_from d ys) rows ≡ ys
unfolding candidates select_between
select_next bound start lo big [] [] zs h le lo_le e d d_le = refl
select_next bound start lo big [] (y ∷ ys) zs h le lo_le e d d_le = absurd cc
select_next bound start lo big (f ∷ fs) [] zs h le lo_le e d d_le =
    let above : between start d f.seq ≡ false = let lt = h.0 in ground arith in
    let rest = select_above start d f.seq f.size fs (let lt = h.0 in omega arith) h.2 in
    ground arith
select_next bound start lo big (f ∷ fs) (y ∷ ys) zs h le lo_le e d d_le =
    let lt = h.0 in
    let small = h.1 in
    let cands = candidates bound fs in
    elim (Bool-cases (not f.marked)) [
      | inr marked ↦
          let skipped : not f.marked && leb f.size bound ≡ false = ground arith in
          let e' : cands ≡ (y ∷ ys) ++ zs = sym (if_false _ (f ∷ cands) cands skipped) ∙ e in
          let ih =
            select_next bound start f.seq f.size fs (y ∷ ys) zs h.2 (omega arith) (omega arith) e' d
              (omega arith) in
          let out : not f.marked && between start (last_from y.seq ys) f.seq ≡ false =
            ground arith in
          if_false _ (f ∷ select_between start (last_from y.seq ys) fs)
            (select_between start (last_from y.seq ys) fs) out
          ∙ ih
      | inl fresh ↦
          let fits : not f.marked && leb f.size bound ≡ true = ground arith in
          let e' : f ∷ cands ≡ y ∷ (ys ++ zs) = sym (if_true _ (f ∷ cands) cands fits) ∙ e in
          let (same, rest) = cons_parts f y cands (ys ++ zs) e' in
          let seq_same : y.seq ≡ f.seq = ap (λ (g : NewFile). g.seq) (sym same) in
          let ih =
            select_next bound start f.seq f.size fs ys zs h.2 (omega arith) (omega arith) rest f.seq
              (omega arith) in
          let listed : Listed f.seq f.size (ys ++ zs) =
            subst (Listed f.seq f.size) rest (candidates-Listed bound f.seq f.size fs h.2) in
          let le_last : f.seq ≤ last_from f.seq ys =
            last_from-le f.seq f.size ys zs listed f.seq (omega arith) in
          head_selected start f y fs ys same fresh (omega arith) le_last ih
    ]

-- The range from the first to the last of the first candidates selects just these candidates.
pub select_candidates :
    (bound lo big : ℕ) (rows : List NewFile) (y : NewFile) (ys zs : List NewFile)
    → Listed lo big rows
    → candidates bound rows ≡ (y ∷ ys) ++ zs
    → select_between y.seq (last_from y.seq ys) rows ≡ y ∷ ys
unfolding candidates select_between
select_candidates bound lo big [] y ys zs h e = absurd cc
select_candidates bound lo big (f ∷ fs) y ys zs h e =
    let cands = candidates bound fs in
    let cands_listed = candidates-Listed bound f.seq f.size fs h.2 in
    elim (Bool-cases (not f.marked && leb f.size bound)) [
      | inr skipped ↦
          let e' : cands ≡ (y ∷ ys) ++ zs = sym (if_false _ (f ∷ cands) cands skipped) ∙ e in
          let listed : Listed f.seq f.size (y ∷ (ys ++ zs)) =
            subst (Listed f.seq f.size) e' cands_listed in
          let later = listed.0 in
          let out : not f.marked && between y.seq (last_from y.seq ys) f.seq ≡ false =
            ground arith in
          if_false _ (f ∷ select_between y.seq (last_from y.seq ys) fs)
            (select_between y.seq (last_from y.seq ys) fs) out
          ∙ select_candidates bound f.seq f.size fs y ys zs h.2 e'
      | inl taken ↦
          let e' : f ∷ cands ≡ y ∷ (ys ++ zs) = sym (if_true _ (f ∷ cands) cands taken) ∙ e in
          let (same, rest) = cons_parts f y cands (ys ++ zs) e' in
          let listed : Listed f.seq f.size (ys ++ zs) =
            subst (Listed f.seq f.size) rest cands_listed in
          let fits : f.size ≤ bound = ground arith in
          subst (λ (n : ℕ). select_between n (last_from y.seq ys) (f ∷ fs) ≡ y ∷ ys)
            (ap (λ (g : NewFile). g.seq) same)
            (head_selected f.seq f y fs ys same (ground arith) (omega arith)
              (last_from-le f.seq f.size ys zs listed f.seq (omega arith))
              (select_next bound f.seq f.seq f.size fs ys zs h.2 fits (omega arith) rest f.seq
                (omega arith)))
    ]
