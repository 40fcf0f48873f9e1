-- ===== src/Plan/Ranges.antt =====
-- The rows of newfiles in a range of seqs: a selection that is cut short is the selection of a
-- shorter range.
use mathlib.Core.Path.{subst}
use parity_backup.Base.{
  ℕ, ◌≤◌, false, not, ◌&&◌, List, [], ◌∷◌, ◌++◌, ◌≡◌, inl, inr, arith, refl, sym, ◌∙◌, Bool-cases,
  if_split, if_true, if_false, leb,
}
use parity_backup.Plan.{NewFile}
use parity_backup.Plan.Insert.{select_between, between}
use parity_backup.Plan.Candidates.{head_selected, cons_parts}
use parity_backup.Plan.Rows.{Listed, Listed-weaken, last_from, select_above, last_from-le}

pub select_between-Listed :
    (start last lo big : ℕ) (rows : List NewFile)
    → Listed lo big rows
    → Listed lo big (select_between start last rows)
unfolding select_between
select_between-Listed start last lo big [] h = tt
select_between-Listed start last lo big (f ∷ fs) h =
    let rest = select_between-Listed start last f.seq f.size fs h.2 in
    if_split (Listed lo big) (not f.marked && between start last f.seq)
      (f ∷ select_between start last fs) (select_between start last fs) (λ e. (h.0, h.1, rest))
      (λ e.
        let lt = h.0 in
        Listed-weaken f.seq lo f.size big (select_between start last fs) (omega arith) h.1 rest)

pub select_prefix :
    (start last lo big : ℕ) (rows ys zs : List NewFile)
    → Listed lo big rows
    → select_between start last rows ≡ ys ++ zs
    → (d : ℕ) → d ≤ lo
    → select_between start (last_from d ys) rows ≡ ys
unfolding select_between
select_prefix start last lo big [] [] zs h e d le = refl
select_prefix start last lo big [] (y ∷ ys) zs h e d le = absurd cc
select_prefix start last lo big (f ∷ fs) [] zs h e d le =
    let lt = h.0 in
    let out : not f.marked && between start d f.seq ≡ false = ground arith in
    if_false _ (f ∷ select_between start d fs) (select_between start d fs) out
    ∙ select_above start d f.seq f.size fs (omega arith) h.2
select_prefix start last lo big (f ∷ fs) (y ∷ ys) zs h e d le =
    let lt = h.0 in
    let sel = select_between start last fs in
    elim (Bool-cases (not f.marked && between start last f.seq)) [
      | inr skipped ↦
          let e' : sel ≡ (y ∷ ys) ++ zs = sym (if_false _ (f ∷ sel) sel skipped) ∙ e in
          let ih = select_prefix start last f.seq f.size fs (y ∷ ys) zs h.2 e' d (omega arith) in
          let not_past : f.seq ≤ last = elim (Bool-cases (leb f.seq last)) [
            | inl below ↦ ground arith
            | inr above ↦
                let none_left = select_above start last f.seq f.size fs (ground arith) h.2 in
                absurd cc
          ] in
          let out : not f.marked && between start (last_from y.seq ys) f.seq ≡ false =
            ground arith in
          if_false _ (f ∷ select_between start (last_from y.seq ys) fs)
            (select_between start (last_from y.seq ys) fs) out
          ∙ ih
      | inl taken ↦
          let e' : f ∷ sel ≡ y ∷ (ys ++ zs) = sym (if_true _ (f ∷ sel) sel taken) ∙ e in
          let (same, rest) = cons_parts f y sel (ys ++ zs) e' in
          let listed : Listed f.seq f.size (ys ++ zs) =
            subst (Listed f.seq f.size) rest
              (select_between-Listed start last f.seq f.size fs h.2) in
          head_selected start f y fs ys same (ground arith) (ground arith)
            (last_from-le f.seq f.size ys zs listed f.seq (omega arith))
            (select_prefix start last f.seq f.size fs ys zs h.2 rest f.seq (omega arith))
    ]
