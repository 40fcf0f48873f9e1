-- ===== src/Plan/Extends.antt =====
-- What an insertion by insert2slice does to the plan: the files of one disk are laid end to end.
use parity_backup.Base.{
  ℕ, ◌+◌, ◌<◌, ◌||◌, Option, none, some, List, [], ◌∷◌, ◌++◌, length, ltb, ◌≡◌, ◌≢◌, arith, refl,
  sym, ap, ◌∙◌, if_split, append_assoc, append-nil, length-append,
}
use parity_backup.Plan.{NewFile, Position, Plan}
use parity_backup.Plan.Insert.{position_of, Added, add_rows, two_giga}
use parity_backup.Plan.Rows.{
  left_count, left_total, total, last_from, total-append, named, marked_count, named-append,
  row_sizes,
}
use parity_backup.Plan.Stats.{KnowsMax}

-- The positions of files laid end to end from `soffset` on.
abbrev pub lay_out : List ℕ → ℕ → ℕ → List NewFile → List Position
lay_out sid disk soffset [] = []
lay_out sid disk soffset (f ∷ fs) =
    position_of sid disk soffset f ∷ lay_out sid disk (soffset + f.size) fs

pub lay_out-append :
    (sid : List ℕ) (disk soffset : ℕ) (xs ys : List NewFile)
    → lay_out sid disk soffset (xs ++ ys)
      ≡ lay_out sid disk soffset xs ++ lay_out sid disk (soffset + total xs) ys
lay_out-append sid disk soffset [] ys = let e : soffset + 0 ≡ soffset = omega arith in rw e
lay_out-append sid disk soffset (x ∷ xs) ys =
    let e : soffset + (x.size + total xs) ≡ soffset + x.size + total xs = omega arith in
    rw e (
      ap (λ (ps : List Position). position_of sid disk soffset x ∷ ps)
        (lay_out-append sid disk (soffset + x.size) xs ys))

-- The loop adds the first rows `ys` of the selection, all of them where no limit is set.
pub record Adds (rest : Option ℕ) (sid : List ℕ) (disk soffset : ℕ) (rows : List NewFile)
    (a b : Added) : Type 0 where
  pub ys : List NewFile
  pub zs : List NewFile
  pub split : rows ≡ ys ++ zs
  pub no_limit : rest ≡ none → zs ≡ []
  pub positions : b.positions ≡ a.positions ++ lay_out sid disk soffset ys
  pub files : b.files ≡ a.files + length ys
  pub bytes : b.bytes ≡ a.bytes + total ys
  pub seq : b.seq ≡ last_from a.seq ys

Adds-more :
    (rest : Option ℕ) (sid : List ℕ) (disk soffset : ℕ) (f : NewFile) (fs : List NewFile)
    → (a a1 b : Added) → a1.positions ≡ a.positions ++ position_of sid disk soffset f ∷ []
    → a1.files ≡ a.files + 1
    → a1.bytes ≡ a.bytes + f.size
    → a1.seq ≡ f.seq
    → Adds rest sid disk (soffset + f.size) fs a1 b
    → Adds rest sid disk soffset (f ∷ fs) a b
Adds-more rest sid disk soffset f fs a a1 b p n y q r =
    let r_files = r.files in
    let r_bytes = r.bytes in
    record {
      ys = f ∷ r.ys;
      zs = r.zs;
      split = ap (λ (gs : List NewFile). f ∷ gs) r.split;
      no_limit = r.no_limit;
      positions =
          r.positions
          ∙ (ap (λ (ps : List Position). ps ++ lay_out sid disk (soffset + f.size) r.ys) p
              ∙ append_assoc a.positions (position_of sid disk soffset f ∷ [])
                  (lay_out sid disk (soffset + f.size) r.ys));
      files = omega arith;
      bytes = omega arith;
      seq = r.seq ∙ ap (λ (n : ℕ). last_from n r.ys) q;
    }

pub add_rows-Adds :
    (rest : Option ℕ) (sid : List ℕ) (disk soffset : ℕ) (rows : List NewFile) (a : Added)
    → Adds rest sid disk soffset rows a (add_rows rest sid disk soffset rows a)
unfolding add_rows
add_rows-Adds rest sid disk soffset [] a = record {
  ys = [];
  zs = [];
  split = refl;
  no_limit = λ e. refl;
  positions = sym (append-nil a.positions);
  files = omega arith;
  bytes = omega arith;
  seq = refl;
}
add_rows-Adds none sid disk soffset (f ∷ fs) a =
    let a1 : Added = record {
      positions = a.positions ++ position_of sid disk soffset f ∷ [];
      files = a.files + 1;
      bytes = a.bytes + f.size;
      seq = f.seq;
    } in
    Adds-more none sid disk soffset f fs a a1 (add_rows none sid disk (soffset + f.size) fs a1) refl
      refl refl refl (add_rows-Adds none sid disk (soffset + f.size) fs a1)
add_rows-Adds (some max_files) sid disk soffset (f ∷ fs) a =
    let a1 : Added = record {
      positions = a.positions ++ position_of sid disk soffset f ∷ [];
      files = a.files + 1;
      bytes = a.bytes + f.size;
      seq = f.seq;
    } in
    let more = add_rows (some max_files) sid disk (soffset + f.size) fs a1 in
    if_split (λ (b : Added). Adds (some max_files) sid disk soffset (f ∷ fs) a b)
      (ltb two_giga a1.bytes || ltb max_files a1.files) a1 more
      (λ e. record {
        ys = f ∷ [];
        zs = fs;
        split = refl;
        no_limit = λ no. absurd cc;
        positions = refl;
        files = omega arith;
        bytes = omega arith;
        seq = refl;
      })
      (λ e.
        Adds-more (some max_files) sid disk soffset f fs a a1 more refl refl refl refl
          (add_rows-Adds (some max_files) sid disk (soffset + f.size) fs a1))

-- From `p` to `p'` the files `ys` of one disk have been laid end to end at the end of what the slice
-- had of that disk, counted, and marked; nothing else of the disks' data has changed.
pub record Extends (disk : ℕ) (ys : List NewFile) (p p' : Plan) : Type 0 where
  pub slice_id : p'.slice.slice_id ≡ p.slice.slice_id
  pub positions :
      p'.slpos ≡ p.slpos ++ lay_out p.slice.slice_id disk (p.slice.disks disk).sum_files_len ys
  pub sum : (p'.slice.disks disk).sum_files_len ≡ (p.slice.disks disk).sum_files_len + total ys
  pub files : (p'.slice.disks disk).files_in_slice ≡ (p.slice.disks disk).files_in_slice + length ys
  pub left : left_count (p'.newfiles disk) + length ys ≡ left_count (p.newfiles disk)
  pub left_bytes : left_total (p'.newfiles disk) + total ys ≡ left_total (p.newfiles disk)
  pub marks :
      (nm : List ℕ)
      → marked_count nm (p'.newfiles disk) ≡ marked_count nm (p.newfiles disk) + named nm ys
  pub sizes : row_sizes (p'.newfiles disk) ≡ row_sizes (p.newfiles disk)
  pub consumed : p'.consumed_size ≡ p.consumed_size
  pub knows : (n : ℕ) → disk < n → KnowsMax n p.slice → KnowsMax n p'.slice
  pub other_rows : (i : ℕ) → i ≢ disk → p'.newfiles i ≡ p.newfiles i
  pub other_disks : (i : ℕ) → i ≢ disk → p'.slice.disks i ≡ p.slice.disks i

pub Extends-trans :
    (disk : ℕ) (xs ys : List NewFile) (p q r : Plan)
    → Extends disk xs p q
    → Extends disk ys q r
    → Extends disk (xs ++ ys) p r
Extends-trans disk xs ys p q r e d =
    let e_sum = e.sum in
    let d_sum = d.sum in
    let e_files = e.files in
    let d_files = d.files in
    let e_left = e.left in
    let d_left = d.left in
    record {
      slice_id = d.slice_id ∙ e.slice_id;
      positions =
          d.positions
          ∙ (ap
                (λ (ps : List Position).
                  ps ++ lay_out q.slice.slice_id disk (q.slice.disks disk).sum_files_len ys)
                e.positions
              ∙ (append_assoc p.slpos
                    (lay_out p.slice.slice_id disk (p.slice.disks disk).sum_files_len xs)
                    (lay_out q.slice.slice_id disk (q.slice.disks disk).sum_files_len ys)
                  ∙ ap (λ (ps : List Position). p.slpos ++ ps)
                      (ap
                          (λ (s : List ℕ × ℕ).
                            lay_out p.slice.slice_id disk (p.slice.disks disk).sum_files_len xs
                            ++ lay_out s.0 disk s.1 ys)
                          (pair e.slice_id e.sum)
                        ∙ sym (
                            lay_out-append p.slice.slice_id disk (p.slice.disks disk).sum_files_len
                              xs ys))));
      sum = omega (arith, total-append xs ys);
      files = omega (arith, length-append xs ys);
      left = omega (arith, length-append xs ys);
      left_bytes =
          let e_bytes = e.left_bytes in
          let d_bytes = d.left_bytes in omega (arith, total-append xs ys);
      marks = λ nm.
          let e_marks = e.marks nm in
          let d_marks = d.marks nm in omega (arith, named-append nm xs ys);
      sizes = d.sizes ∙ e.sizes;
      consumed = d.consumed ∙ e.consumed;
      knows = λ n lt k. d.knows n lt (e.knows n lt k);
      other_rows = λ i ne. d.other_rows i ne ∙ e.other_rows i ne;
      other_disks = λ i ne. d.other_disks i ne ∙ e.other_disks i ne;
    }
  where
    pair : {a b : List ℕ} {m n : ℕ} → a ≡ b → m ≡ n → ◌≡◌ {A = List ℕ × ℕ} (a, m) (b, n)
    pair h k = rw (h, k)
