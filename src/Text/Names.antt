-- ===== src/Text/Names.antt =====
-- getDiskIndex and isBlank: what they accept.
use parity_backup.Base.{
  ℕ, ◌+◌, ◌-◌, ◌*◌, ◌==◌, ◌≤◌, true, false, List, [], ◌∷◌, ◌++◌, ◌≡◌, ◌⊎◌, ◌↔◌, inl, inr, arith,
  refl, sym, ap, ◌∙◌, Bool-cases, All, if_true, if_false,
}
use parity_backup.Base.Int.{pos}
use parity_backup.Text.{
  is_digit, is_space, is_blank, ends_id, index_of, second_digit, get_disk_index,
}

-- The text ends here, or with `/` or `=` the id does.
abbrev pub Ends : List ℕ → Type 0
Ends rest = (rest ≡ []) ⊎ ((es : List ℕ) × (rest ≡ 47 ∷ es)) ⊎ ((es : List ℕ) × (rest ≡ 61 ∷ es))

-- `D` and one digit, or `D` and two digits, which together stand for the index `i`.
abbrev pub IsDiskId : List ℕ → ℕ → Type 0
IsDiskId s i =
    ((d : ℕ) × (rest : List ℕ) × (d ≤ 9) × Ends rest × (s ≡ 68 ∷ (48 + d) ∷ rest) × (d ≡ i + 1))
    ⊎ ((d : ℕ) × (e : ℕ) × (rest : List ℕ) × (d ≤ 9)
        × (e ≤ 9)
        × Ends rest
        × (s ≡ 68 ∷ (48 + d) ∷ (48 + e) ∷ rest)
        × (11 * d + e ≡ i + 1))

ends_id-Ends : (rest : List ℕ) → ends_id rest ≡ true → Ends rest
ends_id-Ends [] h = inl refl
ends_id-Ends (c ∷ es) h = elim (Bool-cases (c == 47)) [
  | inl slash ↦ inr (inl (es, let e : c ≡ 47 = ground arith in rw e refl))
  | inr other ↦ inr (inr (es, let e : c ≡ 61 = ground arith in rw e refl))
]

index_of_some : (rv i : ℕ) (p : List ℕ) → index_of rv p ≡ pos i → (rv ≡ i + 1) × Ends p
index_of_some rv i p h = elim (Bool-cases (ends_id p)) [
  | inl ends ↦ (ground arith, ends_id-Ends p ends)
  | inr open_end ↦ absurd (ground arith)
]

id_start :
    (c d i : ℕ) (rest : List ℕ)
    → get_disk_index (c ∷ d ∷ rest) ≡ pos i
    → (c ≡ 68) × (48 ≤ d) × (d ≤ 57) × (second_digit (d - 48) rest ≡ pos i)
unfolding get_disk_index
id_start c d i rest h = ground arith

one_digit :
    (c d i : ℕ) (rest : List ℕ)
    → c ≡ 68
    → 48 ≤ d
    → d ≤ 57
    → index_of (d - 48) rest ≡ pos i
    → IsDiskId (c ∷ d ∷ rest) i
one_digit c d i rest id lo hi h =
    let (e, ends) = index_of_some (d - 48) i rest h in
    let digit : d ≡ 48 + (d - 48) = omega arith in
    inl (
      d - 48,
      rest,
      omega arith,
      ends,
      ap (λ (m : ℕ). m ∷ d ∷ rest) id ∙ ap (λ (m : ℕ). 68 ∷ m ∷ rest) digit,
      e,
    )

accepted_id : (s : List ℕ) (i : ℕ) → get_disk_index s ≡ pos i → IsDiskId s i
accepted_id [] i h = absurd (unfold get_disk_index in ground arith)
accepted_id (c ∷ []) i h = absurd (unfold get_disk_index in ground arith)
accepted_id (c ∷ d ∷ []) i h =
    let (id, lo, hi, at) = id_start c d i [] h in one_digit c d i [] id lo hi at
accepted_id (c ∷ d ∷ e ∷ es) i h =
    let (id, lo, hi, at) = id_start c d i (e ∷ es) h in
    elim (Bool-cases (is_digit e)) [
      | inr other ↦ one_digit c d i (e ∷ es) id lo hi (sym (if_false _ _ _ other) ∙ at)
      | inl second ↦
          let (sum, ends) =
            index_of_some (d - 48 + ((d - 48) * 10 + (e - 48))) i es
              (sym (if_true _ _ _ second) ∙ at) in
          let first_char : d ≡ 48 + (d - 48) = omega arith in
          let next_char : e ≡ 48 + (e - 48) = ground arith in
          inr (
            d - 48,
            e - 48,
            es,
            omega arith,
            ground arith,
            ends,
            ap (λ (m : ℕ). m ∷ d ∷ e ∷ es) id
                ∙ ap (λ (m : ℕ). 68 ∷ m ∷ e ∷ es) first_char
                ∙ ap (λ (m : ℕ). 68 ∷ (48 + (d - 48)) ∷ m ∷ es) next_char,
            omega arith,
          )
    ]

one_digit_index :
    (d i : ℕ) (rest : List ℕ)
    → d ≤ 9
    → Ends rest
    → d ≡ i + 1
    → get_disk_index (68 ∷ (48 + d) ∷ rest) ≡ pos i
unfolding get_disk_index
one_digit_index d i rest le (inl e) sum = rw e (ground arith)
one_digit_index d i rest le (inr (inl (es, e))) sum = rw e (ground arith)
one_digit_index d i rest le (inr (inr (es, e))) sum = rw e (ground arith)

two_digit_index :
    (d e i : ℕ) (rest : List ℕ)
    → d ≤ 9
    → e ≤ 9
    → Ends rest
    → 11 * d + e ≡ i + 1
    → get_disk_index (68 ∷ (48 + d) ∷ (48 + e) ∷ rest) ≡ pos i
unfolding get_disk_index
two_digit_index d e i rest le le' (inl q) sum = rw q (ground arith)
two_digit_index d e i rest le le' (inr (inl (es, q))) sum = rw q (ground arith)
two_digit_index d e i rest le le' (inr (inr (es, q))) sum = rw q (ground arith)

-- getDiskIndex gives an index exactly to the texts that are, up to their end or a first `/` or `=`, `D`
-- and one digit, which is the index and one, or `D` and two digits, of which eleven times the
-- first plus the second is the index and one. To each other text it gives none.
pub get_disk_index_lem : (s : List ℕ) (i : ℕ) → (get_disk_index s ≡ pos i) ↔ IsDiskId s i
get_disk_index_lem s i = (
  accepted_id s i,
  λ h. elim h [
    | inl (d, rest, le, ends, at, sum) ↦ ap get_disk_index at ∙ one_digit_index d i rest le ends sum
    | inr (d, e, rest, le, le', ends, at, sum) ↦
        ap get_disk_index at ∙ two_digit_index d e i rest le le' ends sum
  ],
)

abbrev IsBlank : List ℕ → Type 0
IsBlank s =
    (blanks : List ℕ) × All (λ c. is_space c ≡ true) blanks
    × ((s ≡ blanks) ⊎ ((c : ℕ) × (s ≡ blanks ++ c ∷ [])))

cons-IsBlank : (c : ℕ) (s : List ℕ) → is_space c ≡ true → IsBlank s → IsBlank (c ∷ s)
cons-IsBlank c s space (blanks, all, inl e) =
    (c ∷ blanks, (space, all), inl (ap (λ (w : List ℕ). c ∷ w) e))
cons-IsBlank c s space (blanks, all, inr (d, e)) =
    (c ∷ blanks, (space, all), inr (d, ap (λ (w : List ℕ). c ∷ w) e))

accepted_shape : (s : List ℕ) → is_blank s ≡ true → IsBlank s
unfolding is_blank
accepted_shape [] h = ([], tt, inl refl)
accepted_shape (c ∷ []) h = ([], tt, inr (c, refl))
accepted_shape (c ∷ d ∷ s) h = elim (Bool-cases (is_space c)) [
  | inl space ↦
      cons-IsBlank c (d ∷ s) space (accepted_shape (d ∷ s) (sym (if_true _ _ _ space) ∙ h))
  | inr other ↦ let e = sym (if_false _ (is_blank (d ∷ s)) false other) ∙ h in absurd (ground arith)
]

accepts_blanks : (s : List ℕ) → All (λ c. is_space c ≡ true) s → is_blank s ≡ true
unfolding is_blank
accepts_blanks [] h = refl
accepts_blanks (c ∷ s) h = if_true _ _ _ h.0 ∙ accepts_blanks s h.1

accepts_last : (s : List ℕ) (c : ℕ) → All (λ c. is_space c ≡ true) s → is_blank (s ++ c ∷ []) ≡ true
unfolding is_blank
accepts_last [] c h = elim (Bool-cases (is_space c)) [
  | inl space ↦ if_true _ _ _ space
  | inr other ↦ if_false _ _ _ other
]
accepts_last (d ∷ s) c h = if_true _ _ _ h.0 ∙ accepts_last s c h.1

-- isBlank accepts the blank strings, and also each string of blanks that ends with one character of
-- any other kind.
pub is_blank_lem :
    (s : List ℕ)
    → (is_blank s ≡ true) ↔ (
        (blanks : List ℕ) × All (λ c. is_space c ≡ true) blanks
        × ((s ≡ blanks) ⊎ ((c : ℕ) × (s ≡ blanks ++ c ∷ []))))
is_blank_lem s = (
  accepted_shape s,
  λ h. elim h.2 [
    | inl e ↦ ap is_blank e ∙ accepts_blanks h.0 h.1
    | inr (c, e) ↦ ap is_blank e ∙ accepts_last h.0 c h.1
  ],
)
