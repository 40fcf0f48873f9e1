-- ===== src/Patterns.antt =====
-- pathMatchPattern of backup.cpp: whether a path, which starts with the id of its disk, is wanted.
-- fnmatch with FNM_PATHNAME and FNM_PERIOD, regexec and getFileOwner are arguments.
use parity_backup.Base.{
  ℕ, Bool, true, false, ◌&&◌, List, [], ◌∷◌, if◌then◌else◌, ◌==◌, ◌≡◌, ◌⊎◌, ◌↔◌, inl, inr, arith,
  refl, sym, ◌∙◌, Bool-cases, if_true, if_false,
}
use parity_backup.Base.Int.{ℤ, pos, negsuc, ltb_ℤ, pos_part, neg_part}
use parity_backup.Text.{is_prefix, find_any_char}

-- The patterns, the compiled regular expressions, and the calls outside.
pub record Filter : Type 0 where
  pub patterns : List (List ℕ)
  pub regexes : List (List ℕ → Bool)
  pub fnmatch : List ℕ → List ℕ → Bool
  pub file_owner : List ℕ → ℤ

-- WILDCARDS
abbrev pub wildcards : List ℕ
wildcards = 63 ∷ 42 ∷ []

-- strchr(path, '/'); a path without a separator does not occur.
abbrev pub from_separator : List ℕ → List ℕ
from_separator [] = []
from_separator (c ∷ path) = if c == 47 then c ∷ path else from_separator path

-- A pattern that starts with the separator is compared without the id of the disk.
abbrev pub compared : List ℕ → List ℕ → List ℕ
compared [] path = path
compared (c ∷ pattern) path = if c == 47 then from_separator path else path

abbrev pub pattern_matches : (List ℕ → List ℕ → Bool) → List ℕ → List ℕ → Bool
pattern_matches fnmatch path pattern =
    let p = compared pattern path in
    if find_any_char pattern wildcards == 0 then is_prefix pattern p else fnmatch pattern p

-- The two loops: they stop at the first match.
abbrev pub any_pattern : (List ℕ → List ℕ → Bool) → List ℕ → List (List ℕ) → Bool
any_pattern fnmatch path [] = false
any_pattern fnmatch path (q ∷ qs) =
    let rest = any_pattern fnmatch path qs in if pattern_matches fnmatch path q then true else rest

abbrev pub any_regex : List ℕ → List (List ℕ → Bool) → Bool
any_regex path [] = false
any_regex path (r ∷ rs) = let rest = any_regex path rs in if r path then true else rest

-- What follows the label check_owner; an owner below 0 asks for none.
abbrev pub check_owner : Filter → List ℕ → ℤ → Bool
check_owner f path (negsuc n) = true
check_owner f path (pos n) =
    (pos_part (f.file_owner path) == n) && (neg_part (f.file_owner path) == 0)

abbrev pub is_empty {ℓ} : {A : Type ℓ} → List A → Bool
is_empty [] = true
is_empty (x ∷ xs) = false

unfoldable pub path_match_pattern : Filter → List ℕ → ℤ → Bool
path_match_pattern f path owner =
    if is_empty f.patterns && is_empty f.regexes && ltb_ℤ owner (pos 0)
    then true
    else if any_pattern f.fnmatch path f.patterns
    then check_owner f path owner
    else if any_regex path f.regexes
    then check_owner f path owner
    else false

-- One of the elements.
abbrev pub AnyOf {ℓ} : {A : Type ℓ} → (A → Type 0) → List A → Type 0
AnyOf P [] = ⊥
AnyOf P (x ∷ xs) = P x ⊎ AnyOf P xs

-- The path matches a pattern or an expression.
abbrev pub IsNamed : Filter → List ℕ → Type 0
IsNamed f path =
    AnyOf (λ q. pattern_matches f.fnmatch path q ≡ true) f.patterns
    ⊎ AnyOf (λ r. r path ≡ true) f.regexes

-- The path belongs to the owner, if one is asked for.
abbrev pub IsOwned : Filter → List ℕ → ℤ → Type 0
IsOwned f path owner = (ltb_ℤ owner (pos 0) ≡ true) ⊎ (f.file_owner path ≡ owner)

any_pattern_lem :
    (fnmatch : List ℕ → List ℕ → Bool) (path : List ℕ) (qs : List (List ℕ))
    → (any_pattern fnmatch path qs ≡ true) ↔ AnyOf (λ q. pattern_matches fnmatch path q ≡ true) qs
any_pattern_lem fnmatch path [] = (λ h. absurd cc, λ h. absurd h)
any_pattern_lem fnmatch path (q ∷ qs) =
    let (there, back) = any_pattern_lem fnmatch path qs in
    (
      λ h. elim (Bool-cases (pattern_matches fnmatch path q)) [
        | inl e ↦ inl e
        | inr e ↦ inr (there (sym (if_false _ _ _ e) ∙ h))
      ],
      λ h. elim (Bool-cases (pattern_matches fnmatch path q)) [
        | inl e ↦ if_true _ _ _ e
        | inr e ↦ if_false _ _ _ e ∙ elim h [ inl e' ↦ absurd cc | inr later ↦ back later ]
      ],
    )

any_regex_lem :
    (path : List ℕ) (rs : List (List ℕ → Bool))
    → (any_regex path rs ≡ true) ↔ AnyOf (λ r. r path ≡ true) rs
any_regex_lem path [] = (λ h. absurd cc, λ h. absurd h)
any_regex_lem path (r ∷ rs) =
    let (there, back) = any_regex_lem path rs in
    (
      λ h. elim (Bool-cases (r path)) [
        | inl e ↦ inl e
        | inr e ↦ inr (there (sym (if_false _ _ _ e) ∙ h))
      ],
      λ h. elim (Bool-cases (r path)) [
        | inl e ↦ if_true _ _ _ e
        | inr e ↦ if_false _ _ _ e ∙ elim h [ inl e' ↦ absurd cc | inr later ↦ back later ]
      ],
    )

check_owner_lem :
    (f : Filter) (path : List ℕ) (owner : ℤ)
    → (check_owner f path owner ≡ true) ↔ IsOwned f path owner
check_owner_lem f path (negsuc n) = (λ h. inl (ground arith), λ h. refl)
check_owner_lem f path (pos n) = (
  λ h. inr (same_owner (f.file_owner path) n h),
  λ h. elim h [ inl neg ↦ absurd (ground arith) | inr e ↦ rw e (ground arith) ],
)
  where
    same_owner : (a : ℤ) (n : ℕ) → (pos_part a == n) && (neg_part a == 0) ≡ true → a ≡ pos n
    same_owner a n h = ground arith

-- A path is wanted exactly if no pattern, no expression and no owner is asked for, or if it matches one
-- of the patterns or expressions and, where an owner is asked for, belongs to that owner. An owner
-- asked for without a pattern or an expression leaves no path wanted.
pub path_match_pattern_lem :
    (f : Filter) (path : List ℕ) (owner : ℤ)
    → (path_match_pattern f path owner ≡ true) ↔ (
        ((is_empty f.patterns && is_empty f.regexes ≡ true) × (ltb_ℤ owner (pos 0) ≡ true))
        ⊎ (IsNamed f path × IsOwned f path owner))
unfolding path_match_pattern
path_match_pattern_lem f path owner =
    let (p_to, p_from) = any_pattern_lem f.fnmatch path f.patterns in
    let (r_to, r_from) = any_regex_lem path f.regexes in
    let (o_to, o_from) = check_owner_lem f path owner in
    let none = is_empty f.patterns && is_empty f.regexes && ltb_ℤ owner (pos 0) in
    elim (Bool-cases none) [
      | inl e ↦ (λ h. inl (ground arith, ground arith), λ h. if_true _ _ _ e)
      | inr e ↦ elim (Bool-cases (any_pattern f.fnmatch path f.patterns)) [
        | inl p ↦ (
          λ h. inr (inl (p_to p), o_to (sym (if_false _ _ _ e ∙ if_true _ _ _ p) ∙ h)),
          λ h.
              if_false _ _ _ e
              ∙ (if_true _ _ _ p ∙ elim h [
                | inl (a, b) ↦ absurd (ground arith)
                | inr (named, owned) ↦ o_from owned
              ]),
        )
        | inr p ↦ elim (Bool-cases (any_regex path f.regexes)) [
          | inl r ↦ (
            λ h. inr (
              inr (r_to r),
              o_to (sym (if_false _ _ _ e ∙ (if_false _ _ _ p ∙ if_true _ _ _ r)) ∙ h),
            ),
            λ h.
                if_false _ _ _ e
                ∙ (if_false _ _ _ p
                    ∙ (if_true _ _ _ r ∙ elim h [
                      | inl (a, b) ↦ absurd (ground arith)
                      | inr (named, owned) ↦ o_from owned
                    ])),
          )
          | inr r ↦ (
            λ h.
                let no_match = sym (if_false _ _ _ e ∙ (if_false _ _ _ p ∙ if_false _ _ _ r)) ∙ h in
                absurd cc,
            λ h. elim h [
              | inl (a, b) ↦ absurd (ground arith)
              | inr (inl by_pattern, owned) ↦ let e' = p_from by_pattern in absurd cc
              | inr (inr by_regex, owned) ↦ let e' = r_from by_regex in absurd cc
            ],
          )
        ]
      ]
    ]
