-- ===== src/Text/Paths.antt =====
-- splitPath, fileBasename and addPathSeparator of utils.cpp.
use parity_backup.Base.{
  ℕ, ◌+◌, Bool, true, false, Option, none, some, List, [], ◌∷◌, ◌++◌, length, length-append,
  append_assoc, if◌then◌else◌, ◌==◌, ◌≡◌, ◌⊎◌, inl, inr, arith, refl, sym, ap, ◌∙◌, Bool-cases,
  if_true, if_false,
}
use parity_backup.Text.{occurs}

-- strrchr(path, '/'): what stands before the last slash, and after it.
unfoldable pub last_slash : List ℕ → Option (List ℕ × List ℕ)
last_slash [] = none
last_slash (c ∷ s) = elim (last_slash s) [
  | none ↦ if c == 47 then some ([], s) else none
  | some (before, after) ↦ some (c ∷ before, after)
]

-- The text that is left of `path`, and the result.
abbrev pub cut_at : List ℕ → Option (List ℕ × List ℕ) → List ℕ × List ℕ
cut_at path none = (path, path)
cut_at path (some parts) = parts

unfoldable pub split_path : List ℕ → List ℕ × List ℕ
split_path path = cut_at path (last_slash path)

unfoldable pub file_basename : List ℕ → List ℕ
file_basename path = elim (last_slash path) [ none ↦ path | some (before, after) ↦ after ]

-- For an empty path the code reads the byte before it; here there is no slash.
abbrev pub ends_slash : List ℕ → Bool
ends_slash [] = false
ends_slash (c ∷ []) = c == 47
ends_slash (c ∷ d ∷ s) = ends_slash (d ∷ s)

unfoldable pub add_path_separator : List ℕ → ℕ × List ℕ
add_path_separator path =
    let n = length path in if ends_slash path then (n, path) else (n + 1, path ++ 47 ∷ [])

no_slash : (base : List ℕ) → occurs 47 base ≡ false → last_slash base ≡ none
unfolding last_slash
no_slash [] h = refl
no_slash (c ∷ base) h =
    let other : (c == 47) ≡ false = ground arith in
    let later : occurs 47 base ≡ false = ground arith in
    rw (no_slash base later) (if_false _ _ _ other)

last_slash-append :
    (dir base : List ℕ) → occurs 47 base ≡ false → last_slash (dir ++ 47 ∷ base) ≡ some (dir, base)
unfolding last_slash
last_slash-append [] base h = rw (no_slash base h) refl
last_slash-append (c ∷ dir) base h = rw (last_slash-append dir base h) refl

-- A path that ends with a slash is a text and a slash.
abbrev Folder : List ℕ → Type 0
Folder path = (dir : List ℕ) × (path ≡ dir ++ 47 ∷ [])

ends_slash-Folder : (path : List ℕ) → ends_slash path ≡ true → Folder path
ends_slash-Folder [] h = absurd (ground arith)
ends_slash-Folder (c ∷ []) h =
    let slash : c ≡ 47 = ground arith in ([], ap (λ (d : ℕ). d ∷ []) slash)
ends_slash-Folder (c ∷ d ∷ s) h =
    let (dir, e) = ends_slash-Folder (d ∷ s) h in (c ∷ dir, ap (λ (t : List ℕ). c ∷ t) e)

ends_slash-append : (dir : List ℕ) → ends_slash (dir ++ 47 ∷ []) ≡ true
ends_slash-append [] = refl
ends_slash-append (c ∷ []) = refl
ends_slash-append (c ∷ d ∷ dir) = ends_slash-append (d ∷ dir)

separated :
    (path : List ℕ)
    → (dir : List ℕ) × (add_path_separator path ≡ (length dir + 1, dir ++ 47 ∷ []))
      × ((path ≡ dir) ⊎ (path ≡ dir ++ 47 ∷ []))
unfolding add_path_separator
separated path = elim (Bool-cases (ends_slash path)) [
  | inl ends ↦
      let (dir, e) = ends_slash-Folder path ends in
      let len : length path ≡ length dir + 1 =
        ap (λ (s : List ℕ). length s) e ∙ length-append dir (47 ∷ []) in
      (
        dir,
        if_true _ _ _ ends
            ∙ ap (λ (n : ℕ). (n, path)) len
            ∙ ap (λ (t : List ℕ). (length dir + 1, t)) e,
        inr e,
      )
  | inr other ↦ (path, if_false _ _ _ other, inl refl)
]

-- addPathSeparator makes of a path, with or without its last slash, the path with one, and returns its
-- length; again it changes nothing; and from what it gives with a name without slashes after it,
-- splitPath leaves the path without its last slash and gives the name, as fileBasename does.
pub add_path_separator-split_path :
    (path base : List ℕ)
    → occurs 47 base ≡ false
    → (dir : List ℕ) × ((path ≡ dir) ⊎ (path ≡ dir ++ 47 ∷ []))
      × (add_path_separator path ≡ (length dir + 1, dir ++ 47 ∷ []))
      × (add_path_separator (add_path_separator path).1 ≡ add_path_separator path)
      × (split_path ((add_path_separator path).1 ++ base) ≡ (dir, base))
      × (file_basename ((add_path_separator path).1 ++ base) ≡ base)
unfolding add_path_separator split_path file_basename
add_path_separator-split_path path base h =
    let (dir, made, was) = separated path in
    let text : (add_path_separator path).1 ≡ dir ++ 47 ∷ [] = ap (λ (r : ℕ × List ℕ). r.1) made in
    let again : add_path_separator (dir ++ 47 ∷ []) ≡ (length dir + 1, dir ++ 47 ∷ []) =
      if_true _ _ _ (ends_slash-append dir)
      ∙ ap (λ (n : ℕ). (n, dir ++ 47 ∷ [])) (length-append dir (47 ∷ [])) in
    let whole : (add_path_separator path).1 ++ base ≡ dir ++ 47 ∷ base =
      ap (λ (s : List ℕ). s ++ base) text ∙ append_assoc dir (47 ∷ []) base in
    let found = last_slash-append dir base h in
    (
      dir,
      was,
      made,
      ap add_path_separator text ∙ again ∙ sym made,
      ap split_path whole ∙ ap (cut_at (dir ++ 47 ∷ base)) found,
      ap file_basename whole
          ∙ ap
              (λ (o : Option (List ℕ × List ℕ)). elim o [
                | none ↦ dir ++ 47 ∷ base
                | some (b, a) ↦ a
              ])
              found,
    )
