-- ===== src/Text/Shell.antt =====
-- path4shell gives a word of the shell that stands for the path.
use parity_backup.Base.{
  ℕ, zero, suc, ◌+◌, ◌<◌, true, false, ◌||◌, Option, none, some, List, [], ◌∷◌, ◌++◌, length,
  length-append, if◌then◌else◌, ◌==◌, ltb, leb, ◌≡◌, ◌⊎◌, inl, inr, arith, refl, sym, ap, ◌∙◌,
  Bool-cases, append_assoc, if_true, if_false,
}
use parity_backup.Base.Int.{pos}
use parity_backup.Text.{
  occurs, is_prefix, find_first, replace_loop, replace_str, quote, quoted_quote, path4shell,
  store_back, quote_around,
}

-- How a POSIX shell reads a word all of whose characters are quoted: `plain` outside of quotes,
-- `single` and `double` inside. In double quotes $, `, \ and ! are not taken as they are.
pub data Quotes : Type 0 where
  plain single double : Quotes

unfoldable pub shell_word : Quotes → List ℕ → Option (List ℕ)
shell_word plain [] = some []
shell_word plain (c ∷ s) =
    let in_single = shell_word single s in
    let in_double = shell_word double s in
    if c == 39 then in_single else if c == 34 then in_double else none
shell_word single [] = none
shell_word single (c ∷ s) =
    let outside = shell_word plain s in
    let rest = shell_word single s in
    if c == 39 then outside else elim rest [ none ↦ none | some w ↦ some (c ∷ w) ]
shell_word double [] = none
shell_word double (c ∷ s) =
    let outside = shell_word plain s in
    let rest = shell_word double s in
    if c == 34
    then outside
    else if (c == 36) || (c == 96) || (c == 92) || (c == 33)
    then none
    else elim rest [ none ↦ none | some w ↦ some (c ∷ w) ]

-- Each quote replaced.
abbrev pub escape : List ℕ → List ℕ
escape [] = []
escape (c ∷ s) = if c == quote then quoted_quote ++ escape s else c ∷ escape s

escape-word : (path : List ℕ) → shell_word single (escape path ++ quote ∷ []) ≡ some path
unfolding shell_word
escape-word [] = refl
escape-word (c ∷ s) = elim (Bool-cases (c == quote)) [
  | inl hit ↦
      let e : c ≡ 39 = ground arith in
      rw (hit, escape-word s) (ap (λ (n : ℕ). some (n ∷ s)) (sym e))
  | inr miss ↦ let miss' : (c == 39) ≡ false = miss in rw (miss, escape-word s, miss') refl
]

-- A string in which the quote is looked for splits there, or has none.
escape-find_first :
    (s : List ℕ)
    → ((find_first (quote ∷ []) s ≡ none) × (escape s ≡ s))
      ⊎ ((before : List ℕ) × (rest : List ℕ) × (find_first (quote ∷ []) s ≡ some (before, rest))
          × (escape s ≡ before ++ (quoted_quote ++ escape rest))
          × (length rest < length s))
unfolding find_first is_prefix
escape-find_first [] = inl (refl, refl)
escape-find_first (c ∷ s) = elim (Bool-cases (quote == c)) [
  | inl hit ↦
      let hit' : (c == quote) ≡ true = ground arith in
      inr ([], s, rw hit refl, rw hit' refl, omega arith)
  | inr miss ↦
      let miss' : (c == quote) ≡ false = ground arith in
      elim (escape-find_first s) [
        | inl (e, same) ↦ inl (rw (miss, e) refl, rw miss' (ap (λ (w : List ℕ). c ∷ w) same))
        | inr (before, rest, e, same, lt) ↦ inr (
          c ∷ before,
          rest,
          rw (miss, e) refl,
          rw miss' (ap (λ (w : List ℕ). c ∷ w) same),
          omega arith,
        )
      ]
]

replace_loop-escape :
    (fuel size : ℕ) (dest start : List ℕ)
    → length start < fuel
    → length (dest ++ escape start) < size
    → replace_loop fuel size (quote ∷ []) quoted_quote dest start ≡ some (dest ++ escape start)
unfolding replace_loop
replace_loop-escape zero size dest start enough fits = absurd (omega arith)
replace_loop-escape (suc fuel) size dest start enough fits = elim (escape-find_first start) [
  | inl (e, same) ↦
      let fits' = rw same at fits in
      let room : leb size (length (dest ++ start)) ≡ false = ground arith in
      rw (e, room, same, replace_loop) refl
  | inr (before, rest, e, same, lt) ↦
      let dest1 = dest ++ (before ++ quoted_quote) in
      let regroup : dest ++ escape start ≡ dest1 ++ escape rest =
        ap (λ (w : List ℕ). dest ++ w) (same ∙ sym (append_assoc before quoted_quote (escape rest)))
        ∙ sym (append_assoc dest (before ++ quoted_quote) (escape rest)) in
      let fits' = rw regroup at fits in
      let len = length-append dest1 (escape rest) in
      let room : leb size (length dest1) ≡ false = ground arith in
      rw (e, room, replace_loop)
        (replace_loop-escape fuel size dest1 rest (omega arith) fits' ∙ ap some (sym regroup))
]

not_in : (s : List ℕ) → occurs quote s ≡ false → escape s ≡ s
not_in [] h = refl
not_in (c ∷ s) h =
    let miss : (c == quote) ≡ false = ground arith in
    rw miss (ap (λ (w : List ℕ). c ∷ w) (not_in s (ground arith)))

store_back-escape :
    (path : List ℕ)
    → store_back path (some (escape path)) ≡ (pos (length (escape path)), escape path)
store_back-escape [] = refl
store_back-escape (c ∷ s) = elim (Bool-cases (c == quote)) [
  | inl hit ↦ rw hit refl
  | inr miss ↦ rw miss refl
]

-- The buffer then holds the path in quotes, each quote of its own replaced.
path4shell-escape :
    (path : List ℕ) (size : ℕ)
    → length (escape path) + 3 < size
    → path4shell path size ≡ (pos (length (escape path) + 2), quote ∷ (escape path ++ quote ∷ []))
unfolding path4shell replace_str
path4shell-escape path size fits =
    let room : ltb (length (escape path) + 3) size ≡ true = ground arith in
    let replaced =
      ap (store_back path)
        (replace_loop-escape (suc (length path)) size [] path (omega arith) (omega arith))
      ∙ store_back-escape path in
    ap (quote_around size) (elim (Bool-cases (occurs quote path)) [
      | inl has_quote ↦ if_true _ _ _ has_quote ∙ replaced
      | inr plain_path ↦
          if_false _ _ _ plain_path
          ∙ sym (ap (λ (w : List ℕ). (pos (length w), w)) (not_in path plain_path))
    ])
    ∙ if_true _ _ _ room

-- If the buffer has room for the path with each quote replaced, for the two quotes around it and two
-- characters more, then path4shell returns the length of the buffer's new string, and a shell that
-- reads this string reads one word, which is the path.
pub path4shell-word :
    (path : List ℕ) (size : ℕ)
    → length (escape path) + 3 < size
    → let (rv, buffer) = path4shell path size in
      (rv ≡ pos (length buffer)) × (shell_word plain buffer ≡ some path)
unfolding shell_word
path4shell-word path size fits =
    rw (path4shell-escape path size fits)
      (ap pos (omega (arith, length-append (escape path) (quote ∷ []))), escape-word path)
