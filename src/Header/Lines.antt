-- ===== src/Header/Lines.antt =====
-- decodeHeaderLine and decodeEOHline of backup.cpp, over split of utils.cpp, which calls strtok.
use mathlib.Core.Path.{subst}
use parity_backup.Base.{
  ℕ, zero, suc, ◌+◌, ◌-◌, ◌/◌, ◌%◌, ◌<◌, false, not, ◌&&◌, Option, none, some, List, [], ◌∷◌, ◌++◌,
  length, replicate, take, take_all, eq_bytes, All, All-append, append_assoc, length-append,
  if◌then◌else◌, ◌==◌, ltb, leb, ◌≡◌, inl, inr, arith, refl, sym, ap, ◌∙◌, Bool-cases, if_false,
}
use parity_backup.Text.{occurs, rtrim}
use parity_backup.Text.Atol.{atol}
use parity_backup.Base.Int.{ℤ}
use parity_backup.Text.Numbers.{
  digit, digits_on, digits, pad_left, text_field, digits_last, digits_more,
}
use parity_backup.Prefix.{remove_last_newline}
use parity_backup.Prefix.RoundTrip.{remove_last_newline-append}
use parity_backup.Header.{header_write, HeaderRow, file_line}

-- BLANKS
abbrev pub blanks : List ℕ
blanks = 32 ∷ 12 ∷ 10 ∷ 9 ∷ 13 ∷ 11 ∷ []

-- strtok: it passes over delimiters, takes the text up to the next one and goes on after that.
abbrev pub skip : List ℕ → List ℕ → List ℕ
skip delim [] = []
skip delim (c ∷ s) = let rest = skip delim s in if occurs c delim then rest else c ∷ s

abbrev pub token : List ℕ → List ℕ → List ℕ × List ℕ
token delim [] = ([], [])
token delim (c ∷ s) = let r = token delim s in if occurs c delim then ([], s) else (c ∷ r.0, r.1)

unfoldable pub strtok : List ℕ → List ℕ → Option (List ℕ × List ℕ)
strtok delim s = elim (skip delim s) [ [] ↦ none | c ∷ rest ↦ some (token delim (c ∷ rest)) ]

-- The delimiters after `n` tokens have been stored: none for the last of `tcount`.
abbrev pub next_delim : ℕ → ℕ → List ℕ → List ℕ
next_delim tcount n delim = if not (tcount == 0) && leb tcount (n + 1) then [] else delim

-- The loop, which stores at most `left` tokens more.
unfoldable pub split_loop : (left : ℕ) → List ℕ → ℕ → (n : ℕ) → List ℕ → List (List ℕ)
split_loop zero delim tcount n s = []
split_loop (suc left) delim tcount n s = elim (strtok delim s) [
  | none ↦ []
  | some (tok, rest) ↦ tok ∷ split_loop left (next_delim tcount (n + 1) delim) tcount (n + 1) rest
]

-- The loop runs while `n <= tsize`, so it stores `tsize + 1` tokens if there are as many.
unfoldable pub split : List ℕ → ℕ → List ℕ → ℕ → List (List ℕ)
split line tsize delim tcount =
    split_loop (tsize + 1) delim (if ltb tsize tcount then 0 else tcount) 0 line

abbrev pub header_tokens_max : ℕ
header_tokens_max = 5

unfoldable pub decode_header_line : List ℕ → ℕ → List (List ℕ)
decode_header_line buf max_tokens =
    split (remove_last_newline buf) header_tokens_max blanks max_tokens

-- The size, the count of files and the id.
abbrev pub eoh_fields : List (List ℕ) → Option (ℤ × ℤ × List ℕ)
eoh_fields (mark ∷ size ∷ files ∷ sid ∷ []) =
    if eq_bytes mark (69 ∷ 79 ∷ 72 ∷ []) then some (atol size, atol files, rtrim sid) else none
eoh_fields _ = none

unfoldable pub decode_eoh_line : List ℕ → Option (ℤ × ℤ × List ℕ)
decode_eoh_line line = eoh_fields (decode_header_line line 0)

-- A text without blanks that is not empty.
abbrev pub IsWord : List ℕ → Type 0
IsWord s = (0 < length s) × All (λ c. occurs c blanks ≡ false) s

skip_padding :
    (k c : ℕ) (s : List ℕ) → occurs c blanks ≡ false → skip blanks (replicate k 32 ++ c ∷ s) ≡ c ∷ s
skip_padding zero c s h = if_false _ _ _ h
skip_padding (suc k) c s h = skip_padding k c s h

token-append :
    (s rest : List ℕ)
    → All (λ c. occurs c blanks ≡ false) s
    → token blanks (s ++ 32 ∷ rest) ≡ (s, rest)
token-append [] rest h = refl
token-append (c ∷ s) rest h =
    if_false _ _ _ h.0 ∙ ap (λ (r : List ℕ × List ℕ). (c ∷ r.0, r.1)) (token-append s rest h.1)

pub strtok_word :
    (k : ℕ) (s rest : List ℕ)
    → IsWord s
    → strtok blanks (replicate k 32 ++ (s ++ 32 ∷ rest)) ≡ some (s, rest)
unfolding strtok
strtok_word k [] rest h = absurd (omega (arith, h.0))
strtok_word k (c ∷ s) rest h =
    ap
      (λ (t : List ℕ). elim t as (λ t. Option (List ℕ × List ℕ)) [
        | [] ↦ none
        | d ∷ more ↦ some (token blanks (d ∷ more))
      ])
      (skip_padding k c (s ++ 32 ∷ rest) h.1.0)
    ∙ ap (λ (r : List ℕ × List ℕ). some r) (token-append (c ∷ s) rest h.1)

token_rest : (s : List ℕ) → token [] s ≡ (s, [])
token_rest [] = refl
token_rest (c ∷ s) = ap (λ (r : List ℕ × List ℕ). (c ∷ r.0, r.1)) (token_rest s)

strtok_rest : (s : List ℕ) → 0 < length s → strtok [] s ≡ some (s, [])
unfolding strtok
strtok_rest [] h = absurd (omega arith)
strtok_rest (c ∷ s) h = ap (λ (r : List ℕ × List ℕ). some r) (token_rest (c ∷ s))

pub split_step :
    (left : ℕ) (delim : List ℕ) (tcount n : ℕ) (s tok rest : List ℕ)
    → strtok delim s ≡ some (tok, rest)
    → split_loop (suc left) delim tcount n s
      ≡ tok ∷ split_loop left (next_delim tcount (n + 1) delim) tcount (n + 1) rest
unfolding split_loop
split_step left delim tcount n s tok rest e =
    ap
      (λ (o : Option (List ℕ × List ℕ)). elim o as (λ o. List (List ℕ)) [
        | none ↦ []
        | some (t, r) ↦ t ∷ split_loop left (next_delim tcount (n + 1) delim) tcount (n + 1) r
      ])
      e

nothing_left : (left : ℕ) → split_loop (suc left) [] 4 4 [] ≡ []
unfolding split_loop strtok
nothing_left left = refl

split_four :
    (k : ℕ) (a b c d : List ℕ)
    → IsWord a
    → IsWord b
    → IsWord c
    → 0 < length d
    → split (replicate k 32 ++ (a ++ 32 ∷ (b ++ 32 ∷ (c ++ 32 ∷ d)))) header_tokens_max blanks 4
      ≡ a ∷ b ∷ c ∷ d ∷ []
unfolding split
split_four k a b c d ha hb hc hd =
    split_step 5 blanks 4 0 _ a _ (strtok_word k a (b ++ 32 ∷ (c ++ 32 ∷ d)) ha)
    ∙ ap (λ (t : List (List ℕ)). a ∷ t)
        (split_step 4 blanks 4 1 _ b _ (strtok_word 0 b (c ++ 32 ∷ d) hb))
    ∙ ap (λ (t : List (List ℕ)). a ∷ b ∷ t) (split_step 3 blanks 4 2 _ c _ (strtok_word 0 c d hc))
    ∙ ap (λ (t : List (List ℕ)). a ∷ b ∷ c ∷ t) (split_step 2 [] 4 3 d d [] (strtok_rest d hd))
    ∙ ap (λ (t : List (List ℕ)). a ∷ b ∷ c ∷ d ∷ t) (nothing_left 1)

digit_plain : (m : ℕ) → m < 10 → occurs (digit m) blanks ≡ false
digit_plain m lt = ground arith

abbrev pub Plain : List ℕ → Type 0
Plain s = All (λ c. occurs c blanks ≡ false) s

digits_on-Plain : (fuel n : ℕ) → Plain (digits_on fuel 10 n)
unfolding digits_on
digits_on-Plain zero n = tt
digits_on-Plain (suc fuel) n = elim (Bool-cases (ltb n 10)) [
  | inl last ↦ subst Plain (sym (digits_last fuel n last)) (digit_plain n (ground arith), tt)
  | inr more ↦ subst Plain (sym (digits_more fuel n more)) (
      All-append (λ c. occurs c blanks ≡ false) (digits_on fuel 10 (n / 10)) (digit (n % 10) ∷ [])
        (digits_on-Plain fuel (n / 10)) (digit_plain (n % 10) (omega arith), tt))
]

digits_on_some : (fuel n : ℕ) → 0 < length (digits_on (suc fuel) 10 n)
digits_on_some fuel n = elim (Bool-cases (ltb n 10)) [
  | inl last ↦ subst (λ (s : List ℕ). 0 < length s) (sym (digits_last fuel n last)) (omega arith)
  | inr more ↦
      let len = length-append (digits_on fuel 10 (n / 10)) (digit (n % 10) ∷ []) in
      subst (λ (s : List ℕ). 0 < length s) (sym (digits_more fuel n more)) (omega arith)
]

pub digits-IsWord : (n : ℕ) → IsWord (digits 10 n)
unfolding digits
digits-IsWord n = (digits_on_some n n, digits_on-Plain (suc n) n)

exact_pad : (n : ℕ) (s : List ℕ) → length s ≡ n → pad_left n 32 s ≡ s
exact_pad n s e = let none_left : n - length s ≡ 0 = omega arith in rw none_left refl

pub exact_text : (n : ℕ) (s : List ℕ) → length s ≡ n → text_field n s ≡ s
exact_text n s e =
    let whole : take n s ≡ s = subst (λ (m : ℕ). take m s ≡ s) e (take_all s) in
    ap (pad_left n 32) whole ∙ exact_pad n s e

-- What writeHeader prints for a file, loadSliceHeader reads: if the time stamp and the hash have their
-- widths and no blanks, and the path is not empty, decodeHeaderLine for four tokens gives the
-- digits of the size, the time stamp, the hash, and the path with all its blanks.
pub decode_header_line-file_line :
    (row : HeaderRow) (ts hash : List ℕ)
    → length ts ≡ 20
    → length hash ≡ 16
    → IsWord ts
    → IsWord hash
    → 0 < length row.fpath
    → decode_header_line (file_line header_write row ts hash) 4
      ≡ digits 10 row.fsize ∷ ts ∷ hash ∷ row.fpath ∷ []
unfolding decode_header_line file_line
decode_header_line-file_line row ts hash e e' hts hhash path =
    let size = digits 10 row.fsize in
    let blank = 16 - length size in
    let line : List ℕ =
      replicate blank 32 ++ (size ++ 32 ∷ (ts ++ 32 ∷ (hash ++ 32 ∷ row.fpath))) in
    let printed : file_line header_write row ts hash ≡ line ++ 10 ∷ [] =
      simp (exact_text 20 ts e, exact_pad 16 hash e', append_assoc) refl in
    ap (λ (s : List ℕ). split (remove_last_newline s) header_tokens_max blanks 4) printed
    ∙ ap (λ (s : List ℕ). split s header_tokens_max blanks 4) (remove_last_newline-append line)
    ∙ split_four blank size ts hash row.fpath (digits-IsWord row.fsize) hts hhash path
