-- ===== src/Header/Eoh.antt =====
-- decodeEOHline and the line that writeHeader ends a header with.
use parity_backup.Base.{
  ℕ, zero, suc, ◌+◌, ◌-◌, ◌%◌, ◌^◌, ◌<◌, false, Option, none, some, List, [], ◌∷◌, ◌++◌, length,
  replicate, append_assoc, append-nil, if◌then◌else◌, ◌≡◌, arith, refl, ap, ◌∙◌, if_false,
}
use parity_backup.Slice.{Slice}
use parity_backup.Text.{is_space, rtrim}
use parity_backup.Text.Numbers.{digits}
use parity_backup.Text.Atol.{atol, atol-digits}
use parity_backup.Base.Int.{ℤ, pos}
use parity_backup.Prefix.{remove_last_newline}
use parity_backup.Prefix.RoundTrip.{remove_last_newline-append}
use parity_backup.Header.{header_write, eoh_line, align_line}
use parity_backup.Header.Lines.{
  blanks, skip, token, strtok, next_delim, split_loop, split, header_tokens_max, decode_header_line,
  eoh_fields, decode_eoh_line, Plain, IsWord, strtok_word, split_step, digits-IsWord, exact_text,
}

skip_blank : (j : ℕ) → skip blanks (replicate j 32) ≡ []
skip_blank zero = refl
skip_blank (suc j) = skip_blank j

token_last :
    (j : ℕ) (s : List ℕ) → Plain s → token blanks (s ++ replicate j 32) ≡ (s, replicate (j - 1) 32)
token_last zero [] h = refl
token_last (suc j) [] h = let e : suc j - 1 ≡ j = omega arith in rw e refl
token_last j (c ∷ s) h =
    if_false _ _ _ h.0 ∙ ap (λ (r : List ℕ × List ℕ). (c ∷ r.0, r.1)) (token_last j s h.1)

strtok_last :
    (j : ℕ) (s : List ℕ)
    → IsWord s
    → strtok blanks (s ++ replicate j 32) ≡ some (s, replicate (j - 1) 32)
unfolding strtok
strtok_last j [] h = absurd (omega (arith, h.0))
strtok_last j (c ∷ s) h =
    ap
      (λ (t : List ℕ). elim t as (λ t. Option (List ℕ × List ℕ)) [
        | [] ↦ none
        | d ∷ more ↦ some (token blanks (d ∷ more))
      ])
      (if_false _ _ _ h.1.0)
    ∙ ap (λ (r : List ℕ × List ℕ). some r) (token_last j (c ∷ s) h.1)

strtok_blank : (j : ℕ) → strtok blanks (replicate j 32) ≡ none
unfolding strtok
strtok_blank j =
    ap
      (λ (t : List ℕ). elim t as (λ t. Option (List ℕ × List ℕ)) [
        | [] ↦ none
        | d ∷ more ↦ some (token blanks (d ∷ more))
      ])
      (skip_blank j)

split_end : (left tcount n j : ℕ) → split_loop (suc left) blanks tcount n (replicate j 32) ≡ []
unfolding split_loop
split_end left tcount n j =
    ap
      (λ (o : Option (List ℕ × List ℕ)). elim o as (λ o. List (List ℕ)) [
        | none ↦ []
        | some (t, r) ↦ t ∷ split_loop left (next_delim tcount (n + 1) blanks) tcount (n + 1) r
      ])
      (strtok_blank j)

rtrim_word : (s : List ℕ) → Plain s → rtrim s ≡ s
unfolding rtrim
rtrim_word [] h = refl
rtrim_word (c ∷ []) h =
    let hc = h.0 in let other : is_space c ≡ false = ground arith in if_false _ _ _ other
rtrim_word (c ∷ d ∷ s) h =
    ap
      (λ (t : List ℕ). elim t as (λ t. List ℕ) [
        | [] ↦ if is_space c then [] else c ∷ []
        | e ∷ es ↦ c ∷ e ∷ es
      ])
      (rtrim_word (d ∷ s) h.1)

split_eoh :
    (k k' j : ℕ) (mark size files sid : List ℕ)
    → IsWord mark
    → IsWord size
    → IsWord files
    → IsWord sid
    → split
        (mark
          ++ 32
            ∷ (replicate k 32
                ++ (size ++ 32 ∷ (replicate k' 32 ++ (files ++ 32 ∷ (sid ++ replicate j 32))))))
        header_tokens_max
        blanks
        0
      ≡ mark ∷ size ∷ files ∷ sid ∷ []
unfolding split
split_eoh k k' j mark size files sid hm hs hf hi =
    split_step 5 blanks 0 0 _ mark _ (strtok_word 0 mark _ hm)
    ∙ ap (λ (t : List (List ℕ)). mark ∷ t)
        (split_step 4 blanks 0 1 _ size _ (strtok_word k size _ hs))
    ∙ ap (λ (t : List (List ℕ)). mark ∷ size ∷ t)
        (split_step 3 blanks 0 2 _ files _ (strtok_word k' files _ hf))
    ∙ ap (λ (t : List (List ℕ)). mark ∷ size ∷ files ∷ t)
        (split_step 2 blanks 0 3 _ sid _ (strtok_last j sid hi))
    ∙ ap (λ (t : List (List ℕ)). mark ∷ size ∷ files ∷ sid ∷ t) (split_end 1 0 4 (j - 1))

-- What writeHeader ends a header with, decodeEOHline reads: if the id of the slice has its 28
-- characters and no blanks, and a long holds the size and the count of files, it gives the size,
-- the count of files and the id, however many blanks align the header.
pub decode_eoh_line-eoh_line :
    (cs : Slice) (hs : ℕ)
    → length cs.slice_id ≡ 28
    → IsWord cs.slice_id
    → cs.slice_size < 2 ^ 63
    → cs.files_count < 2 ^ 63
    → decode_eoh_line (eoh_line header_write cs ++ align_line hs)
      ≡ some (pos cs.slice_size, pos cs.files_count, cs.slice_id)
unfolding decode_eoh_line decode_header_line eoh_line
decode_eoh_line-eoh_line cs hs e word size_lt files_lt =
    let size = digits 10 cs.slice_size in
    let files = digits 10 cs.files_count in
    let mark : List ℕ = 69 ∷ 79 ∷ 72 ∷ [] in
    let j = 8 - hs % 8 - 1 - 0 in
    let k = 12 - length size in
    let k' = 8 - length files in
    let line : List ℕ =
      mark
      ++ 32
        ∷ (replicate k 32
            ++ (size
                ++ 32 ∷ (replicate k' 32 ++ (files ++ 32 ∷ (cs.slice_id ++ replicate j 32))))) in
    let printed : eoh_line header_write cs ++ align_line hs ≡ line ++ 10 ∷ [] =
      simp (exact_text 28 cs.slice_id e, append_assoc, append-nil) refl in
    ap (λ (s : List ℕ). eoh_fields (split (remove_last_newline s) header_tokens_max blanks 0))
      printed
    ∙ ap (λ (s : List ℕ). eoh_fields (split s header_tokens_max blanks 0))
        (remove_last_newline-append line)
    ∙ ap eoh_fields (
        split_eoh k k' j mark size files cs.slice_id (omega arith, (refl, (refl, (refl, tt))))
          (digits-IsWord cs.slice_size) (digits-IsWord cs.files_count) word)
    ∙ ap (λ (s : List ℕ). some (atol size, atol files, s)) (rtrim_word cs.slice_id word.1)
    ∙ ap (λ (n : ℤ). some (n, atol files, cs.slice_id))
        (atol-digits cs.slice_size size_lt (digits-IsWord cs.slice_size).0)
    ∙ ap (λ (n : ℤ). some (pos cs.slice_size, n, cs.slice_id))
        (atol-digits cs.files_count files_lt (digits-IsWord cs.files_count).0)
