-- ===== src/Text/Sizes.antt =====
-- formatFileSize of utils.cpp: a size as a sum of gigabytes, megabytes, kilobytes and bytes.
use mathlib.Core.Path.{subst}
use parity_backup.Base.{
  ℕ, zero, suc, ◌+◌, ◌-◌, ◌*◌, ◌/◌, ◌%◌, ◌≤◌, ◌<◌, true, false, List, [], ◌∷◌, ◌++◌, append_assoc,
  if◌then◌else◌, ◌==◌, ltb, ◌≡◌, inl, inr, arith, refl, sym, ap, ◌∙◌, Bool-cases, if_true, if_false,
}
use parity_backup.Text.Numbers.{digit, digits_on, digits, digits_last, digits_more}

-- KILO, MEGA and GIGA
abbrev pub kilo : ℕ
kilo = 1024

abbrev pub mega : ℕ
mega = 1048576

abbrev pub giga : ℕ
giga = 1073741824

-- The text so far and `plus`. Nothing is printed for 0.
abbrev pub size_part : ℕ → ℕ → List ℕ × List ℕ → List ℕ × List ℕ
size_part bl unit s = if bl == 0 then s else (s.0 ++ (s.1 ++ (digits 10 bl ++ unit ∷ [])), 43 ∷ [])

abbrev pub bytes_part : ℕ → List ℕ × List ℕ → List ℕ
bytes_part size (out, []) = out ++ digits 10 size
bytes_part size (out, c ∷ plus) = if size == 0 then out else out ++ (c ∷ plus ++ digits 10 size)

unfoldable pub format_file_size : ℕ → List ℕ
format_file_size size =
    let g = size / giga in
    let size1 = size - g * giga in
    let m = size1 / mega in
    let size2 = size1 - m * mega in
    let k = size2 / kilo in
    let size3 = size2 - k * kilo in
    bytes_part size3 (size_part k 107 (size_part m 109 (size_part g 103 ([], []))))

-- How such a text is read: the sum of the terms that are complete, and the number that is being read.
abbrev read_char : ℕ × ℕ → ℕ → ℕ × ℕ
read_char (total, n) c =
    if c == 103
    then (total + n * giga, 0)
    else if c == 109
    then (total + n * mega, 0)
    else if c == 107
    then (total + n * kilo, 0)
    else if c == 43
    then (total + n, 0)
    else (total, n * 10 + (c - 48))

abbrev read_from : ℕ × ℕ → List ℕ → ℕ × ℕ
read_from s [] = s
read_from s (c ∷ text) = read_from (read_char s c) text

abbrev pub read_size : List ℕ → ℕ
read_size text = let r = read_from (0, 0) text in r.0 + r.1

read_from-append :
    (s : ℕ × ℕ) (xs ys : List ℕ) → read_from s (xs ++ ys) ≡ read_from (read_from s xs) ys
read_from-append s [] ys = refl
read_from-append s (c ∷ xs) ys = read_from-append (read_char s c) xs ys

read_digit :
    (total n m k : ℕ) → m < 10 → n * 10 + m ≡ k → read_char (total, n) (digit m) ≡ (total, k)
read_digit total n m k lt e =
    let small : ltb m 10 ≡ true = ground arith in
    let no_giga : (48 + m == 103) ≡ false = ground arith in
    let no_mega : (48 + m == 109) ≡ false = ground arith in
    let no_kilo : (48 + m == 107) ≡ false = ground arith in
    let no_plus : (48 + m == 43) ≡ false = ground arith in
    let read : n * 10 + (48 + m - 48) ≡ k = omega arith in
    rw (small, no_giga, no_mega, no_kilo, no_plus, read) refl

read_digits_on :
    (fuel n total : ℕ) → n ≤ fuel → read_from (total, 0) (digits_on (suc fuel) 10 n) ≡ (total, n)
read_digits_on zero n total le =
    let last : ltb n 10 ≡ true = ground arith in
    ap (read_from (total, 0)) (digits_last 0 n last)
    ∙ read_digit total 0 n n (omega arith) (omega arith)
read_digits_on (suc fuel) n total le = elim (Bool-cases (ltb n 10)) [
  | inl last ↦
      ap (read_from (total, 0)) (digits_last (suc fuel) n last)
      ∙ read_digit total 0 n n (ground arith) (omega arith)
  | inr more ↦
      let ten : 10 ≤ n = ground arith in
      ap (read_from (total, 0)) (digits_more (suc fuel) n more)
      ∙ read_from-append (total, 0) (digits_on (suc fuel) 10 (n / 10)) (digit (n % 10) ∷ [])
      ∙ ap (λ (s : ℕ × ℕ). read_from s (digit (n % 10) ∷ []))
          (read_digits_on fuel (n / 10) total (omega arith))
      ∙ read_digit total (n / 10) (n % 10) n (omega arith) (omega arith)
]

read_digits : (n total : ℕ) → read_from (total, 0) (digits 10 n) ≡ (total, n)
unfolding digits
read_digits n total = read_digits_on n n total (omega arith)

-- The text so far stands for `total`, and `plus` changes nothing.
record Reads (s : List ℕ × List ℕ) (total : ℕ) : Type 0 where
  text : read_from (0, 0) s.0 ≡ (total, 0)
  plus : (n : ℕ) → read_from (n, 0) s.1 ≡ (n, 0)

-- What is added to a text is read after it.
read_added :
    (s : List ℕ × List ℕ) (total n : ℕ)
    → Reads s total
    → read_from (0, 0) (s.0 ++ (s.1 ++ digits 10 n)) ≡ (total, n)
read_added s total n h =
    read_from-append (0, 0) s.0 (s.1 ++ digits 10 n)
    ∙ ap (λ (r : ℕ × ℕ). read_from r (s.1 ++ digits 10 n)) h.text
    ∙ read_from-append (total, 0) s.1 (digits 10 n)
    ∙ ap (λ (r : ℕ × ℕ). read_from r (digits 10 n)) (h.plus total)
    ∙ read_digits n total

size_part-Reads :
    (bl unit value total : ℕ) (s : List ℕ × List ℕ)
    → ((t n : ℕ) → read_char (t, n) unit ≡ (t + n * value, 0))
    → Reads s total
    → Reads (size_part bl unit s) (total + bl * value)
size_part-Reads bl unit value total s reads h = elim (Bool-cases (bl == 0)) [
  | inl none_left ↦
      let e : total ≡ total + bl * value =
        let zero_bl : bl ≡ 0 = ground arith in rw zero_bl (omega arith) in
      subst (λ (r : List ℕ × List ℕ). Reads r (total + bl * value)) (sym (if_true _ _ _ none_left))
        (subst (Reads s) e h)
  | inr some_left ↦
      subst (λ (r : List ℕ × List ℕ). Reads r (total + bl * value)) (sym (if_false _ _ _ some_left))
        (record {
          text =
              ap (read_from (0, 0)) (
                ap (λ (t : List ℕ). s.0 ++ t) (sym (append_assoc s.1 (digits 10 bl) (unit ∷ [])))
                ∙ sym (append_assoc s.0 (s.1 ++ digits 10 bl) (unit ∷ [])))
              ∙ read_from-append (0, 0) (s.0 ++ (s.1 ++ digits 10 bl)) (unit ∷ [])
              ∙ ap (λ (r : ℕ × ℕ). read_from r (unit ∷ [])) (read_added s total bl h)
              ∙ reads total bl;
          plus = λ n. ap (λ (m : ℕ). (m, 0)) (omega arith);
        })
]

bytes_part-Reads :
    (size total : ℕ) (s : List ℕ × List ℕ)
    → Reads s total
    → read_size (bytes_part size s) ≡ total + size
bytes_part-Reads size total (out, []) h =
    ap (λ (r : ℕ × ℕ). r.0 + r.1) (read_added (out, []) total size h)
bytes_part-Reads size total (out, c ∷ plus) h = elim (Bool-cases (size == 0)) [
  | inl none_left ↦
      let no_bytes : size ≡ 0 = ground arith in
      ap read_size (if_true _ _ _ none_left)
      ∙ ap (λ (r : ℕ × ℕ). r.0 + r.1) h.text
      ∙ ap (λ (n : ℕ). total + n) (sym no_bytes)
  | inr some_left ↦
      ap read_size (if_false _ _ _ some_left)
      ∙ ap (λ (r : ℕ × ℕ). r.0 + r.1) (read_added (out, c ∷ plus) total size h)
]

-- The text that formatFileSize writes for a size, read as a sum of gigabytes, megabytes, kilobytes and
-- bytes, is the size.
pub format_file_size-read_size : (size : ℕ) → read_size (format_file_size size) ≡ size
unfolding format_file_size
format_file_size-read_size size =
    let g = size / giga in
    let size1 = size - g * giga in
    let m = size1 / mega in
    let size2 = size1 - m * mega in
    let k = size2 / kilo in
    let in_giga =
      size_part-Reads g 103 giga 0 ([], []) (λ t n. refl)
        (record { text = refl; plus = λ n. refl }) in
    let in_mega = size_part-Reads m 109 mega _ _ (λ t n. refl) in_giga in
    let in_kilo = size_part-Reads k 107 kilo _ _ (λ t n. refl) in_mega in
    bytes_part-Reads (size2 - k * kilo) _ _ in_kilo ∙ omega arith
