-- ===== src/Text/Atol.antt =====
-- atol of the C library, which decodeEOHline of backup.cpp uses: blanks are passed over, a sign is read,
-- and the digits up to the first other character are the number, held between the bounds of a long.
use parity_backup.Base.{
  ℕ, zero, suc, ◌+◌, ◌-◌, ◌*◌, ◌/◌, ◌%◌, ◌^◌, ◌≤◌, ◌<◌, min, true, false, List, [], ◌∷◌, ◌++◌,
  length, All, All-append, if◌then◌else◌, ◌==◌, ltb, ◌≡◌, inl, inr, arith, sym, ap, ◌∙◌, Bool-cases,
  if_true, if_false,
}
use mathlib.Core.Path.{subst}
use parity_backup.Base.Int.{ℤ, pos, sub_ℕ}
use parity_backup.Text.{is_digit, is_space}
use parity_backup.Text.Numbers.{digit, digits_on, digits, digits_last, digits_more}

-- The number that goes on from `n`, up to the first character that is no digit.
abbrev read_number : ℕ → List ℕ → ℕ
read_number n [] = n
read_number n (c ∷ s) =
    let rest = read_number (n * 10 + (c - 48)) s in if is_digit c then rest else n

abbrev skip_space : List ℕ → List ℕ
skip_space [] = []
skip_space (c ∷ s) = let rest = skip_space s in if is_space c then rest else c ∷ s

abbrev signed : List ℕ → ℤ
signed [] = pos 0
signed (c ∷ s) =
    if c == 45
    then sub_ℕ 0 (min (read_number 0 s) (2 ^ 63))
    else if c == 43
    then pos (min (read_number 0 s) (2 ^ 63 - 1))
    else pos (min (read_number 0 (c ∷ s)) (2 ^ 63 - 1))

unfoldable pub atol : List ℕ → ℤ
atol s = signed (skip_space s)

abbrev AllDigits : List ℕ → Type 0
AllDigits s = All (λ c. is_digit c ≡ true) s

digit-is_digit : (m : ℕ) → m < 10 → is_digit (digit m) ≡ true
digit-is_digit m lt = ground arith

digits_on-AllDigits : (fuel n : ℕ) → AllDigits (digits_on fuel 10 n)
unfolding digits_on
digits_on-AllDigits zero n = tt
digits_on-AllDigits (suc fuel) n = elim (Bool-cases (ltb n 10)) [
  | inl last ↦ subst AllDigits (sym (digits_last fuel n last)) (digit-is_digit n (ground arith), tt)
  | inr more ↦ subst AllDigits (sym (digits_more fuel n more)) (
      All-append (λ c. is_digit c ≡ true) (digits_on fuel 10 (n / 10)) (digit (n % 10) ∷ [])
        (digits_on-AllDigits fuel (n / 10)) (digit-is_digit (n % 10) (omega arith), tt))
]

read_one : (m : ℕ) → m < 10 → read_number 0 (digit m ∷ []) ≡ m
read_one m lt = let d : is_digit (digit m) ≡ true = digit-is_digit m lt in rw d (ground arith)

read_number-append :
    (n c : ℕ) (s : List ℕ)
    → AllDigits s
    → is_digit c ≡ true
    → read_number n (s ++ c ∷ []) ≡ read_number n s * 10 + (c - 48)
read_number-append n c [] h hc = if_true _ _ _ hc
read_number-append n c (d ∷ s) h hc =
    if_true _ _ _ h.0
    ∙ read_number-append (n * 10 + (d - 48)) c s h.1 hc
    ∙ ap (λ (m : ℕ). m * 10 + (c - 48)) (sym (if_true _ _ _ h.0))

digit_value : (m : ℕ) → m < 10 → digit m - 48 ≡ m
digit_value m lt = ground arith

read_number-digits_on : (fuel n : ℕ) → n ≤ fuel → read_number 0 (digits_on (suc fuel) 10 n) ≡ n
read_number-digits_on zero n le =
    let last : ltb n 10 ≡ true = ground arith in
    ap (read_number 0) (digits_last 0 n last) ∙ read_one n (omega arith)
read_number-digits_on (suc fuel) n le = elim (Bool-cases (ltb n 10)) [
  | inl last ↦
      let lt : n < 10 = ground arith in
      ap (read_number 0) (digits_last (suc fuel) n last) ∙ read_one n lt
  | inr more ↦
      let ten : 10 ≤ n = ground arith in
      let lt : n % 10 < 10 = omega arith in
      let high = read_number-digits_on fuel (n / 10) (omega arith) in
      let low = digit_value (n % 10) lt in
      ap (read_number 0) (digits_more (suc fuel) n more)
      ∙ read_number-append 0 (digit (n % 10)) (digits_on (suc fuel) 10 (n / 10))
          (digits_on-AllDigits (suc fuel) (n / 10)) (digit-is_digit (n % 10) lt)
      ∙ rw (high, low) (omega arith)
]

signed_digits :
    (c : ℕ) (s : List ℕ)
    → is_digit c ≡ true
    → signed (skip_space (c ∷ s)) ≡ pos (min (read_number 0 (c ∷ s)) (2 ^ 63 - 1))
signed_digits c s h =
    let no_space : is_space c ≡ false = ground arith in
    let no_minus : (c == 45) ≡ false = ground arith in
    let no_plus : (c == 43) ≡ false = ground arith in
    ap signed (if_false _ _ _ no_space) ∙ if_false _ _ _ no_minus ∙ if_false _ _ _ no_plus

atol_number :
    (s : List ℕ) (n : ℕ)
    → AllDigits s
    → 0 < length s
    → read_number 0 s ≡ n
    → n < 2 ^ 63
    → atol s ≡ pos n
unfolding atol
atol_number [] n h some_text e lt = absurd (omega arith)
atol_number (c ∷ s) n h some_text e lt =
    let low : min n (2 ^ 63 - 1) ≡ n = ground arith in
    signed_digits c s h.0 ∙ ap (λ (m : ℕ). pos (min m (2 ^ 63 - 1))) e ∙ ap pos low

-- The digits of a number that a long holds are read as the number.
pub atol-digits : (n : ℕ) → n < 2 ^ 63 → 0 < length (digits 10 n) → atol (digits 10 n) ≡ pos n
unfolding digits
atol-digits n lt some_text =
    atol_number (digits 10 n) n (digits_on-AllDigits (suc n) n) some_text
      (read_number-digits_on n n (omega arith)) lt
