-- ===== src/Text/Numbers.antt =====
-- The numbers that printf writes for `%d`, `%ld`, `%x` and their paddings.
use parity_backup.Base.{
  Bool, ap, ℕ, zero, suc, ◌+◌, ◌-◌, ◌/◌, ◌%◌, max, true, false, List, [], ◌∷◌, ◌++◌, length,
  replicate, take, if◌then◌else◌, ltb, ◌≡◌, arith, length-append, length-replicate, length-take,
}
use parity_backup.Base.Int.{ℤ, pos, negsuc}

abbrev pub digit : ℕ → ℕ
digit n = if ltb n 10 then 48 + n else 87 + n

-- The digits of `n` to a base of at least 2, on fuel.
unfoldable pub digits_on : ℕ → ℕ → ℕ → List ℕ
digits_on zero base n = []
digits_on (suc fuel) base n = elim (ltb n base) [
  | true ↦ digit n ∷ []
  | false ↦ digits_on fuel base (n / base) ++ digit (n % base) ∷ []
]

unfoldable pub digits : ℕ → ℕ → List ℕ
digits base n = digits_on (suc n) base n

-- A field of `width` characters, filled from the left with `c`; a longer text keeps its length.
abbrev pub pad_left : ℕ → ℕ → List ℕ → List ℕ
pad_left width c s = replicate (width - length s) c ++ s

-- `%*ld` of a number that is not negative, `%*s`, and `%*.*s` with one width for both stars.
abbrev pub number_field : ℕ → ℕ → List ℕ
number_field width n = pad_left width 32 (digits 10 n)

abbrev pub text_field : ℕ → List ℕ → List ℕ
text_field width s = pad_left width 32 (take width s)

abbrev pub signed_field : ℕ → ℤ → List ℕ
signed_field width (pos n) = number_field width n
signed_field width (negsuc n) = pad_left width 32 (45 ∷ digits 10 (suc n))

pub length-pad_left :
    (width c : ℕ) (s : List ℕ) → length (pad_left width c s) ≡ max width (length s)
length-pad_left width c s =
    omega (
      arith,
      length-append (replicate (width - length s) c) s,
      length-replicate (width - length s) c,
    )

pub length-text_field : (width : ℕ) (s : List ℕ) → length (text_field width s) ≡ width
length-text_field width s =
    omega (arith, length-pad_left width 32 (take width s), length-take width s)

pub digits_last : (fuel n : ℕ) → ltb n 10 ≡ true → digits_on (suc fuel) 10 n ≡ digit n ∷ []
unfolding digits_on
digits_last fuel n h =
    ap
      (λ (b : Bool). elim b as (λ b. List ℕ) [
        | true ↦ digit n ∷ []
        | false ↦ digits_on fuel 10 (n / 10) ++ digit (n % 10) ∷ []
      ])
      h

pub digits_more :
    (fuel n : ℕ)
    → ltb n 10 ≡ false
    → digits_on (suc fuel) 10 n ≡ digits_on fuel 10 (n / 10) ++ digit (n % 10) ∷ []
unfolding digits_on
digits_more fuel n h =
    ap
      (λ (b : Bool). elim b as (λ b. List ℕ) [
        | true ↦ digit n ∷ []
        | false ↦ digits_on fuel 10 (n / 10) ++ digit (n % 10) ∷ []
      ])
      h
