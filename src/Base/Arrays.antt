-- ===== src/Base/Arrays.antt =====
-- C arrays as functions of the index, and counted loops over them.
use Prim.Native.Nat.{ℕ, zero, suc, ◌+◌, ◌≤◌, ◌<◌}
use mathlib.Core.Logic.{inl, inr}
use mathlib.Core.Path.{◌≡◌, refl}
use native.Mathlib.Omega.{arith}
use parity_backup.Base.Tests.{◌==◌, if◌then◌else◌, Bool-cases}

abbrev pub update {ℓ} : {A : Type ℓ} → (ℕ → A) → ℕ → A → ℕ → A
update f i v j = if j == i then v else f j

-- for (j = k; j < k + left; j++) st = round j st: recursion on the count of rounds left.
abbrev pub count_loop {ℓ} : {A : Type ℓ} → (left : ℕ) (k : ℕ) (round : ℕ → A → A) (st : A) → A
count_loop zero k round st = st
count_loop (suc left) k round st = count_loop left (k + 1) round (round k st)

-- The invariant rule for such a loop.
pub count_loop_inv {ℓ κ} :
    {S : Type ℓ} (P : ℕ → S → Type κ) (body : ℕ → S → S)
    → (n i : ℕ) (s : S) → ((j : ℕ) (s : S) → i ≤ j → j < i + n → P j s → P (j + 1) (body j s))
    → P i s
    → P (i + n) (count_loop n i body s)
count_loop_inv P body zero i s keep h = let e : i ≡ i + 0 = omega arith in rw (← e) h
count_loop_inv P body (suc n) i s keep h =
    let e : i + suc n ≡ i + 1 + n = omega arith in
    rw e (
      count_loop_inv P body n (i + 1) (body i s)
        (λ j s' lo hi p. keep j s' (omega arith) (omega arith) p)
        (keep i s (omega arith) (omega arith) h))

-- The rule for a loop from 0.
pub count_loop_upto {ℓ κ} :
    {S : Type ℓ} (P : ℕ → S → Type κ) (body : ℕ → S → S)
    → (n : ℕ) (s : S) → ((j : ℕ) (s : S) → j < n → P j s → P (j + 1) (body j s))
    → P 0 s
    → P n (count_loop n 0 body s)
count_loop_upto P body n s keep h =
    let e : 0 + n ≡ n = omega arith in
    rw e at (count_loop_inv P body n 0 s (λ j s' lo hi p. keep j s' (omega arith) p) h)

-- for (i = 0; i < n; i++) sum += f(i)
abbrev pub sum_upto : (ℕ → ℕ) → ℕ → ℕ
sum_upto f n = count_loop n 0 (λ i sum. sum + f i) 0

sum_loop-le :
    (f g : ℕ → ℕ) (n i a b : ℕ)
    → a ≤ b
    → ((j : ℕ) → j < i + n → f j ≤ g j)
    → count_loop n i (λ j sum. sum + f j) a ≤ count_loop n i (λ j sum. sum + g j) b
sum_loop-le f g zero i a b le h = le
sum_loop-le f g (suc n) i a b le h =
    let here = h i (omega arith) in
    sum_loop-le f g n (i + 1) (a + f i) (b + g i) (omega arith) (λ j lt. h j (omega arith))

sum_loop_suc :
    (f : ℕ → ℕ) (n i a : ℕ)
    → count_loop n i (λ j sum. sum + f j) (suc a) ≡ suc (count_loop n i (λ j sum. sum + f j) a)
sum_loop_suc f zero i a = refl
sum_loop_suc f (suc n) i a =
    let e : suc a + f i ≡ suc (a + f i) = omega arith in rw e (sum_loop_suc f n (i + 1) (a + f i))

sum_loop-lt :
    (f g : ℕ → ℕ) (n i a b k : ℕ)
    → a ≤ b
    → ((j : ℕ) → j < i + n → f j ≤ g j)
    → i ≤ k
    → k < i + n
    → f k < g k
    → count_loop n i (λ j sum. sum + f j) a < count_loop n i (λ j sum. sum + g j) b
sum_loop-lt f g zero i a b k le h lo hi less = absurd (omega arith)
sum_loop-lt f g (suc n) i a b k le h lo hi less =
    let here = h i (omega arith) in
    elim (Bool-cases (i == k)) [
      | inl now ↦
          let same : f i < g i = at_place f g i k (ground arith) less in
          above (a + f i) (b + g i) (omega arith)
      | inr later ↦
          sum_loop-lt f g n (i + 1) (a + f i) (b + g i) k (omega arith) (λ j lt. h j (omega arith))
            (ground arith) (omega arith) less
    ]
  where
    at_place : (f g : ℕ → ℕ) (i k : ℕ) → i ≡ k → f k < g k → f i < g i
    at_place f g i k e lt = rw e lt

    above :
        (a b : ℕ)
        → a < b
        → count_loop n (i + 1) (λ j sum. sum + f j) a < count_loop n (i + 1) (λ j sum. sum + g j) b
    above a b lt =
        let le = sum_loop-le f g n (i + 1) (suc a) b (omega arith) (λ j lt'. h j (omega arith)) in
        omega (arith, sum_loop_suc f n (i + 1) a)

pub sum_upto-le :
    (f g : ℕ → ℕ) (n : ℕ) → ((j : ℕ) → j < n → f j ≤ g j) → sum_upto f n ≤ sum_upto g n
sum_upto-le f g n h = sum_loop-le f g n 0 0 0 (omega arith) (λ j lt. h j (omega arith))

pub sum_upto-lt :
    (f g : ℕ → ℕ) (n k : ℕ)
    → ((j : ℕ) → j < n → f j ≤ g j)
    → k < n
    → f k < g k
    → sum_upto f n < sum_upto g n
sum_upto-lt f g n k h lt less =
    sum_loop-lt f g n 0 0 0 k (omega arith) (λ j lt'. h j (omega arith)) (omega arith) (omega arith)
      less

sum_loop_bound :
    (f : ℕ → ℕ) (n i a : ℕ) → ((j : ℕ) → f j ≤ 1) → count_loop n i (λ j sum. sum + f j) a ≤ a + n
sum_loop_bound f zero i a h = omega arith
sum_loop_bound f (suc n) i a h =
    let here = h i in let rest = sum_loop_bound f n (i + 1) (a + f i) h in omega arith

pub sum_upto_bound : (f : ℕ → ℕ) (n : ℕ) → ((j : ℕ) → f j ≤ 1) → sum_upto f n ≤ n
sum_upto_bound f n h = let bound = sum_loop_bound f n 0 0 h in omega arith

le-sum_loop : (f : ℕ → ℕ) (n i a : ℕ) → a ≤ count_loop n i (λ j sum. sum + f j) a
le-sum_loop f zero i a = omega arith
le-sum_loop f (suc n) i a = omega (arith, le-sum_loop f n (i + 1) (a + f i))

term-le-sum_loop :
    (f : ℕ → ℕ) (n i a k : ℕ) → i ≤ k → k < i + n → f k ≤ count_loop n i (λ j sum. sum + f j) a
term-le-sum_loop f zero i a k lo hi = absurd (omega arith)
term-le-sum_loop f (suc n) i a k lo hi = elim (Bool-cases (i == k)) [
  | inl now ↦
      let same : f k ≡ f i = same_term f k i (ground arith) in
      omega (arith, le-sum_loop f n (i + 1) (a + f i))
  | inr later ↦ term-le-sum_loop f n (i + 1) (a + f i) k (ground arith) (omega arith)
]
  where
    same_term : (f : ℕ → ℕ) (i k : ℕ) → i ≡ k → f i ≡ f k
    same_term f i k e = rw e refl

pub term-le-sum_upto : (f : ℕ → ℕ) (n k : ℕ) → k < n → f k ≤ sum_upto f n
term-le-sum_upto f n k lt = term-le-sum_loop f n 0 0 k (omega arith) (omega arith)
