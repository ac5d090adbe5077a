-- ===== src/Common/Bits/Masks.antt =====
-- The digit of a word at a position, and single-bit masks.
use Prim.Native.Nat.{
  ℕ, zero, suc, ◌-◌, ◌*◌, ◌/◌, ◌%◌, ◌^◌, ◌≤◌, ◌<◌, min, max, bit_and, bit_or, bit_or-bitwise,
}
use mathlib.Core.Path.{◌≡◌, refl, ap}
use mathlib.Core.Logic.{inl, inr}
use native.Mathlib.Nat.{pow-suc, one-le-pow}
use native.Mathlib.Omega.{arith}
use spctrx.Common.Tests.{◌==◌, if◌then◌else◌, Bool-cases}
use spctrx.Common.Bits.Step.{bit_or_step, bit_and_step}

unfoldable pub digit : ℕ → ℕ → ℕ
digit zero w = w % 2
digit (suc k) w = digit k (w / 2)

pub digit-lt : (k w : ℕ) → digit k w < 2
unfolding digit
digit-lt zero w = omega arith
digit-lt (suc k) w = digit-lt k (w / 2)

pub digit-bit_or : (k a b : ℕ) → digit k (bit_or a b) ≡ max (digit k a) (digit k b)
unfolding digit
digit-bit_or zero a b = omega (arith, bit_or_step a b)
digit-bit_or (suc k) a b =
    let half : bit_or a b / 2 ≡ bit_or (a / 2) (b / 2) = omega (arith, bit_or_step a b) in
    rw half (digit-bit_or k (a / 2) (b / 2))

pub digit-bit_and : (k a b : ℕ) → digit k (bit_and a b) ≡ min (digit k a) (digit k b)
unfolding digit
digit-bit_and zero a b = omega (arith, bit_and_step a b)
digit-bit_and (suc k) a b =
    let half : bit_and a b / 2 ≡ bit_and (a / 2) (b / 2) = omega (arith, bit_and_step a b) in
    rw half (digit-bit_and k (a / 2) (b / 2))

pub digit-zero : (k : ℕ) → digit k 0 ≡ 0
unfolding digit
digit-zero zero = refl
digit-zero (suc k) = digit-zero k

-- The single bit `1 << j`.
pub digit-pow : (k j : ℕ) → digit k (2 ^ j) ≡ (if j == k then 1 else 0)
unfolding digit
digit-pow zero zero = refl
digit-pow zero (suc j) = ground (arith, pow-suc 2 j)
digit-pow (suc k) zero = ground (arith, digit-zero k)
digit-pow (suc k) (suc j) =
    let half : 2 ^ suc j / 2 ≡ 2 ^ j = omega (arith, pow-suc 2 j) in
    rw half (ground (arith, digit-pow k j))

pub pow-lt : (j n : ℕ) → j < n → 2 ^ j < 2 ^ n
pow-lt j zero h = absurd (omega arith)
pow-lt zero (suc n) h = omega (arith, pow-suc 2 n, one-le-pow n 2)
pow-lt (suc j) (suc n) h = omega (arith, pow-suc 2 n, pow-suc 2 j, pow-lt j n (omega arith))

-- A word of `n` ones.
pub digit-ones : (n k : ℕ) → k < n → digit k (2 ^ n - 1) ≡ 1
unfolding digit
digit-ones zero k h = absurd (omega arith)
digit-ones (suc n) zero h = omega (arith, pow-suc 2 n, one-le-pow n 2)
digit-ones (suc n) (suc k) h =
    let half : (2 ^ suc n - 1) / 2 ≡ 2 ^ n - 1 = omega (arith, pow-suc 2 n, one-le-pow n 2) in
    rw half (digit-ones n k (omega arith))

-- The complement of the single bit `1 << j` in a word of `n` bits.
pub digit-compl :
    (n k j : ℕ) → k < n → j < n → digit k (2 ^ n - 1 - 2 ^ j) ≡ (if j == k then 0 else 1)
unfolding digit
digit-compl zero k j hk hj = absurd (omega arith)
digit-compl (suc n) zero zero hk hj = ground (arith, pow-suc 2 n, one-le-pow n 2)
digit-compl (suc n) zero (suc j) hk hj =
    ground (arith, pow-suc 2 n, pow-suc 2 j, pow-lt j n (omega arith))
digit-compl (suc n) (suc k) zero hk hj =
    let half : (2 ^ suc n - 1 - 1) / 2 ≡ 2 ^ n - 1 = omega (arith, pow-suc 2 n, one-le-pow n 2) in
    rw half (ground (arith, digit-ones n k (omega arith)))
digit-compl (suc n) (suc k) (suc j) hk hj =
    let half : (2 ^ suc n - 1 - 2 ^ suc j) / 2 ≡ 2 ^ n - 1 - 2 ^ j =
      omega (arith, pow-suc 2 n, pow-suc 2 j, pow-lt j n (omega arith)) in
    rw half (ground (arith, digit-compl n k j (omega arith) (omega arith)))

bit_and-zero_below : (n a : ℕ) → a ≤ n → bit_and a 0 ≡ 0
bit_and-zero_below zero zero h = refl
bit_and-zero_below zero (suc a) h = absurd (omega arith)
bit_and-zero_below (suc n) zero h = refl
bit_and-zero_below (suc n) (suc a) h =
    omega (arith, bit_and_step (suc a) 0, bit_and-zero_below n (suc a / 2) (omega arith))

pub bit_and-zero : (a : ℕ) → bit_and a 0 ≡ 0
bit_and-zero a = bit_and-zero_below a a (omega arith)

bit_or-zero_below : (n a : ℕ) → a ≤ n → bit_or a 0 ≡ a
bit_or-zero_below zero zero h = refl
bit_or-zero_below zero (suc a) h = absurd (omega arith)
bit_or-zero_below (suc n) zero h = refl
bit_or-zero_below (suc n) (suc a) h =
    omega (arith, bit_or_step (suc a) 0, bit_or-zero_below n (suc a / 2) (omega arith))

pub bit_or-zero : (a : ℕ) → bit_or a 0 ≡ a
bit_or-zero a = bit_or-zero_below a a (omega arith)

pub bit_or-zero_left : (b : ℕ) → bit_or 0 b ≡ b
bit_or-zero_left b = simp bit_or-bitwise (omega arith)

-- A test `w & (1 << k)` reads the digit.
pub bit_and-pow : (k w : ℕ) → bit_and w (2 ^ k) ≡ digit k w * 2 ^ k
unfolding digit
bit_and-pow zero w = omega (arith, bit_and_step w 1, bit_and-zero (w / 2))
bit_and-pow (suc k) w =
    let half : 2 ^ suc k / 2 ≡ 2 ^ k = omega (arith, pow-suc 2 k) in
    rw (bit_and_step w (2 ^ suc k), half, bit_and-pow k (w / 2))
      (omega (arith, pow-suc 2 k, ap (λ (t : ℕ). digit k (w / 2) * t) (pow-suc 2 k)))

-- The test succeeds exactly when the digit is 1.
pub bit_and-pow_test : (k w : ℕ) → (bit_and w (2 ^ k) == 0) ≡ (digit k w == 0)
bit_and-pow_test k w = elim (Bool-cases (digit k w == 0)) [
  | inl clear ↦ ground (arith, bit_and-pow k w)
  | inr one ↦
      let d : digit k w ≡ 1 = ground (arith, digit-lt k w) in
      ground (arith, bit_and-pow k w, ap (λ (t : ℕ). t * 2 ^ k) d, one-le-pow k 2)
]
