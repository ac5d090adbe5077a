-- ===== src/Common/Bits/Fields.antt =====
-- `|` of disjoint fields and `&` with a low mask, as arithmetic.
use Prim.Native.Nat.{ℕ, zero, suc, ◌+◌, ◌-◌, ◌*◌, ◌/◌, ◌%◌, ◌^◌, ◌≤◌, ◌<◌, bit_and, bit_or}
use mathlib.Core.Path.{◌≡◌, ap}
use native.Mathlib.Nat.{pow-suc, one-le-pow, mod-eq_of_lt}
use native.Mathlib.Omega.{arith}
use spctrx.Common.Bits.Step.{bit_or_step, bit_and_step}
use spctrx.Common.Bits.Masks.{bit_and-zero, bit_or-zero, bit_or-zero_left}

-- A field above `k` bits and a field of `k` bits share no digit.
pub bit_or_disjoint :
    (k high low : ℕ) → low < 2 ^ k → bit_or (high * 2 ^ k) low ≡ high * 2 ^ k + low
bit_or_disjoint zero high low h = ground (arith, bit_or-zero high)
bit_or_disjoint (suc k) high low h =
    let twice : high * 2 ^ suc k ≡ 2 * (high * 2 ^ k) =
      omega (arith, ap (λ (t : ℕ). high * t) (pow-suc 2 k)) in
    let half : high * 2 ^ suc k / 2 ≡ high * 2 ^ k = omega arith in
    let rest = bit_or_disjoint k high (low / 2) (omega (arith, pow-suc 2 k)) in
    rw (bit_or_step (high * 2 ^ suc k) low, half, rest) (omega arith)

mod_double : (m a : ℕ) → (a / 2) % m * 2 + a % 2 ≡ a % (m * 2)
mod_double m a = grind arith

-- `&` with `k` ones keeps the low `k` bits.
pub bit_and_low : (k a : ℕ) → bit_and a (2 ^ k - 1) ≡ a % 2 ^ k
bit_and_low zero a = omega (arith, bit_and-zero a)
bit_and_low (suc k) a =
    let half : (2 ^ suc k - 1) / 2 ≡ 2 ^ k - 1 = omega (arith, pow-suc 2 k, one-le-pow k 2) in
    rw (bit_and_step a (2 ^ suc k - 1), half, bit_and_low k (a / 2), pow-suc 2 k)
      (omega (arith, mod_double (2 ^ k) a, one-le-pow k 2))

div_double : (m a : ℕ) → a / 2 / m * m * 2 ≡ a / (m * 2) * (m * 2)
div_double m a = grind arith

-- `&` with the ones from bit `k` on drops the low `k` bits.
pub bit_and_high : (n k a : ℕ) → k ≤ n → a < 2 ^ n → bit_and a (2 ^ n - 2 ^ k) ≡ a / 2 ^ k * 2 ^ k
bit_and_high n zero a h fits = rw (bit_and_low n a) (omega (arith, mod-eq_of_lt fits))
bit_and_high zero (suc k) a h fits = absurd (omega arith)
bit_and_high (suc n) (suc k) a h fits =
    let half : (2 ^ suc n - 2 ^ suc k) / 2 ≡ 2 ^ n - 2 ^ k =
      omega (arith, pow-suc 2 n, pow-suc 2 k) in
    let rest = bit_and_high n k (a / 2) (omega arith) (omega (arith, pow-suc 2 n)) in
    let even : (2 ^ suc n - 2 ^ suc k) % 2 ≡ 0 = omega (arith, pow-suc 2 n, pow-suc 2 k) in
    rw (bit_and_step a (2 ^ suc n - 2 ^ suc k), half, rest, even, pow-suc 2 k)
      (omega (arith, div_double (2 ^ k) a))

-- The same with the operands the other way round.
pub bit_or_above : (k low high : ℕ) → low < 2 ^ k → bit_or low (high * 2 ^ k) ≡ low + high * 2 ^ k
bit_or_above zero low high h =
    let z : low ≡ 0 = omega arith in
    rw z (ground (arith, bit_or_step 0 (high * 1), bit_or-zero_left (high * 1)))
bit_or_above (suc k) low high h =
    let twice : high * 2 ^ suc k ≡ 2 * (high * 2 ^ k) =
      omega (arith, ap (λ (t : ℕ). high * t) (pow-suc 2 k)) in
    let half : high * 2 ^ suc k / 2 ≡ high * 2 ^ k = omega arith in
    let rest = bit_or_above k (low / 2) high (omega (arith, pow-suc 2 k)) in
    rw (bit_or_step low (high * 2 ^ suc k), half, rest) (omega arith)
