-- ===== src/Common/Bits/Step.antt =====
-- How `|` and `&` act on the lowest digit. The native operations are defined by `digits`, which counts
-- down a number of rounds; more rounds than the left operand's value change nothing.
use Prim.Native.Nat.{
  ℕ, ◌+◌, ◌-◌, ◌*◌, ◌/◌, ◌%◌, ◌≤◌, bit_or, bit_and, bit_or-bitwise, bit_and-bitwise,
}
use Prim.Native.Nat.{zero, suc, max, min, bitwise, digits}
use mathlib.Core.Path.{refl, ◌∙◌, sym, ◌≡◌}
use native.Mathlib.Omega.{arith}

module _ (end : ℕ → ℕ) (combine : ℕ → ℕ → ℕ) where
  one_round_more :
      (rounds x y : ℕ)
      → x ≤ rounds
      → digits end combine (suc rounds) x y ≡ digits end combine rounds x y
  one_round_more rounds zero y h = at_zero rounds
    where
      at_zero : (r : ℕ) → digits end combine (suc r) zero y ≡ digits end combine r zero y
      at_zero zero = refl
      at_zero (suc r) = refl
  one_round_more zero (suc x) y h = absurd (omega arith)
  one_round_more (suc rounds) (suc x) y h =
      let halves = one_round_more rounds (suc x / 2) (y / 2) (omega arith) in rw halves

  rounds_more : (extra x y : ℕ) → digits end combine (extra + x) x y ≡ digits end combine x x y
  rounds_more zero x y = let e : 0 + x ≡ x = omega arith in rw e
  rounds_more (suc extra) x y =
      let e : suc extra + x ≡ suc (extra + x) = omega arith in
      rw e (one_round_more (extra + x) x y (omega arith) ∙ rounds_more extra x y)

  lowest :
      (x y : ℕ)
      → bitwise end combine (suc x) y
        ≡ bitwise end combine (suc x / 2) (y / 2) * 2 + combine (suc x % 2) (y % 2)
  lowest x y =
      let half = suc x / 2 in
      let split : x ≡ x - half + half = omega arith in
      let enough : digits end combine x half (y / 2) ≡ digits end combine half half (y / 2) =
        rw (sym split) at (rounds_more (x - half) half (y / 2)) in
      omega (arith, enough)

-- The lowest digit of a disjunction is the larger of the two digits.
pub bit_or_step : (x y : ℕ) → bit_or x y ≡ bit_or (x / 2) (y / 2) * 2 + max (x % 2) (y % 2)
bit_or_step zero y = simp bit_or-bitwise (omega arith)
bit_or_step (suc x) y = simp bit_or-bitwise (lowest (λ rest. rest) max x y)

-- That of a conjunction is the smaller one.
pub bit_and_step : (x y : ℕ) → bit_and x y ≡ bit_and (x / 2) (y / 2) * 2 + min (x % 2) (y % 2)
bit_and_step zero y = simp bit_and-bitwise (omega arith)
bit_and_step (suc x) y = simp bit_and-bitwise (lowest (λ rest. 0) min x y)
