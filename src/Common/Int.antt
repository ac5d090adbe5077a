-- ===== src/Common/Int.antt =====
-- Signed integers, as far as the differences of two characters need them.
use Prim.Native.Nat.{ℕ, ◌+◌, ◌-◌, ◌<◌}
use mathlib.Core.Path.{◌≡◌}
use native.Mathlib.Omega.{arith}
use spctrx.Common.Tests.{ltb, leb, if◌then◌else◌}

-- `negsuc n` is -(n + 1).
pub data ℤ : Type 0 where
  pos : ℕ → ℤ
  negsuc : ℕ → ℤ

-- a - b, as an integer.
abbrev pub sub_ℕ : ℕ → ℕ → ℤ
sub_ℕ a b = if leb b a then pos (a - b) else negsuc (b - a - 1)

-- The difference of two bytes read as `char`, which is signed: -128 to 127.
unfoldable pub char_sub : ℕ → ℕ → ℤ
char_sub a b = sub_ℕ (a + (if ltb b 128 then 0 else 256)) (b + (if ltb a 128 then 0 else 256))

pub char_sub-eq-zero : (a b : ℕ) → a < 256 → b < 256 → char_sub a b ≡ pos 0 → a ≡ b
unfolding char_sub
char_sub-eq-zero a b ha hb h = ground arith

pub char_sub_self : (a : ℕ) → char_sub a a ≡ pos 0
unfolding char_sub
char_sub_self a = ground arith
