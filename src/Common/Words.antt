-- ===== src/Common/Words.antt =====
-- Unsigned machine words as native numbers, and the macros of kernel/src/include/util.h
-- that are arithmetic on them.
use Prim.Native.Nat.{ℕ, ◌+◌, ◌-◌, ◌*◌, ◌/◌, ◌%◌, ◌^◌, bit_and}

abbrev pub u8 : ℕ → ℕ
u8 n = n % 2 ^ 8

abbrev pub u16 : ℕ → ℕ
u16 n = n % 2 ^ 16

abbrev pub u32 : ℕ → ℕ
u32 n = n % 2 ^ 32

abbrev pub u64 : ℕ → ℕ
u64 n = n % 2 ^ 64

-- `~x` of a 64-bit word.
abbrev pub not64 : ℕ → ℕ
not64 x = 2 ^ 64 - 1 - x

-- `a - b` and `a << k` on 64 bits; `x >> k` needs no reduction.
abbrev pub sub64 : ℕ → ℕ → ℕ
sub64 a b = (a + 2 ^ 64 - b) % 2 ^ 64

abbrev pub shl64 : ℕ → ℕ → ℕ
shl64 x k = x * 2 ^ k % 2 ^ 64

abbrev pub shl32 : ℕ → ℕ → ℕ
shl32 x k = x * 2 ^ k % 2 ^ 32

abbrev pub shr : ℕ → ℕ → ℕ
shr x k = x / 2 ^ k

-- `DIV_ROUND_UP`.
unfoldable pub div_round_up : ℕ → ℕ → ℕ
div_round_up n d = u64 (n + d + 2 ^ 64 - 1) / d

-- `ALIGN_UP`, `ALIGN_DOWN`.
unfoldable pub align_up : ℕ → ℕ → ℕ
align_up num align = bit_and (u64 (num + (align - 1))) (not64 (align - 1))

unfoldable pub align_down : ℕ → ℕ → ℕ
align_down num align = bit_and num (not64 (align - 1))

-- `U64_LOW`, `U64_HIGH`, `U64`.
unfoldable pub u64_low : ℕ → ℕ
u64_low addr = bit_and addr 0xffffffff

unfoldable pub u64_high : ℕ → ℕ
u64_high addr = bit_and (shr addr 32) 0xffffffff

unfoldable pub u64_join : ℕ → ℕ → ℕ
u64_join low high = u64 (shl64 high 32 + low)

abbrev pub page_size : ℕ
page_size = 0x1000
