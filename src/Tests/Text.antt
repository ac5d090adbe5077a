-- ===== src/Tests/Text.antt =====
-- Memory blocks and strings at small inputs.
use spctrx.Common.{ℕ, ◌*◌, ◌%◌, ◌≡◌, List, [], ◌∷◌, done, arith}
use spctrx.Memory.Block.{Memory, Copied, memmove, memmove-Copied}
use spctrx.Memory.Cstring.{IsText}

-- Byte `a` holds the low byte of `3 * a`.
abbrev mem : Memory
mem a = 3 * a % 256

memmove-Copied_example : (m' : Memory) × (memmove mem 12 10 5 ≡ done m') × Copied mem 12 10 5 m'
memmove-Copied_example =
    memmove-Copied mem 12 10 5 (λ e. omega arith) (λ e. omega arith) (omega arith)

abbrev dev : List ℕ
dev = b'd' ∷ b'e' ∷ b'v' ∷ []

dev-IsText : IsText dev
dev-IsText = (
  λ e. omega arith,
  omega arith,
  (λ e. omega arith, omega arith, (λ e. omega arith, omega arith, tt)),
)

abbrev den : List ℕ
den = b'd' ∷ b'e' ∷ b'n' ∷ []

den-IsText : IsText den
den-IsText = (
  λ e. omega arith,
  omega arith,
  (λ e. omega arith, omega arith, (λ e. omega arith, omega arith, tt)),
)
