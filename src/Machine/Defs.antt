-- ===== src/Machine/Defs.antt =====
-- Outputs to ports as values in the order of the calls, registers as state, and the answers of a device
-- as a function from the number of the read.
use spctrx.Common.{ℕ, ◌+◌, bit_and, bit_or, not, Outcome, done, ◌>>=◌, poll, ◌==◌, if◌then◌else◌}
use spctrx.Common.Words.{shr, shl64}

pub data PortWrite : Type 0 where
  out8 : ℕ → ℕ → PortWrite
  out16 : ℕ → ℕ → PortWrite
  out32 : ℕ → ℕ → PortWrite

-- The two halves of each model-specific register.
pub record Msrs : Type 0 where
  pub low : ℕ → ℕ
  pub high : ℕ → ℕ

unfoldable pub wrmsr : ℕ → ℕ → Msrs → Msrs
wrmsr msr value s = record {
  low = λ r. if msr == r then bit_and value 0xffffffff else s.low r;
  high = λ r. if msr == r then shr value 32 else s.high r;
}

unfoldable pub rdmsr : ℕ → Msrs → ℕ
rdmsr msr s = bit_or (shl64 (s.high msr) 32) (s.low msr)

-- `status k` and `data k` are what the keyboard's two ports answer to the `k`-th read of the status. The
-- first loop and the read behind it take what is waiting, the second ones the key.
unfoldable pub keypress : ℕ → (ℕ → ℕ) → (ℕ → ℕ) → Outcome ℕ
keypress fuel status data_at = do
  old ← poll fuel (λ k. not (bit_and (status k) 1 == 0)) 0
  new ← poll fuel (λ k. not (bit_and (status k) 1 == 0)) (old + 1)
  done (data_at new)
