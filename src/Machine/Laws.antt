-- ===== src/Machine/Laws.antt =====
-- Registers hold what was written, and a key that is pressed is returned.
use spctrx.Common.{
  ℕ, ◌+◌, ◌*◌, ◌/◌, ◌%◌, ◌^◌, ◌<◌, ◌≡◌, ◌≢◌, refl, ◌∙◌, bit_and, not, Bool, true, false, done,
  arith, ◌==◌, poll-first, poll-stops, eq→==, ne→==,
}
use spctrx.Common.Words.{shl64, shr}
use spctrx.Common.Bits.{bit_or_disjoint, bit_and_low}
use spctrx.Machine.Defs.{Msrs, wrmsr, rdmsr, keypress}

-- A register that is read after it was written has the 64-bit value, and the other registers keep theirs.
pub rdmsr-wrmsr :
    (msr value : ℕ) (s : Msrs)
    → value < 2 ^ 64
    → (rdmsr msr (wrmsr msr value s) ≡ value)
      × ((r : ℕ) → msr ≢ r → rdmsr r (wrmsr msr value s) ≡ rdmsr r s)
unfolding wrmsr rdmsr
rdmsr-wrmsr msr value s h =
    let up : shl64 (shr value 32) 32 ≡ value / 2 ^ 32 * 2 ^ 32 = omega arith in
    (
      rw (eq→== msr msr refl, bit_and_low 32 value, up)
          (bit_or_disjoint 32 (value / 2 ^ 32) (value % 2 ^ 32) (omega arith) ∙ omega arith),
      λ r ne. rw (ne→== msr r ne),
    )

abbrev pub has_key : (ℕ → ℕ) → ℕ → Bool
has_key status k = not (bit_and (status k) 1 == 0)

-- Where the keyboard has a byte at read `old` and a next one `later + 1` reads on, and none in between, the call
-- returns the second one: what was there before is dropped, and no key is waited for in vain.
pub keypress-returns :
    (fuel : ℕ) (status data_at : ℕ → ℕ) (old later : ℕ)
    → old < fuel
    → later < fuel
    → ((i : ℕ) → i < old → has_key status i ≡ false)
    → has_key status old ≡ true
    → ((i : ℕ) → i < later → has_key status (old + 1 + i) ≡ false)
    → has_key status (old + 1 + later) ≡ true
    → keypress fuel status data_at ≡ done (data_at (old + 1 + later))
unfolding keypress
keypress-returns fuel status data_at old later lo ll none_old at_old none_later at_later = rw (
  poll-first fuel old (has_key status) lo none_old at_old,
  poll-stops fuel later (old + 1) (has_key status) ll none_later at_later,
)
