-- ===== src/Panic/Laws.antt =====
-- The call trace is the chain of frames.
use spctrx.Common.{
  ltb, fault, ◌⊎◌, Bool, true, false, ◌+◌, ◌≤◌, ◌++◌, Option, none, some, done, length, get_elem?,
  inr, inl, ◌==◌, Bool-cases, ℕ, zero, suc, ◌/◌, ◌^◌, ◌<◌, ◌≡◌, ◌≢◌, refl, List, [], ◌∷◌, take,
  ne→==, arith, ◌%◌,
}
use spctrx.Common.Words.{shr}
use spctrx.Common.Bits.{bit_and_low}
use spctrx.Cpu.Registers.{Processor}
use spctrx.Panic.Defs.{
  Regs, panic_isr, Stacktrace, exceptions, Exception, Regs, regs_lines, panic_isr, trace_loop,
  do_panic,
}

-- The return addresses on the stack from a frame on, up to a null frame or a null address.
pub data Chain (frames : ℕ → Stacktrace) : ℕ → List ℕ → Type 0 where
  outermost : Chain frames 0 []
  no_return : {stk : ℕ} → (frames stk).rip ≡ 0 → Chain frames stk []
  call :
      {stk : ℕ} {rips : List ℕ}
      → stk ≢ 0
      → (frames stk).rip ≢ 0
      → Chain frames (frames stk).rbp rips
      → Chain frames stk ((frames stk).rip ∷ rips)

trace_loop-take :
    (n : ℕ) (frames : ℕ → Stacktrace) (stk : ℕ) (rips : List ℕ)
    → Chain frames stk rips
    → trace_loop n frames stk ≡ take n rips
unfolding trace_loop
trace_loop-take zero frames stk rips c = refl
trace_loop-take (suc n) frames stk rips outermost = refl
trace_loop-take (suc n) frames stk rips (no_return e) = elim (Bool-cases (stk == 0)) [
  | inl null ↦ rw null
  | inr there ↦ rw (there, e)
]
trace_loop-take (suc n) frames stk rips (call some_frame returns c) = rw (
  ne→== stk 0 some_frame,
  ne→== (frames stk).rip 0 returns,
  trace_loop-take n frames (frames stk).rbp _ c,
)

do_panic-Chain :
    (ebx : ℕ) (frames : ℕ → Stacktrace) (rbp : ℕ) (rips : List ℕ) (p : Processor)
    → ebx < 2 ^ 32
    → Chain frames rbp rips
    → do_panic ebx frames rbp p ≡ (
      record { cpu_id = ebx / 2 ^ 24; trace = take 10 rips },
      record p { interrupts = false; halted = true },
    )
unfolding do_panic
do_panic-Chain ebx frames rbp rips p h c =
    let id : shr ebx 24 % 2 ^ 8 ≡ ebx / 2 ^ 24 = omega arith in
    rw (trace_loop-take 10 frames rbp rips c, bit_and_low 8 (shr ebx 24), id)

all_some : List (Option Exception) → Bool
all_some [] = true
all_some (none ∷ xs) = false
all_some (some e ∷ xs) = all_some xs

-- A list of names with two missing ones behind it.
name_at :
    (xs : List (Option Exception)) (i : ℕ)
    → all_some xs ≡ true
    → i < length xs + 2
    → (name : Option Exception) × (get_elem? (xs ++ none ∷ none ∷ []) i ≡ some name)
      × (i < length xs → (e : Exception) × (name ≡ some e))
      × (length xs ≤ i → name ≡ none)
unfolding all_some
name_at [] zero h lt = (none, refl, (λ below. absurd (omega (arith, below))), λ past. refl)
name_at [] (suc zero) h lt = (none, refl, (λ below. absurd (omega (arith, below))), λ past. refl)
name_at [] (suc (suc i)) h lt = absurd (omega (arith, lt))
name_at (none ∷ xs) i h lt = absurd (cc)
name_at (some e ∷ xs) zero h lt =
    (some e, refl, (λ below. (e, refl)), λ past. absurd (omega (arith, past)))
name_at (some e ∷ xs) (suc i) h lt =
    let (name, at, named, missing) = name_at xs i h (omega (arith, lt)) in
    (name, at, (λ below. named (omega (arith, below))), λ past. missing (omega (arith, past)))

below_or : (i : ℕ) → (i < 30) ⊎ (30 ≤ i)
below_or i = elim (Bool-cases (ltb i 30)) [
  | inl lt ↦ inl (ground arith)
  | inr ge ↦ inr (ground arith)
]

-- An exception below 30 reports its name, its registers and what a panic reports: the processor from
-- the top eight bits, and of the return addresses on the stack the innermost ten, or all if there are
-- fewer. The processor then halts with interrupts disabled. The exceptions 30 and 31 have no name in the
-- table, and the report reads through a null pointer before any register is shown.
pub panic_isr-Chain :
    (ebx : ℕ) (frames : ℕ → Stacktrace) (rbp : ℕ) (rips : List ℕ) (regs : Regs) (p : Processor)
    → ebx < 2 ^ 32
    → Chain frames rbp rips
    → regs.int_id < 32
    → ((regs.int_id < 30)
        × (name : Exception) × (get_elem? exceptions regs.int_id ≡ some (some name))
        × (panic_isr ebx frames rbp regs p
            ≡ done (
              name,
              regs_lines regs,
              record { cpu_id = ebx / 2 ^ 24; trace = take 10 rips },
              record p { interrupts = false; halted = true },
            )))
      ⊎ ((30 ≤ regs.int_id) × (panic_isr ebx frames rbp regs p ≡ fault))
unfolding panic_isr all_some
panic_isr-Chain ebx frames rbp rips regs p h c small =
    let (entry, at, named, missing) =
      name_at (take 30 exceptions) regs.int_id refl (omega (arith, small)) in
    let listed : get_elem? exceptions regs.int_id ≡ some entry = at in
    elim (below_or regs.int_id) [
      | inl below ↦
          let (name, e) = named below in
          let listed' : get_elem? exceptions regs.int_id ≡ some (some name) = rw e at listed in
          inl (below, name, listed', rw (listed', do_panic-Chain ebx frames rbp rips p h c))
      | inr past ↦
          let listed' : get_elem? exceptions regs.int_id ≡ some none =
            rw (missing past) at listed in
          inr (past, rw listed')
    ]
