-- ===== src/Panic/Defs.antt =====
-- The functions of panic.c. The formatting by printf is left out: a line is the numbers that it shows.
use spctrx.Common.{
  ℕ, zero, suc, bit_and, List, [], ◌∷◌, ◌++◌, Option, none, some, Outcome, from_some, get_elem?,
  done, ◌>>=◌, replicate, ◌==◌, if◌then◌else◌,
}
use spctrx.Common.Words.{shr}
use spctrx.Cpu.Registers.{Processor, disable_ints, halt}

-- The names of the table `exceptions`.
pub data Exception : Type 0 where
  div_by_zero : Exception
  debug : Exception
  nmi : Exception
  breakpoint : Exception
  overflow : Exception
  bound_range_exceeded : Exception
  invalid_opcode : Exception
  device_not_available : Exception
  double_fault : Exception
  coprocessor_segment_overrun : Exception
  bad_tss : Exception
  segment_not_present : Exception
  stack_segment_fault : Exception
  general_protection_fault : Exception
  page_fault : Exception
  unknown : Exception
  x87_floating_point : Exception
  alignment_check : Exception
  machine_check : Exception

-- The table has 32 entries and 30 of them are given; the others are null.
abbrev pub exceptions : List (Option Exception)
exceptions =
    some div_by_zero
    ∷ some debug
    ∷ some nmi
    ∷ some breakpoint
    ∷ some overflow
    ∷ some bound_range_exceeded
    ∷ some invalid_opcode
    ∷ some device_not_available
    ∷ some double_fault
    ∷ some coprocessor_segment_overrun
    ∷ some bad_tss
    ∷ some segment_not_present
    ∷ some stack_segment_fault
    ∷ some general_protection_fault
    ∷ some page_fault
    ∷ some unknown
    ∷ some x87_floating_point
    ∷ some alignment_check
    ∷ some machine_check
    ∷ (replicate 11 (some unknown) ++ replicate 2 none)

-- The name that `panicIsr` prints: the string is read through the pointer of the table, and a null pointer
-- is an invalid access.
abbrev pub exception_name : ℕ → Outcome Exception
exception_name int_id = do entry ← from_some (get_elem? exceptions int_id); from_some entry

-- `Stacktrace`: the frame of the caller and the address to return to.
pub record Stacktrace : Type 0 where
  pub rbp : ℕ
  pub rip : ℕ

-- The loop over the frames, with `n` rounds left: the addresses that it prints.
unfoldable pub trace_loop : ℕ → (ℕ → Stacktrace) → ℕ → List ℕ
trace_loop zero frames stk = []
trace_loop (suc n) frames stk =
    let rest = trace_loop n frames (frames stk).rbp in
    if stk == 0 then [] else if (frames stk).rip == 0 then [] else (frames stk).rip ∷ rest

-- What `doPanic` prints apart from the message: the number of the processor, and the call trace.
pub record Report : Type 0 where
  pub cpu_id : ℕ
  pub trace : List ℕ

-- `Regs`: what the stub of an interrupt has put on the stack.
pub record Regs : Type 0 where
  pub rdi_ignore : ℕ
  pub r15 : ℕ
  pub r14 : ℕ
  pub r13 : ℕ
  pub r12 : ℕ
  pub r11 : ℕ
  pub r10 : ℕ
  pub r9 : ℕ
  pub r8 : ℕ
  pub rsp : ℕ
  pub rsi : ℕ
  pub rdi : ℕ
  pub rdx : ℕ
  pub rcx : ℕ
  pub rbx : ℕ
  pub rax : ℕ
  pub int_id : ℕ
  pub err_id : ℕ
  pub rip : ℕ
  pub cs : ℕ
  pub r_flags : ℕ
  pub k_rsp : ℕ
  pub ss : ℕ

-- The lines on the registers that `panicIsr` prints, in order.
abbrev pub regs_lines : Regs → List (List ℕ)
regs_lines regs =
    (regs.err_id ∷ regs.int_id ∷ [])
    ∷ (regs.rax ∷ regs.r8 ∷ [])
    ∷ (regs.rbx ∷ regs.r9 ∷ [])
    ∷ (regs.rcx ∷ regs.r10 ∷ [])
    ∷ (regs.rdx ∷ regs.r11 ∷ [])
    ∷ (regs.rsi ∷ regs.r12 ∷ [])
    ∷ (regs.rdi ∷ regs.r13 ∷ [])
    ∷ (regs.rsp ∷ regs.r14 ∷ [])
    ∷ (regs.rip ∷ regs.r15 ∷ [])
    ∷ (regs.r_flags ∷ [])
    ∷ (regs.cs ∷ regs.ss ∷ [])
    ∷ (regs.k_rsp ∷ [])
    ∷ []

-- The processor halts with interrupts disabled. `ebx` is from `cpuid`, `rbp` is the register.
unfoldable pub do_panic : ℕ → (ℕ → Stacktrace) → ℕ → Processor → Report × Processor
unfolding trace_loop
do_panic ebx frames rbp p = (
  record { cpu_id = bit_and (shr ebx 24) 0xff; trace = trace_loop 10 frames rbp },
  halt (disable_ints p),
)

-- `panicIsr`: the name of the exception, the lines on the registers, and the report of `panic`.
unfoldable pub panic_isr :
    ℕ
    → (ℕ → Stacktrace)
    → ℕ
    → Regs
    → Processor
    → Outcome (Exception × List (List ℕ) × Report × Processor)
panic_isr ebx frames rbp regs p = do
  name ← exception_name regs.int_id
  let (report, halted) = do_panic ebx frames rbp p
  done (name, regs_lines regs, report, halted)
