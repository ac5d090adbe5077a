-- ===== src/Cpu/Idt.antt =====
-- kernel/src/cpu/idt.c and the table that kernel/src/cpu/isr.c fills.
use spctrx.Common.{
  ℕ, zero, suc, ◌+◌, ◌*◌, ◌^◌, ◌<◌, ◌≤◌, ◌≡◌, ◌∙◌, refl, bit_and, List, some, Outcome, done, fault,
  ◌>>=◌, arith, ltb, if◌then◌else◌, length, get_elem?, set, get_elem?-set_self, get_elem?-set_ne,
  lt→ltb, length-set, get_or,
}
use native.Mathlib.Decide.{dec_lt}
use spctrx.Common.Words.{shr, u8}
use spctrx.Common.Bits.{bit_and_low}

pub record IdtEntry : Type 0 where
  pub offset_low : ℕ
  pub selector : ℕ
  pub ist : ℕ
  pub attributes : ℕ
  pub offset_mid : ℕ
  pub offset_high : ℕ
  pub reserved : ℕ

abbrev pub idt_entry : ℕ → ℕ → IdtEntry
idt_entry isr flags = record {
  offset_low = bit_and isr 0xffff;
  selector = 0x08;
  attributes = u8 flags;
  offset_mid = bit_and (shr isr 16) 0xffff;
  offset_high = bit_and (shr isr 32) 0xffffffff;
  reserved = 0;
  ist = 0;
}

unfoldable pub idt_set_desc : List IdtEntry → ℕ → ℕ → ℕ → Outcome (List IdtEntry)
idt_set_desc idt i isr flags =
    if ltb i (length idt) then done (set idt i (idt_entry isr flags)) else fault

-- `isrStub` in memory: the addresses of stubs that isr.asm puts there, which are 255, and the word of
-- code that follows them.
pub record IsrStub : Type 0 where
  pub stubs : List ℕ
  pub behind : ℕ

-- `isrStub[i]`, for an index up to the one of the word that follows.
abbrev pub isr_stub : IsrStub → ℕ → ℕ
isr_stub table i = get_or table.stubs i table.behind

-- `isrInit`: `for (i = 0; i < 256; i++)`, with `n` rounds left.
unfoldable pub isr_loop : ℕ → ℕ → IsrStub → List IdtEntry → Outcome (List IdtEntry)
isr_loop zero i stub idt = done idt
isr_loop (suc n) i stub idt = idt_set_desc idt i (isr_stub stub i) 0x8e >>= isr_loop n (i + 1) stub

unfoldable pub isr_init : IsrStub → List IdtEntry → Outcome (List IdtEntry)
unfolding isr_loop idt_set_desc
isr_init stub idt = isr_loop 256 0 stub idt

-- The address to which the processor jumps.
abbrev pub offset_of : IdtEntry → ℕ
offset_of e = e.offset_low + e.offset_mid * 2 ^ 16 + e.offset_high * 2 ^ 32

-- An interrupt gate of the kernel's code segment that leads to `isr`.
pub record IsGate (isr flags : ℕ) (e : IdtEntry) : Type 0 where
  pub target : offset_of e ≡ isr
  pub kernel_code : e.selector ≡ 0x08
  pub kind : e.attributes ≡ flags
  pub no_stack_switch : e.ist ≡ 0

idt_entry-IsGate :
    (isr flags : ℕ) → isr < 2 ^ 64 → flags < 2 ^ 8 → IsGate isr flags (idt_entry isr flags)
idt_entry-IsGate isr flags h hf = record {
  target =
      rw (bit_and_low 16 isr, bit_and_low 16 (shr isr 16), bit_and_low 32 (shr isr 32))
        (omega arith);
  kernel_code = refl;
  kind = omega arith;
  no_stack_switch = refl;
}

-- Entry `j` of the table leads to the address in word `j` of `isrStub`.
abbrev pub Leads : IsrStub → List IdtEntry → ℕ → Type 0
Leads stub idt j = (e : IdtEntry) × (get_elem? idt j ≡ some e) × IsGate (isr_stub stub j) 0x8e e

isr_loop-Leads :
    (n i : ℕ) (stub : IsrStub) (idt : List IdtEntry)
    → i + n ≤ length idt
    → ((j : ℕ) → isr_stub stub j < 2 ^ 64)
    → ((j : ℕ) → j < i → Leads stub idt j)
    → (idt' : List IdtEntry) × (isr_loop n i stub idt ≡ done idt')
      × (length idt' ≡ length idt)
      × ((j : ℕ) → j < i + n → Leads stub idt' j)
unfolding isr_loop idt_set_desc
isr_loop-Leads zero i stub idt h small before = (idt, refl, refl, λ j lt. before j (omega arith))
isr_loop-Leads (suc n) i stub idt h small before =
    let e = idt_entry (isr_stub stub i) 0x8e in
    let next : (j : ℕ) → j < i + 1 → Leads stub (set idt i e) j = λ j lt. elim (dec_lt j i) [
      | yes below ↦
          let (e', at, gate) = before j below in
          (e', get_elem?-set_ne idt i j e (omega arith) ∙ at, gate)
      | no last ↦
          let same : j ≡ i = omega arith in
          rw same (
            e,
            get_elem?-set_self idt i e (omega arith),
            idt_entry-IsGate (isr_stub stub i) 0x8e (small i) (omega arith),
          )
    ] in
    let (idt', run, len, all) =
      isr_loop-Leads n (i + 1) stub (set idt i e) (omega (arith, length-set idt i e)) small next in
    (
      idt',
      rw (lt→ltb i (length idt) (omega arith)) run,
      len ∙ length-set idt i e,
      λ j lt. all j (omega arith),
    )

-- After `isrInit`, on a table of 256 entries and with words of 64 bits in `isrStub`, each of the 256
-- vectors is an interrupt gate that leads to the address in its word.
pub isr_init-Leads :
    (stub : IsrStub) (idt : List IdtEntry)
    → length idt ≡ 256
    → ((j : ℕ) → isr_stub stub j < 2 ^ 64)
    → (idt' : List IdtEntry) × (isr_init stub idt ≡ done idt')
      × (length idt' ≡ 256)
      × ((j : ℕ) → j < 256 → Leads stub idt' j)
unfolding isr_init
isr_init-Leads stub idt len small =
    let (idt', run, len', all) =
      isr_loop-Leads 256 0 stub idt (omega arith) small (λ j lt. absurd (omega arith)) in
    (idt', run, len' ∙ len, λ j lt. all j (omega arith))
