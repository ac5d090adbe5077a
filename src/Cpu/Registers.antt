-- ===== src/Cpu/Registers.antt =====
-- The registers of a processor that kernel/src/cpu/gdt.c and idt.c load, and the instructions of
-- kernel/src/include/util.h on interrupts. What the assembly loads is read from gdt.asm and idt.asm.
use spctrx.Common.{ℕ, ◌-◌, ◌*◌, Bool, true, false, List, Outcome, done, ◌>>=◌}
use spctrx.Cpu.Gdt.{GdtEntry, gdt_set_desc}
use spctrx.Cpu.Idt.{IdtEntry, IsrStub, isr_init}

-- `GDTR` and `IDTR`.
pub record TableRegister : Type 0 where
  pub limit : ℕ
  pub base : ℕ

-- The static variables: the two tables, at the addresses `gdt_at` and `idt_at`, and what is loaded.
pub record Descriptors : Type 0 where
  pub gdt_at : ℕ
  pub gdt : List GdtEntry
  pub gdtr : TableRegister
  pub idt_at : ℕ
  pub idt : List IdtEntry
  pub idtr : TableRegister

-- `data` is each of the five segment registers for data.
pub record Processor : Type 0 where
  pub interrupts : Bool
  pub halted : Bool
  pub gdtr : TableRegister
  pub idtr : TableRegister
  pub code : ℕ
  pub data_segments : ℕ

abbrev pub disable_ints : Processor → Processor
disable_ints p = record p { interrupts = false }

abbrev pub enable_ints : Processor → Processor
enable_ints p = record p { interrupts = true }

abbrev pub halt : Processor → Processor
halt p = record p { halted = true }

-- `gdtLoad` and `segReload`.
abbrev pub gdt_flush : Descriptors → Processor → Processor
gdt_flush d p = record p { gdtr = d.gdtr; code = 0x08; data_segments = 0x10 }

unfoldable pub gdt_init : Descriptors → Processor → Outcome (Descriptors × Processor)
unfolding gdt_set_desc
gdt_init d p = do
  g₀ ← gdt_set_desc d.gdt 0 0 0 0 0
  g₁ ← gdt_set_desc g₀ 1 0x00ffffff 0 0x9a 0xa
  g₂ ← gdt_set_desc g₁ 2 0x00ffffff 0 0x92 0xc
  g₃ ← gdt_set_desc g₂ 3 0x00ffffff 0 0xfa 0xa
  g₄ ← gdt_set_desc g₃ 4 0x00ffffff 0 0xf2 0xc
  let d' = record d { gdt = g₄; gdtr = record { limit = 8 * 6 - 1; base = d.gdt_at } }
  done (d', gdt_flush d' p)

-- `idtLoad`.
abbrev pub idt_flush : Descriptors → Processor → Processor
idt_flush d p = record p { idtr = d.idtr }

unfoldable pub idt_init : Descriptors → Processor → Descriptors × Processor
idt_init d p =
    let d' =
      (let e : Descriptors = d in
        record e { idtr = record { limit = 16 * 256 - 1; base = e.idt_at } }) in
    (d', idt_flush d' p)

-- The three calls of `main`; the table of the last one is seen through the base that is loaded.
unfoldable pub init_tables : IsrStub → Descriptors → Processor → Outcome (Descriptors × Processor)
unfolding gdt_init idt_init isr_init
init_tables stub d p = do
  (d₁, p₁) ← gdt_init d p
  let (d₂, p₂) = idt_init d₁ p₁
  idt ← isr_init stub d₂.idt
  done (record d₂ { idt = idt }, p₂)
