-- ===== src/Apic/Processors.antt =====
-- `mpEntry`: a further processor, with the tables of the first one.
use spctrx.Common.{ℕ, ◌*◌, ◌^◌, ◌<◌, ◌≡◌, refl, true, false, ◌⊎◌, inl, inr, done, panic}
use spctrx.Pmm.{Exhausted}
use spctrx.Machine.{rdmsr}
use spctrx.Cpu.Idt.{IsrStub}
use spctrx.Cpu.Registers.{Descriptors, Processor, disable_ints, halt, gdt_flush, idt_flush}
use spctrx.Cpu.Deliver.{Ready, Delivers, Ready-Delivers}
use spctrx.Vmm.{IsSpace, Becomes, lookup, with_device}
use spctrx.Apic.Defs.{Lapic, mp_entry, ia32_apic_base_msr}
use spctrx.Apic.Laws.{Enabled, base_page, lapic_init-Becomes}

-- It waits with interrupts disabled, and would deliver each vector below 255 to its stub.
pub record Waits (stub : IsrStub) (d : Descriptors) (p : Processor) : Type 0 where
  pub halted : p.halted ≡ true
  pub disabled : p.interrupts ≡ false
  pub delivers : Delivers stub d p

-- With the tables that the first processor has set up and page tables that are a tree, a further processor
-- loads the tables, enables its local controller, maps its page, and halts with interrupts
-- disabled; or fewer than three pages are free and it panics.
pub mp_entry-Waits :
    (hhdm : ℕ) (stub : IsrStub) (d : Descriptors) (p : Processor) (s : Lapic)
    → Ready stub d
    → rdmsr ia32_apic_base_msr s.msrs < 2 ^ 64
    → IsSpace hhdm s.vmm
    → ((p' : Processor) × (s' : Lapic) × (mp_entry hhdm d p s ≡ done (p', s'))
        × Waits stub d p'
        × Enabled hhdm s s'
        × Becomes hhdm s.vmm 3 (with_device hhdm (base_page s * 2 ^ 12) (lookup hhdm s.vmm)) s'.vmm)
      ⊎ ((mp_entry hhdm d p s ≡ panic) × Exhausted s.vmm.pmm 3)
unfolding mp_entry
mp_entry-Waits hhdm stub d p s ready h space = elim (lapic_init-Becomes hhdm s h space) [
  | inl (s', run, e, b) ↦
      let p' = halt (idt_flush d (gdt_flush d (disable_ints p))) in
      inl (
        p',
        s',
        rw run,
        record {
          halted = refl;
          disabled = refl;
          delivers =
              Ready-Delivers stub d p' ready
                (record { same_gdtr = refl; same_idtr = refl; kernel_code = refl });
        },
        e,
        b,
      )
  | inr (stop, none_left) ↦ inr (rw stop, none_left)
]
