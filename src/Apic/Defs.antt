-- ===== src/Apic/Defs.antt =====
-- The functions of lapic.c, apic.c and mp.c. The registers of the controller are a function of their
-- virtual addresses: a read gives what was written last. What `cpuid` answers is a parameter.
use spctrx.Common.{
  ℕ, Bool, ◌+◌, bit_and, bit_or, not, List, [], ◌∷◌, ◌++◌, Option, none, some, Outcome, done, panic,
  ◌>>=◌, ◌==◌, if◌then◌else◌,
}
use spctrx.Common.Words.{u64, not64}
use spctrx.Machine.{PortWrite, out8, Msrs, wrmsr, rdmsr}
use spctrx.Cpu.Registers.{Descriptors, Processor, disable_ints, halt, gdt_flush, idt_flush}
use spctrx.Vmm.{Vmm, vmm_phys_to_virt, vmm_map_mmio}
use spctrx.Slab.{Slab}
use spctrx.IoApic.{IoApics, Registers, io_apic_init}

abbrev pub ia32_apic_base_msr : ℕ
ia32_apic_base_msr = 0x1b

abbrev pub lapic_reg_spi : ℕ
lapic_reg_spi = 0xf0

-- The registers of the processor and of its controller, the page tables, and the outputs in order.
pub record Lapic : Type 0 where
  pub msrs : Msrs
  pub regs : ℕ → ℕ
  pub vmm : Vmm
  pub outputs : List PortWrite

unfoldable pub lapic_set_base : ℕ → Lapic → Lapic
lapic_set_base base s = record s { msrs = wrmsr ia32_apic_base_msr (bit_or base 0x800) s.msrs }

unfoldable pub lapic_get_base : Lapic → ℕ
lapic_get_base s = bit_and (rdmsr ia32_apic_base_msr s.msrs) (not64 0xfff)

unfoldable pub lapic_write_reg : ℕ → ℕ → ℕ → Lapic → Lapic
unfolding lapic_get_base
lapic_write_reg hhdm reg value s =
    let ptr = vmm_phys_to_virt hhdm (u64 (lapic_get_base s + reg)) in
    record s { regs = λ a. if ptr == a then value else s.regs a }

unfoldable pub lapic_read_reg : ℕ → ℕ → Lapic → ℕ
unfolding lapic_get_base
lapic_read_reg hhdm reg s = s.regs (vmm_phys_to_virt hhdm (u64 (lapic_get_base s + reg)))

unfoldable pub lapic_send_eoi : ℕ → Lapic → Lapic
unfolding lapic_write_reg
lapic_send_eoi hhdm s = lapic_write_reg hhdm 0xb0 0 s

unfoldable pub lapic_init : ℕ → Lapic → Outcome Lapic
unfolding lapic_set_base lapic_get_base lapic_write_reg lapic_read_reg
lapic_init hhdm s = do
  let masked = record s { outputs = s.outputs ++ (out8 0x21 0xff ∷ out8 0xa1 0xff ∷ []) }
  vmm ← vmm_map_mmio hhdm (lapic_get_base masked) 1 masked.vmm
  let mapped = record masked { vmm = vmm }
  let based = lapic_set_base (lapic_get_base mapped) mapped
  done (
      lapic_write_reg hhdm lapic_reg_spi (bit_or (lapic_read_reg hhdm lapic_reg_spi based) 0x100)
        based)

-- CPUID_FEAT_EDX_APIC
abbrev pub apic_check_support : ℕ → Bool
apic_check_support edx = not (bit_and edx 0x200 == 0)

-- `madt` is the bytes of the table, if there is one; `regs` the registers of the I/O APICs; `slabs` and
-- `words` what memory holds.
unfoldable pub apic_init :
    ℕ → ℕ → Option (List ℕ) → Registers → (ℕ → Slab) → (ℕ → ℕ) → Lapic → Outcome (IoApics × Lapic)
unfolding lapic_init
apic_init hhdm edx madt regs slabs words s = if not (apic_check_support edx) then panic else do
  apics ← io_apic_init hhdm madt regs slabs words s.vmm
  s' ← lapic_init hhdm (record s { vmm = apics.vmm })
  done (apics, s')

-- What a processor runs that the boot loader starts.
unfoldable pub mp_entry : ℕ → Descriptors → Processor → Lapic → Outcome (Processor × Lapic)
unfolding lapic_init
mp_entry hhdm d p s = do
  let loaded = idt_flush d (gdt_flush d (disable_ints p))
  s' ← lapic_init hhdm s
  done (halt loaded, s')

-- The loop of `mpInit` over the goto addresses of the processors; `entry` is the address of `mpEntry`.
abbrev pub goto_loop : ℕ → List ℕ → List ℕ
goto_loop entry [] = []
goto_loop entry (cpu ∷ cpus) = entry ∷ goto_loop entry cpus

-- `none` is a boot loader that does not respond.
abbrev pub mp_init : ℕ → Option (List ℕ) → Option (List ℕ)
mp_init entry none = none
mp_init entry (some cpus) = some (goto_loop entry cpus)
