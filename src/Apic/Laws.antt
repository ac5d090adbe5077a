-- ===== src/Apic/Laws.antt =====
-- The local controller after its start.
use spctrx.Common.{
  panic, ◌⊎◌, ◌⊎◌, inl, inr, panic, ◌==◌, if◌then◌else◌, ◌∙◌, ℕ, ◌+◌, ◌*◌, ◌/◌, ◌^◌, ◌<◌, ◌≡◌, ◌≢◌,
  refl, bit_and, bit_or, [], ◌∷◌, ◌++◌, done, arith, eq→==, ne→==,
}
use spctrx.Common.Words.{u64, not64}
use spctrx.Common.Bits.{bit_and_high, bit_or_disjoint}
use spctrx.Machine.{out8, wrmsr, rdmsr, rdmsr-wrmsr}
use spctrx.Vmm.{
  vmm_map_mmio-Becomes, with_device, lookup, Becomes, IsSpace, Vmm, vmm_phys_to_virt, vmm_map_mmio,
}
use spctrx.Pmm.{Exhausted}
use spctrx.Apic.Defs.{
  Lapic, ia32_apic_base_msr, lapic_reg_spi, lapic_get_base, lapic_set_base, lapic_write_reg,
  lapic_read_reg, lapic_init,
}

-- The page of the registers.
abbrev pub base_page : Lapic → ℕ
base_page s = rdmsr ia32_apic_base_msr s.msrs / 2 ^ 12

page_of : (v : ℕ) → v < 2 ^ 64 → bit_and v (not64 0xfff) ≡ v / 2 ^ 12 * 2 ^ 12
page_of v h = bit_and_high 64 12 v (omega arith) h

abbrev pub spi_address : ℕ → Lapic → ℕ
spi_address hhdm s = vmm_phys_to_virt hhdm (u64 (base_page s * 2 ^ 12 + lapic_reg_spi))

-- The controller is enabled at the page it had, and nothing else of the base register is kept; the old
-- controllers are masked; in the spurious vector register one bit is added.
pub record Enabled (hhdm : ℕ) (s s' : Lapic) : Type 0 where
  pub base : rdmsr ia32_apic_base_msr s'.msrs ≡ base_page s * 2 ^ 12 + 0x800
  pub others : (r : ℕ) → ia32_apic_base_msr ≢ r → rdmsr r s'.msrs ≡ rdmsr r s.msrs
  pub masked : s'.outputs ≡ s.outputs ++ (out8 0x21 0xff ∷ out8 0xa1 0xff ∷ [])
  pub mapped : vmm_map_mmio hhdm (base_page s * 2 ^ 12) 1 s.vmm ≡ done s'.vmm
  pub spurious : s'.regs (spi_address hhdm s) ≡ bit_or (s.regs (spi_address hhdm s)) 0x100
  pub same_regs : (a : ℕ) → spi_address hhdm s ≢ a → s'.regs a ≡ s.regs a

-- Where the base register has 64 bits and the page of the registers can be mapped, `lapicInit` enables the
-- controller at its page, masks the old controllers, adds one bit to the spurious vector register and
-- changes no other register.
pub lapic_init-Enabled :
    (hhdm : ℕ) (s : Lapic) (vmm : Vmm)
    → rdmsr ia32_apic_base_msr s.msrs < 2 ^ 64
    → vmm_map_mmio hhdm (base_page s * 2 ^ 12) 1 s.vmm ≡ done vmm
    → (s' : Lapic) × (lapic_init hhdm s ≡ done s') × Enabled hhdm s s'
unfolding lapic_init lapic_get_base lapic_set_base lapic_write_reg lapic_read_reg
lapic_init-Enabled hhdm s vmm h run =
    let page : ℕ = base_page s * 2 ^ 12 in
    let base : bit_and (rdmsr ia32_apic_base_msr s.msrs) (not64 0xfff) ≡ page =
      page_of (rdmsr ia32_apic_base_msr s.msrs) h in
    let with_bit : bit_or page 0x800 ≡ page + 0x800 =
      bit_or_disjoint 12 (base_page s) 0x800 (omega arith) in
    let (reads, others) = rdmsr-wrmsr ia32_apic_base_msr (page + 0x800) s.msrs (omega (arith, h)) in
    let again : bit_and (rdmsr ia32_apic_base_msr (wrmsr ia32_apic_base_msr (page + 0x800) s.msrs))
          (not64 0xfff)
        ≡ page =
      rw reads (page_of (page + 0x800) (omega (arith, h)) ∙ omega arith) in
    let spi = spi_address hhdm s in
    (
      record {
        msrs = wrmsr ia32_apic_base_msr (page + 0x800) s.msrs;
        regs = λ a. if spi == a then bit_or (s.regs spi) 0x100 else s.regs a;
        vmm = vmm;
        outputs = s.outputs ++ (out8 0x21 0xff ∷ out8 0xa1 0xff ∷ []);
      },
      rw (base, run, with_bit, again),
      record {
        base = reads;
        others = others;
        masked = refl;
        mapped = run;
        spurious = rw (eq→== spi spi refl);
        same_regs = λ a ne. rw (ne→== spi a ne);
      },
    )

-- With the page tables between two calls as a tree, `lapicInit` enables the controller and maps the page of
-- its registers, uncached, and no other page; or fewer than three pages are free and it panics.
pub lapic_init-Becomes :
    (hhdm : ℕ) (s : Lapic)
    → rdmsr ia32_apic_base_msr s.msrs < 2 ^ 64
    → IsSpace hhdm s.vmm
    → ((s' : Lapic) × (lapic_init hhdm s ≡ done s')
        × Enabled hhdm s s'
        × Becomes hhdm s.vmm 3 (with_device hhdm (base_page s * 2 ^ 12) (lookup hhdm s.vmm)) s'.vmm)
      ⊎ ((lapic_init hhdm s ≡ panic) × Exhausted s.vmm.pmm 3)
unfolding lapic_init lapic_get_base
lapic_init-Becomes hhdm s h space =
    let page : ℕ = base_page s * 2 ^ 12 in
    let base : bit_and (rdmsr ia32_apic_base_msr s.msrs) (not64 0xfff) ≡ page =
      page_of (rdmsr ia32_apic_base_msr s.msrs) h in
    elim (vmm_map_mmio-Becomes hhdm page s.vmm space) [
      | inl (vmm, run, b) ↦
          let (s', returns, e) = lapic_init-Enabled hhdm s vmm h run in
          let same : vmm ≡ s'.vmm = cc (run, e.mapped) in inl (s', returns, e, rw same at b)
      | inr (stop, none_left) ↦ inr (rw (base, stop), none_left)
    ]
