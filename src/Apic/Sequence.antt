-- ===== src/Apic/Sequence.antt =====
-- All further processors, one after another, over the page tables that they share.
use spctrx.Common.{
  ℕ, suc, ◌+◌, ◌*◌, ◌^◌, ◌<◌, ◌≡◌, refl, sym, ap, ◌∙◌, inl, inr, List, [], ◌∷◌, Outcome, done,
  ◌>>=◌, arith, length, ◌==◌, Bool-cases,
}
use spctrx.Machine.{rdmsr}
use spctrx.Cpu.Idt.{IsrStub}
use spctrx.Cpu.Registers.{Descriptors, Processor, disable_ints, halt, gdt_flush, idt_flush}
use spctrx.Cpu.Deliver.{Ready, Ready-Delivers}
use spctrx.Vmm.{
  path_of, p1_index, Vmm, IsSpace, Becomes, Becomes-none, Becomes-then, lookup, page_number,
  same_page, with_device, vmm_phys_to_virt, vmm_map_mmio-mapped, vmm_map_mmio, path_of, p1_index,
  pte, pte-fields, mmio_flags, leaf,
}
use spctrx.Apic.Defs.{Lapic, mp_entry, ia32_apic_base_msr}
use spctrx.Apic.Laws.{base_page, lapic_init-Enabled}
use spctrx.Apic.Processors.{Waits}

-- Each processor has its own registers; the page tables go from one to the next.
abbrev pub start_all :
    ℕ → Descriptors → List (Processor × Lapic) → Vmm → Outcome (List (Processor × Lapic) × Vmm)
start_all hhdm d [] vmm = done ([], vmm)
start_all hhdm d (p ∷ ps) vmm = do
  (p', s') ← mp_entry hhdm d p.0 (let s : Lapic = p.1 in record s { vmm = vmm })
  (qs, vmm') ← start_all hhdm d ps s'.vmm
  done ((p', s') ∷ qs, vmm')

-- The registers of each local controller are at the same page.
abbrev pub AllAt : ℕ → List (Processor × Lapic) → Type 0
AllAt page [] = Unit
AllAt page (p ∷ ps) =
    (rdmsr ia32_apic_base_msr p.1.msrs < 2 ^ 64) × (base_page p.1 ≡ page) × AllAt page ps

abbrev pub AllWait : IsrStub → Descriptors → ℕ → List (Processor × Lapic) → Type 0
AllWait stub d page [] = Unit
AllWait stub d page (p ∷ ps) =
    Waits stub d p.0
    × (rdmsr ia32_apic_base_msr p.1.msrs ≡ page * 2 ^ 12 + 0x800)
    × AllWait stub d page ps

-- To map a device's page again changes no mapping.
mapped_again :
    (hhdm addr : ℕ) (s : Vmm)
    → lookup hhdm s (vmm_phys_to_virt hhdm addr) ≡ pte addr mmio_flags
    → (v : ℕ) → with_device hhdm addr (lookup hhdm s) v ≡ lookup hhdm s v
mapped_again hhdm addr s e v =
    elim (Bool-cases (page_number v == page_number (vmm_phys_to_virt hhdm addr))) [
      | inl same ↦
          let (path, index) = same_page v (vmm_phys_to_virt hhdm addr) (ground arith) in
          let alike : lookup hhdm s v ≡ lookup hhdm s (vmm_phys_to_virt hhdm addr) =
            ap (λ q. leaf hhdm s.tables s.p4 q (p1_index v)) path
            ∙ ap (leaf hhdm s.tables s.p4 (path_of (vmm_phys_to_virt hhdm addr))) index in
          rw same (sym (alike ∙ e))
      | inr other ↦ rw other
    ]

same_map :
    (hhdm base page : ℕ) (s s' : Vmm)
    → base ≡ page
    → vmm_map_mmio hhdm (page * 2 ^ 12) 1 s ≡ done s'
    → vmm_map_mmio hhdm (base * 2 ^ 12) 1 s ≡ done s'
same_map hhdm base page s s' e run = rw e run

one_more :
    (hhdm page : ℕ) (stub : IsrStub) (d : Descriptors) (p : Processor) (s : Lapic)
    → Ready stub d
    → page < 2 ^ 50
    → rdmsr ia32_apic_base_msr s.msrs < 2 ^ 64
    → base_page s ≡ page
    → IsSpace hhdm s.vmm
    → lookup hhdm s.vmm (vmm_phys_to_virt hhdm (page * 2 ^ 12)) ≡ pte (page * 2 ^ 12) mmio_flags
    → (p' : Processor) × (s' : Lapic) × (mp_entry hhdm d p s ≡ done (p', s'))
      × Waits stub d p'
      × (rdmsr ia32_apic_base_msr s'.msrs ≡ page * 2 ^ 12 + 0x800)
      × Becomes hhdm s.vmm 0 (lookup hhdm s.vmm) s'.vmm
unfolding mp_entry
one_more hhdm page stub d p s ready small h at space mapped =
    let addr : ℕ = page * 2 ^ 12 in
    let (frame, present) = pte-fields addr mmio_flags (omega arith) (omega arith) (omega arith) in
    let (vmm, run, b) = vmm_map_mmio-mapped hhdm addr s.vmm space (λ e. present (sym mapped ∙ e)) in
    let run' : vmm_map_mmio hhdm (base_page s * 2 ^ 12) 1 s.vmm ≡ done vmm =
      same_map hhdm (base_page s) page s.vmm vmm at run in
    let (s', returns, e) = lapic_init-Enabled hhdm s vmm h run' in
    let same : vmm ≡ s'.vmm = cc (run', e.mapped) in
    let kept : Becomes hhdm s.vmm 0 (lookup hhdm s.vmm) vmm =
      Becomes-then hhdm 0 0 0 (lookup hhdm s.vmm) (with_device hhdm addr (lookup hhdm s.vmm))
        (lookup hhdm s.vmm) s.vmm s.vmm vmm (Becomes-none hhdm s.vmm space (λ v. refl)) b
        (mapped_again hhdm addr s.vmm mapped) (omega arith) in
    let p' = halt (idt_flush d (gdt_flush d (disable_ints p))) in
    (
      p',
      s',
      rw returns,
      record {
        halted = refl;
        disabled = refl;
        delivers =
            Ready-Delivers stub d p' ready
              (record { same_gdtr = refl; same_idtr = refl; kernel_code = refl });
      },
      e.base ∙ ap (λ (n : ℕ). n * 2 ^ 12 + 0x800) at,
      rw same at kept,
    )

-- With the tables of the first processor, the page of the local controllers mapped as it leaves it, and all
-- further processors' controllers at that page, they all start, one after another: each halts with
-- interrupts disabled, would deliver each vector below 255 to its stub, and has its controller enabled.
-- No page is taken and no mapping changes.
pub start_all-AllWait :
    (hhdm page : ℕ) (stub : IsrStub) (d : Descriptors) (ps : List (Processor × Lapic)) (vmm : Vmm)
    → Ready stub d
    → page < 2 ^ 50
    → AllAt page ps
    → IsSpace hhdm vmm
    → lookup hhdm vmm (vmm_phys_to_virt hhdm (page * 2 ^ 12)) ≡ pte (page * 2 ^ 12) mmio_flags
    → (qs : List (Processor × Lapic)) × (vmm' : Vmm) × (start_all hhdm d ps vmm ≡ done (qs, vmm'))
      × (length qs ≡ length ps)
      × AllWait stub d page qs
      × Becomes hhdm vmm 0 (lookup hhdm vmm) vmm'
start_all-AllWait hhdm page stub d [] vmm ready small at space mapped =
    ([], vmm, refl, refl, tt, Becomes-none hhdm vmm space (λ v. refl))
start_all-AllWait hhdm page stub d (p ∷ ps) vmm ready small (h, at, rest) space mapped =
    let (p', s', run, waits, base, b) =
      one_more hhdm page stub d p.0 (let s : Lapic = p.1 in record s { vmm = vmm }) ready small h at
        space mapped in
    let (qs, vmm', runs, len, all, bs) =
      start_all-AllWait hhdm page stub d ps s'.vmm ready small rest b.space
        (b.lookups _ ∙ mapped) in
    (
      (p', s') ∷ qs,
      vmm',
      rw (run, runs),
      ap suc len,
      (waits, base, all),
      Becomes-then hhdm 0 0 0 (lookup hhdm vmm) (lookup hhdm s'.vmm) (lookup hhdm vmm) vmm s'.vmm
          vmm' b bs b.lookups (omega arith),
    )
