-- ===== src/Tests/Boot.antt =====
-- The tables, the memory and the controllers as they are started.
use spctrx.Common.{
  length, ℕ, zero, suc, ◌*◌, ◌^◌, ◌<◌, ◌≡◌, refl, false, List, [], ◌∷◌, ◌⊎◌, done, panic, arith,
  replicate, length-replicate, get_or,
}
use spctrx.Cpu.Gdt.{zero_entry}
use spctrx.Cpu.Idt.{IdtEntry, IsrStub, isr_stub}
use spctrx.Cpu.Registers.{Descriptors, Processor, TableRegister, init_tables, gdt_flush, idt_flush}
use spctrx.Cpu.Deliver.{Ready, Delivers, init_tables-deliver}
use spctrx.Pmm.{Exhausted}
use spctrx.Vmm.{with_device, Vmm, lookup, Becomes}
use spctrx.Machine.{rdmsr}
use spctrx.Apic.{
  start_all-AllWait, AllWait, start_all, Lapic, Enabled, base_page, lapic_init, lapic_init-Becomes,
}
use spctrx.Tests.Devices.{blank}
use spctrx.Tests.Mappings.{mapped_vm, mapped_vm-IsSpace}

abbrev stub : IsrStub
stub = record { stubs = replicate 255 0x1000; behind = 0x2000 }

same_words : (n i : ℕ) → get_or (replicate n 0x1000) i 0x2000 < 2 ^ 64
same_words zero i = omega arith
same_words (suc n) zero = omega arith
same_words (suc n) (suc i) = same_words n i

stub_small : (j : ℕ) → isr_stub stub j < 2 ^ 64
stub_small j = same_words 255 j

abbrev unset : TableRegister
unset = record { limit = 0; base = 0 }

abbrev empty_tables : Descriptors
empty_tables = record {
  gdt_at = 0x1000;
  gdt = replicate 6 zero_entry;
  gdtr = unset;
  idt_at = 0x2000;
  idt = replicate 256 blank;
  idtr = unset;
}

abbrev first_processor : Processor
first_processor = record {
  interrupts = false;
  halted = false;
  gdtr = unset;
  idtr = unset;
  code = 0x28;
  data_segments = 0x30;
}

init_tables-deliver_example :
    (d' : Descriptors) × (p' : Processor) × (init_tables stub empty_tables first_processor
      ≡ done (d', p'))
    × Ready stub d'
    × Delivers stub d' p'
    × ((q : Processor) → Delivers stub d' (idt_flush d' (gdt_flush d' q)))
init_tables-deliver_example =
    init_tables-deliver stub empty_tables first_processor refl
      (length-replicate {A = IdtEntry} 256 blank) (length-replicate {A = ℕ} 255 0x1000) stub_small

abbrev bare : Lapic
bare = record {
  msrs = record { low = λ r. 0xfee00900; high = λ r. 0 };
  regs = λ a. 0xff;
  vmm = mapped_vm;
  outputs = [];
}

lapic_init-Becomes_example :
    ((s' : Lapic) × (lapic_init 0 bare ≡ done s')
      × Enabled 0 bare s'
      × Becomes 0 mapped_vm 3 (with_device 0 (base_page bare * 2 ^ 12) (lookup 0 mapped_vm)) s'.vmm)
    ⊎ ((lapic_init 0 bare ≡ panic) × Exhausted mapped_vm.pmm 3)
unfolding rdmsr
lapic_init-Becomes_example = lapic_init-Becomes 0 bare (omega arith) mapped_vm-IsSpace

abbrev booted : Descriptors
booted =
    (init_tables-deliver stub empty_tables first_processor refl
      (length-replicate {A = IdtEntry} 256 blank) (length-replicate {A = ℕ} 255 0x1000)
      stub_small).0

booted-Ready : Ready stub booted
booted-Ready =
    (init_tables-deliver stub empty_tables first_processor refl
      (length-replicate {A = IdtEntry} 256 blank) (length-replicate {A = ℕ} 255 0x1000)
      stub_small).3

-- The controllers are at page 5, which is mapped.
abbrev low_local : Lapic
low_local = record bare { msrs = record { low = λ r. 0x5100; high = λ r. 0 } }

abbrev two : List (Processor × Lapic)
two = (first_processor, low_local) ∷ (first_processor, low_local) ∷ []

start_all-AllWait_example :
    (qs : List (Processor × Lapic)) × (vmm' : Vmm) × (start_all 0 booted two mapped_vm
      ≡ done (qs, vmm'))
    × (length qs ≡ 2)
    × AllWait stub booted 5 qs
    × Becomes 0 mapped_vm 0 (lookup 0 mapped_vm) vmm'
unfolding rdmsr
start_all-AllWait_example =
    start_all-AllWait 0 5 stub booted two mapped_vm booted-Ready (omega arith)
      (omega arith, refl, (omega arith, refl, tt)) mapped_vm-IsSpace refl
