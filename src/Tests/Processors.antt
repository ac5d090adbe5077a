-- ===== src/Tests/Processors.antt =====
-- The console, the local controller, the timer and a panic at small inputs.
use spctrx.Common.{
  get_elem?, ◌⊎◌, fault, some, ◌≤◌, ℕ, zero, suc, ◌+◌, ◌-◌, ◌*◌, ◌/◌, ◌%◌, ◌^◌, ◌<◌, ◌≡◌, refl,
  true, false, List, [], ◌∷◌, done, arith, take, ◌==◌, if◌then◌else◌,
}
use spctrx.Machine.{rdmsr}
use spctrx.Vmm.{Vmm, set_entry, pte, vmm_map_mmio, vmm_map_pages, vmm_map, vmm_walk, walk_level}
use spctrx.Irq.{Irq, isr_handler}
use spctrx.IoApic.{IoApics, here, override, Redirected}
use spctrx.Console.{Console, IsReady, serial_is_empty, put_text, after_text, put_text_lem}
use spctrx.Panic.{
  exceptions, Exception, Regs, regs_lines, panic_isr, Stacktrace, outermost, call, panic_isr-Chain,
}
use spctrx.Cpu.Registers.{Processor}
use spctrx.Apic.{Lapic}
use spctrx.Startup.{test_apic, test_apic-Redirected}
use spctrx.Tests.Devices.{apic, apics, idle, idle-IsValid}
use spctrx.Tests.Tables.{vm}

-- The port is busy for one round each time, and the terminal has started.
abbrev busy_once : ℕ → ℕ
busy_once k = if k == 0 then 0 else 0x20

busy_first : (k : ℕ) → k < 1 → serial_is_empty (busy_once k) ≡ false
busy_first zero h = refl
busy_first (suc k) h = absurd (omega arith)

busy_once-IsReady : IsReady 2 busy_once
busy_once-IsReady = record {
  rounds = 1;
  in_time = omega arith;
  busy_until = busy_first;
  ready = refl;
}

abbrev screen : Console
screen = record { lock = false; outputs = []; initialized = true; shown = [] }

abbrev line : List ℕ
line = b'h' ∷ b'i' ∷ b'\n' ∷ []

line_shown : (after_text screen line).shown ≡ b'h' ∷ b'i' ∷ 13 ∷ b'\n' ∷ []
line_shown = refl

put_text_lem_example : put_text 2 (λ i. busy_once) 0 line screen ≡ done (after_text screen line)
put_text_lem_example = put_text_lem 2 (λ i. busy_once) line screen refl (λ j. busy_once-IsReady)

-- Two frames, the outer one without a caller.
abbrev stack : ℕ → Stacktrace
stack a =
    if a == 0x8000 then record { rbp = 0x8100; rip = 0x1234 } else record { rbp = 0; rip = 0x5678 }

abbrev page_fault_regs : Regs
page_fault_regs = record {
  rdi_ignore = 0;
  r15 = 15;
  r14 = 14;
  r13 = 13;
  r12 = 12;
  r11 = 11;
  r10 = 10;
  r9 = 9;
  r8 = 8;
  rsp = 0x8000;
  rsi = 6;
  rdi = 5;
  rdx = 4;
  rcx = 3;
  rbx = 2;
  rax = 1;
  int_id = 14;
  err_id = 2;
  rip = 0x1200;
  cs = 8;
  r_flags = 2;
  k_rsp = 0x8000;
  ss = 0x10;
}

abbrev running : Processor
running = record {
  interrupts = true;
  halted = false;
  gdtr = record { limit = 47; base = 0x1000 };
  idtr = record { limit = 4095; base = 0x2000 };
  code = 8;
  data_segments = 0x10;
}

panic_isr-Chain_example :
    ((14 < 30)
      × (name : Exception) × (get_elem? exceptions 14 ≡ some (some name))
      × (panic_isr 0x3000000 stack 0x8000 page_fault_regs running
          ≡ done (
            name,
            regs_lines page_fault_regs,
            record { cpu_id = 0x3000000 / 2 ^ 24; trace = take 10 (0x1234 ∷ 0x5678 ∷ []) },
            record running { interrupts = false; halted = true },
          )))
    ⊎ ((30 ≤ 14) × (panic_isr 0x3000000 stack 0x8000 page_fault_regs running ≡ fault))
panic_isr-Chain_example =
    panic_isr-Chain 0x3000000 stack 0x8000 (0x1234 ∷ 0x5678 ∷ []) page_fault_regs running
      (omega arith)
      (call (λ e. omega arith) (λ e. omega arith)
        (call (λ e. omega arith) (λ e. omega arith) outermost))
      (omega arith)

-- The controller is at page 5, and not enabled.
abbrev local : Lapic
local = record {
  msrs = record { low = λ r. 0x5100; high = λ r. 0 };
  regs = λ a. 0xff;
  vmm = vm;
  outputs = [];
}

abbrev mapped : Vmm
mapped = record vm { tables = set_entry vm.tables 0x4000 5 (pte 0x5000 0x12) }

local_base : rdmsr 0x1b local.msrs ≡ 0x5100
unfolding rdmsr
local_base = refl

local_mapped : vmm_map_mmio 0 (rdmsr 0x1b local.msrs / 2 ^ 12 * 2 ^ 12) 1 vm ≡ done mapped
unfolding rdmsr vmm_map_pages vmm_map vmm_walk walk_level
local_mapped = refl

test_apic-Redirected_example :
    (vector : ℕ) × (irq' : Irq) × (apics' : IoApics) × (test_apic 0x4000 idle apics
      ≡ done (vector, irq', apics'))
    × (isr_handler irq' vector ≡ done 0x4000)
    × Redirected apics 0xfec00000 (2 - 0) (vector + 0xf % 2 * 2 ^ 13 + 0xf / 4 % 2 * 2 ^ 15) apics'
test_apic-Redirected_example =
    test_apic-Redirected 0x4000 idle apics 2 0xf apic idle-IsValid (override refl)
      (here (omega arith) (omega arith)) (omega arith)
