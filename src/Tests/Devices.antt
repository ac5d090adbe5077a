-- ===== src/Tests/Devices.antt =====
-- Descriptor tables, interrupts, buses and disks at small inputs.
use spctrx.Common.{
  ℕ, ◌/◌, ◌%◌, ◌^◌, ◌<◌, ◌≤◌, ◌≡◌, ◌⊎◌, refl, true, false, List, [], ◌∷◌, Option, none, some, done,
  hang, arith, replicate, length-replicate, bit_or,
}
use spctrx.Common.Words.{u64_join}
use spctrx.Spinlock.Threads.{
  System, spinning, inside, initial, move, call, enter, Reach, start, next, Reach-mutual_exclusion,
}
use spctrx.Cpu.Idt.{IdtEntry}
use spctrx.Irq
use spctrx.Irq.{
  irq_init, isr_handler, alloc_vectors, Given, irq_init-irq_alloc_vector, Irq, irq_handlers,
  irq_alloc_vector, irq_install, isr_handler, taken, Fresh, irq_alloc_vector-Fresh,
  isr_handler-irq_install,
}
use spctrx.Pci.{Config, Pci}
use spctrx.Ahci.{
  HbaPort, HbaCmdHeader, FisRegHostToDev, HbaMem, Answers, find_free_loop, Slot, Responds, Found,
  ahci_cmd_find_free, ahci_cmd_find_free-Slot,
}
use spctrx.Tests.Tables.{vm}
use spctrx.Slab.{SlabCache}
use spctrx.IoApic.{
  IoApic, IsaOverride, IoApics, io_apic_parse_madt, parse_loop, Entry, encode, AllFit, take_all,
  io_apic_parse_madt-encode, parse_loop-hang,
}

-- Processor 1 calls and enters.
abbrev entered : System
entered = record { held = true; place = move (move initial.place 1 spinning) 1 inside }

entered-Reach : Reach entered
entered-Reach = next (next start (call 1 refl)) (enter 1 refl refl)

Reach-mutual_exclusion_example :
    ((i j : ℕ) → entered.place i ≡ inside → entered.place j ≡ inside → i ≡ j)
    × ((i : ℕ) → entered.place i ≡ inside → true ≡ true)
Reach-mutual_exclusion_example = Reach-mutual_exclusion entered-Reach

abbrev pub blank : IdtEntry
blank = record {
  offset_low = 0;
  selector = 0;
  ist = 0;
  attributes = 0;
  offset_mid = 0;
  offset_high = 0;
  reserved = 0;
}

-- No vector is taken.
abbrev pub idle : Irq
idle = record {
  handlers = replicate irq_handlers none;
  bitmap = record { bits = 224; data_size = 32; words = 0 ∷ 0 ∷ 0 ∷ 0 ∷ [] };
}

pub idle-IsValid : Irq.IsValid idle
idle-IsValid = record {
  bitmap = record { covers = omega arith; sized = refl };
  bits = refl;
  table = length-replicate {A = Option ℕ} irq_handlers none;
}

irq_alloc_vector-Fresh_example :
    (v : ℕ) × (s' : Irq) × (irq_alloc_vector idle ≡ done (v, s'))
    × Irq.IsValid s'
    × (Fresh idle v s' ⊎ ((v ≡ 32) × ((w : ℕ) → 32 ≤ w → w < 256 → taken idle w ≡ true)))
irq_alloc_vector-Fresh_example = irq_alloc_vector-Fresh idle idle-IsValid

-- Every register holds the same value: the storage controllers of one vendor.
abbrev config : Config
config address = 0x01060086

-- Two slots, the first one busy.
abbrev pub port : HbaPort
port = record {
  clb = 0x1000;
  clb_up = 0;
  fb = 0;
  fb_up = 0;
  is = 0;
  ie = 0;
  cmd = 0;
  tfd = 0;
  sign = 0x101;
  ssts = 0x113;
  s_ctrl = 0;
  s_err = 0;
  s_act = 1;
  ci = 0;
  sntf = 0;
  fbs = 0;
}

ahci_cmd_find_free-Slot_example :
    (n : ℕ) × (n ≡ 0x200 / 2 ^ 8 % 2 ^ 4) × Slot (bit_or 1 0) n (ahci_cmd_find_free 0x200 port)
ahci_cmd_find_free-Slot_example = ahci_cmd_find_free-Slot 0x200 port

abbrev header : HbaCmdHeader
header = record {
  cmd_fis_len = 0;
  write = false;
  prdt_len = 8;
  prdbc = 0;
  ctb_addr = 0x2000;
  ctb_addr_up = 0;
}

abbrev blank_fis : FisRegHostToDev
blank_fis = record {
  fis_type = 0;
  port_mult = 0;
  c = 0;
  cmd = 0;
  feature_low = 0;
  lba0 = 0;
  lba1 = 0;
  lba2 = 0;
  device = 0;
  lba3 = 0;
  lba4 = 0;
  lba5 = 0;
  feature_high = 0;
  count_low = 0;
  count_high = 0;
  icc = 0;
  control = 0;
}

abbrev pub hba : HbaMem
hba = record {
  cap = 0x200;
  ports = port ∷ [];
  headers = λ a. header ∷ header ∷ [];
  tables = λ a. record {
    cmd_fis = blank_fis;
    ent = record { db_addr = 0; db_addr_up = 0; dbc = 0; i = 0 };
  };
}

abbrev pub device : Answers
device = record { tfd = λ i. 0; ci = λ i. 0; is = λ i. 0 }

pub device-Responds : Responds device 0 0
device-Responds = record {
  early = λ i h. absurd (omega arith);
  ready = refl;
  bound = omega arith;
  running = λ i h. absurd (omega arith);
  ended = refl;
}

hba-Found : Found 0 hba 0 port 1 0x1000 0x2000 header
unfolding ahci_cmd_find_free find_free_loop u64_join
hba-Found = record {
  has_port = refl;
  has_slot = refl;
  has_list = refl;
  list_there = λ e. omega arith;
  has_header = refl;
  has_table = refl;
  table_there = λ e. omega arith;
}

-- One controller, and the timer on interrupt 2, active low and by level.
abbrev pub apic : IoApic
apic = record { io_addr = 0xfec00000; gsi_start = 0; gsi_end = 24; id = 0 }

abbrev pub timer : IsaOverride
timer = record { bus = 0; isa_source = 0; gsi = 2; flags = 0xf }

abbrev cache : SlabCache
cache = record {
  name = [];
  full = [];
  partial = [];
  empty = [];
  obj_size = 48;
  obj_per_slab = 84;
  lock = false;
}

abbrev pub apics : IoApics
apics = record {
  apics = apic ∷ [];
  overrides = timer ∷ [];
  regs = λ a r. 0;
  vmm = vm;
  apic_cache = cache;
  override_cache = cache;
  slabs = λ slab. record { start = 0; first_free = 0; used_obj = 0 };
  words = λ a. 0;
}

abbrev madt : List Entry
madt = Entry.other 0 (1 ∷ 2 ∷ []) ∷ Entry.apic 0 0 0xfec00000 0 ∷ Entry.override 0 0 2 0xf ∷ []

madt-AllFit : AllFit madt
madt-AllFit = (
  (λ e. omega arith, λ e. omega arith),
  ((omega arith, omega arith), ((omega arith, omega arith), tt)),
)

io_apic_parse_madt-encode_example :
    io_apic_parse_madt 0 (some (encode madt)) apics ≡ take_all 0 madt apics
io_apic_parse_madt-encode_example = io_apic_parse_madt-encode 0 madt apics madt-AllFit

parse_loop-hang_example : parse_loop 9 0 (4 ∷ 0 ∷ []) apics ≡ hang
parse_loop-hang_example = parse_loop-hang 9 0 4 [] apics (λ e. omega arith) (λ e. omega arith)

irq_init-irq_alloc_vector_example :
    (s : Irq) × (s' : Irq) × (irq_init (replicate 4 7) 0x9000 ≡ done s)
    × (isr_handler s 255 ≡ done 0x9000)
    × (alloc_vectors 3 s ≡ done (32 ∷ 33 ∷ 34 ∷ [], s'))
    × Given s' 3
irq_init-irq_alloc_vector_example =
    irq_init-irq_alloc_vector 3 (replicate 4 7) 0x9000 (omega arith) (omega arith)
