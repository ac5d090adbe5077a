-- ===== src/IoApic/Defs.antt =====
-- The functions of ioapic.c. The registers of each controller are a function of its address and the
-- register's number; the address window that selects a register is not kept apart. The linked lists
-- are lists, front first, and their nodes come from slab caches, of which what is kept is which objects are
-- taken; the messages are left out.
use spctrx.Common.{
  replicate, ℕ, zero, suc, ◌+◌, ◌-◌, ◌*◌, ◌^◌, bit_and, bit_or, ◌&&◌, List, [], ◌∷◌, Option, none,
  some, Outcome, done, panic, hang, ◌>>=◌, from_some, ltb, leb, ◌==◌, if◌then◌else◌, get_elem?,
  drop, length,
}
use spctrx.Slab.{Slab, SlabCache, slab_alloc, slab_init_cache}
use spctrx.Vmm.{Vmm, vmm_phys_to_virt, vmm_map_mmio}
use spctrx.Common.Words.{u8, u32, shr, shl32}

pub record IoApic : Type 0 where
  pub io_addr : ℕ
  pub gsi_start : ℕ
  pub gsi_end : ℕ
  pub id : ℕ

pub record IsaOverride : Type 0 where
  pub bus : ℕ
  pub isa_source : ℕ
  pub gsi : ℕ
  pub flags : ℕ

abbrev pub Registers : Type 0
Registers = ℕ → ℕ → ℕ

-- `ioApics`, `isaOverrides`, the registers and the page tables; `ioApicCache`, `isaOverrideCache`, and
-- the slabs with the words of their objects. The page allocator is that of the page tables.
pub record IoApics : Type 0 where
  pub apics : List IoApic
  pub overrides : List IsaOverride
  pub regs : Registers
  pub vmm : Vmm
  pub apic_cache : SlabCache
  pub override_cache : SlabCache
  pub slabs : ℕ → Slab
  pub words : ℕ → ℕ

-- `slabAlloc` of a node, and the cache after it.
unfoldable pub alloc_node : ℕ → SlabCache → IoApics → Outcome (SlabCache × IoApics)
alloc_node hhdm cache s = do
  let vmm : Vmm = s.vmm
  (node, cache', w) ←
      slab_alloc hhdm cache (record { slabs = s.slabs; words = s.words; pmm = vmm.pmm })
  done (cache', record s { vmm = record vmm { pmm = w.pmm }; slabs = w.slabs; words = w.words })

abbrev pub io_apic_write_reg : Registers → IoApic → ℕ → ℕ → Registers
io_apic_write_reg regs apic reg value a r =
    if a == apic.io_addr && r == reg then value else regs a r

abbrev pub io_apic_read_reg : Registers → ℕ → ℕ → ℕ
io_apic_read_reg regs io_addr reg = regs io_addr reg

-- The address is a physical one, whose page is mapped; `hhdm` is the offset of the direct map.
unfoldable pub io_apic_add : ℕ → ℕ → ℕ → ℕ → IoApics → Outcome IoApics
io_apic_add hhdm id addr base_gsi s₀ = do
  (cache, s) ← alloc_node hhdm s₀.apic_cache s₀
  vmm ← vmm_map_mmio hhdm addr 1 s.vmm
  let io_addr = vmm_phys_to_virt hhdm addr
  let redir_entries = shr (io_apic_read_reg s.regs io_addr 0x01) 16 + 1
  let apic : IoApic = record {
    io_addr = io_addr;
    gsi_start = base_gsi;
    gsi_end = u32 (base_gsi + redir_entries);
    id = id;
  }
  done (record s { apics = apic ∷ s.apics; vmm = vmm; apic_cache = cache })

-- Little-endian reads from the bytes at a pointer; past the end of the table they are invalid.
abbrev pub read8 : List ℕ → ℕ → Outcome ℕ
read8 bytes i = from_some (get_elem? bytes i)

abbrev pub read16 : List ℕ → ℕ → Outcome ℕ
read16 bytes i = do b₀ ← read8 bytes i; b₁ ← read8 bytes (i + 1); done (b₀ + b₁ * 2 ^ 8)

abbrev pub read32 : List ℕ → ℕ → Outcome ℕ
read32 bytes i = do h₀ ← read16 bytes i; h₁ ← read16 bytes (i + 2); done (h₀ + h₁ * 2 ^ 16)

-- The two kinds of entry that are taken.
unfoldable pub parse_apic : ℕ → List ℕ → IoApics → Outcome IoApics
unfolding io_apic_add
parse_apic hhdm bytes s = do
  id ← read8 bytes 2
  addr ← read32 bytes 4
  gsi ← read32 bytes 8
  io_apic_add hhdm id addr gsi s

abbrev pub push_override : SlabCache → IsaOverride → IoApics → IoApics
push_override cache o s = record s { overrides = o ∷ s.overrides; override_cache = cache }

unfoldable pub parse_override : ℕ → List ℕ → IoApics → Outcome IoApics
parse_override hhdm bytes s₀ = do
  (cache, s) ← alloc_node hhdm s₀.override_cache s₀
  bus ← read8 bytes 2
  isa_source ← read8 bytes 3
  gsi ← read32 bytes 4
  flags ← read16 bytes 8
  done (
      push_override cache (record { bus = bus; isa_source = isa_source; gsi = gsi; flags = flags })
        s)

-- One round of the loop, without the step of the pointer.
unfoldable pub parse_entry : ℕ → List ℕ → IoApics → Outcome IoApics
unfolding parse_apic parse_override
parse_entry hhdm bytes s = do
  type ← read8 bytes 0
  if type == 1
      then parse_apic hhdm bytes s
      else if type == 2
      then parse_override hhdm bytes s
      else done s

-- `bytes` is what the table holds from the pointer on.
unfoldable pub parse_loop : ℕ → ℕ → List ℕ → IoApics → Outcome IoApics
unfolding parse_entry
parse_loop zero hhdm bytes s = hang
parse_loop (suc fuel) hhdm [] s = done s
parse_loop (suc fuel) hhdm (b ∷ bytes) s = do
  s' ← parse_entry hhdm (b ∷ bytes) s
  step ← read8 (b ∷ bytes) 1
  parse_loop fuel hhdm (drop step (b ∷ bytes)) s'

-- The entries of the table that `acpiFindTable` has found, if any.
unfoldable pub io_apic_parse_madt : ℕ → Option (List ℕ) → IoApics → Outcome IoApics
unfolding parse_loop
io_apic_parse_madt hhdm none s = panic
io_apic_parse_madt hhdm (some bytes) s = parse_loop (length bytes + 1) hhdm bytes s

-- The names of the caches.
abbrev pub apics_name : List ℕ
apics_name = b'i' ∷ b'o' ∷ b' ' ∷ b'a' ∷ b'p' ∷ b'i' ∷ b'c' ∷ b's' ∷ 0 ∷ []

abbrev pub overrides_name : List ℕ
overrides_name =
    b'i' ∷ b'o' ∷ b' ' ∷ b'a' ∷ b'p' ∷ b'i' ∷ b'c' ∷ b' ' ∷ b'i' ∷ b's' ∷ b'a' ∷ b' ' ∷ b'o' ∷ b'v'
    ∷ b'e' ∷ b'r' ∷ b'r' ∷ b'i' ∷ b'd' ∷ b'e' ∷ b's' ∷ 0 ∷ []

-- `sizeof(IOAPIC)` and `sizeof(ISAOverride)`.
abbrev pub sizeof_io_apic : ℕ
sizeof_io_apic = 40

abbrev pub sizeof_isa_override : ℕ
sizeof_isa_override = 32

-- `slabs` and `words` are what memory holds.
unfoldable pub io_apic_init :
    ℕ → Option (List ℕ) → Registers → (ℕ → Slab) → (ℕ → ℕ) → Vmm → Outcome IoApics
unfolding io_apic_parse_madt
io_apic_init hhdm madt regs slabs words vmm = do
  apic_cache ← slab_init_cache (replicate 65 0) apics_name sizeof_io_apic
  override_cache ← slab_init_cache (replicate 65 0) overrides_name sizeof_isa_override
  io_apic_parse_madt hhdm madt (record {
    apics = [];
    overrides = [];
    regs = regs;
    vmm = vmm;
    apic_cache = apic_cache;
    override_cache = override_cache;
    slabs = slabs;
    words = words;
  })

abbrev pub redir_low : ℕ → ℕ → ℕ → ℕ → ℕ → ℕ → ℕ → ℕ
redir_low vector delivery destination_mode delivery_status polarity trigger mask =
    bit_or
      (bit_or
        (bit_or
          (bit_or
            (bit_or (bit_or (bit_or 0 (u8 vector)) (bit_and delivery 0x3 * 2 ^ 8))
              (bit_and destination_mode 1 * 2 ^ 11))
            (bit_and delivery_status 1 * 2 ^ 12))
          (bit_and polarity 1 * 2 ^ 13))
        (bit_and trigger 1 * 2 ^ 15))
      (bit_and mask 1 * 2 ^ 16)

unfoldable pub io_apic_write_redir_entry :
    Registers → IoApic → ℕ → ℕ → ℕ → ℕ → ℕ → ℕ → ℕ → ℕ → ℕ → Registers
io_apic_write_redir_entry regs apic entry_id vector delivery destination_mode delivery_status
      polarity trigger mask destination =
    let low = redir_low vector delivery destination_mode delivery_status polarity trigger mask in
    let high = bit_or 0 (shl32 destination 24) in
    let pos = 0x10 + 2 * entry_id in
    io_apic_write_reg (io_apic_write_reg regs apic pos low) apic (pos + 1) high

unfoldable pub io_apic_find_for_gsi : List IoApic → ℕ → Option IoApic
io_apic_find_for_gsi [] gsi = none
io_apic_find_for_gsi (a ∷ apics) gsi =
    if leb a.gsi_start gsi && ltb gsi a.gsi_end then some a else io_apic_find_for_gsi apics gsi

-- `ioApicMap` behind the search; an entry is found only where `gsi - gsiStart` is not negative.
unfoldable pub map_at : IoApics → ℕ → ℕ → ℕ → ℕ → Option IoApic → Outcome IoApics
unfolding io_apic_write_redir_entry
map_at s gsi vector polarity trigger none = panic
map_at s gsi vector polarity trigger (some apic) = done (record s {
  regs =
      io_apic_write_redir_entry s.regs apic (u32 (gsi + 2 ^ 32 - apic.gsi_start)) vector 0 0 0
        (u8 polarity) (u8 trigger) 0 0;
})

unfoldable pub io_apic_map : IoApics → ℕ → ℕ → ℕ → ℕ → Outcome IoApics
unfolding map_at io_apic_find_for_gsi
io_apic_map s gsi vector polarity trigger =
    map_at s gsi vector polarity trigger (io_apic_find_for_gsi s.apics gsi)

-- The loop of `ioApicMapISA`, with what follows it.
unfoldable pub map_isa_loop : IoApics → List IsaOverride → ℕ → ℕ → Outcome IoApics
unfolding io_apic_map
map_isa_loop s [] isa vector = io_apic_map s isa vector 0 0
map_isa_loop s (o ∷ os) isa vector =
    if o.isa_source == isa
    then io_apic_map s o.gsi vector (bit_and o.flags 0x3) (bit_and (shr o.flags 2) 0x3)
    else map_isa_loop s os isa vector

unfoldable pub io_apic_map_isa : IoApics → ℕ → ℕ → Outcome IoApics
unfolding map_isa_loop
io_apic_map_isa s isa vector = map_isa_loop s s.overrides isa vector
