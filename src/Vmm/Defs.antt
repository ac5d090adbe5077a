-- ===== src/Vmm/Defs.antt =====
-- The functions of vmm.c. A table is known by its virtual address, and an entry by its table and index.
-- `hhdm` is the offset that `getHHDM` returns.
use spctrx.Common.{
  ℕ, zero, suc, ◌+◌, ◌-◌, ◌*◌, ◌%◌, ◌^◌, bit_and, bit_or, Bool, true, false, ◌&&◌, not, Outcome,
  done, fault, ◌>>=◌, ◌>>◌, assert, ltb, leb, ◌==◌, if◌then◌else◌,
}
use spctrx.Common.Words.{u64, shr, page_size}
use spctrx.Spinlock.{Spinlock, spinlock_acquire, spinlock_drop}
use spctrx.Pmm.{Pmm, pmm_alloc}
use spctrx.Vmm.Offset.{vmm_phys_to_virt}

-- PAGE_ADDR_MASK
abbrev pub page_addr_mask : ℕ
page_addr_mask = 2 ^ 62 - 2 ^ 12

-- `P1` to `P4`, and `PTE`.
abbrev pub p1_index : ℕ → ℕ
p1_index addr = bit_and (shr addr 12) 0x1ff

abbrev pub p2_index : ℕ → ℕ
p2_index addr = bit_and (shr addr 21) 0x1ff

abbrev pub p3_index : ℕ → ℕ
p3_index addr = bit_and (shr addr 30) 0x1ff

abbrev pub p4_index : ℕ → ℕ
p4_index addr = bit_and (shr addr 39) 0x1ff

abbrev pub pte : ℕ → ℕ → ℕ
pte frame flags = bit_or (bit_and frame page_addr_mask) (bit_or flags 1)

abbrev pub Tables : Type 0
Tables = ℕ → ℕ → ℕ

-- `p4`, all tables, `walkSpinlock`, and the page allocator.
pub record Vmm : Type 0 where
  pub p4 : ℕ
  pub tables : Tables
  pub lock : Spinlock
  pub pmm : Pmm

abbrev pub set_entry : Tables → ℕ → ℕ → ℕ → Tables
set_entry tables t i v u j = if t == u && i == j then v else tables u j

-- `pmmZeroAlloc`; what it clears is seen as tables.
unfoldable pub pmm_zero_alloc : ℕ → Vmm → ℕ → Outcome (ℕ × Vmm)
pmm_zero_alloc hhdm s pages = do
  assert (ltb 0 pages)
  (addr, pmm) ← pmm_alloc s.pmm pages
  let virt = vmm_phys_to_virt hhdm addr
  assert (not (virt == 0))
  done (
    addr,
    record s {
      tables = λ t i. if leb virt t && ltb t (virt + pages * page_size) then 0 else s.tables t i;
      pmm = pmm;
    },
  )

abbrev pub vmm_get_page_table : ℕ → ℕ → ℕ
vmm_get_page_table hhdm ent =
    if ent == 0 then 0 else vmm_phys_to_virt hhdm (bit_and ent page_addr_mask)

-- One level of the walk: a new table where there is none and one is wanted, then the next table. The
-- table itself must not be null.
unfoldable pub walk_level : ℕ → Bool → ℕ → ℕ → ℕ → Vmm → Outcome (ℕ × Vmm)
unfolding pmm_zero_alloc
walk_level hhdm allocate flags table i s =
    if table == 0
    then fault
    else if allocate && s.tables table i == 0
    then (do
      (page, s') ← pmm_zero_alloc hhdm s 1
      let tables = set_entry s'.tables table i (pte page flags)
      done (vmm_get_page_table hhdm (tables table i), record s' { tables = tables }))
    else done (vmm_get_page_table hhdm (s.tables table i), s)

unfoldable pub vmm_walk : ℕ → ℕ → Bool → ℕ → Vmm → Outcome (ℕ × Vmm)
unfolding walk_level
vmm_walk hhdm virt allocate flags s = do
  lock ← spinlock_acquire s.lock
  (p3, s₁) ← walk_level hhdm allocate flags s.p4 (p4_index virt) (record s { lock = lock })
  (p2, s₂) ← walk_level hhdm allocate flags p3 (p3_index virt) s₁
  (p1, s₃) ← walk_level hhdm allocate flags p2 (p2_index virt) s₂
  done (p1, record s₃ { lock = spinlock_drop s₃.lock })

unfoldable pub vmm_map : ℕ → ℕ → ℕ → ℕ → Vmm → Outcome Vmm
unfolding vmm_walk
vmm_map hhdm virt phys flags s = do
  (p1, s') ← vmm_walk hhdm virt true flags s
  if p1 == 0
      then fault
      else done (record s' { tables = set_entry s'.tables p1 (p1_index virt) (pte phys flags) })

-- `while (n--)`.
unfoldable pub vmm_map_pages : ℕ → ℕ → ℕ → ℕ → ℕ → Vmm → Outcome Vmm
unfolding vmm_map
vmm_map_pages zero hhdm virt phys flags s = done s
vmm_map_pages (suc n) hhdm virt phys flags s =
    vmm_map hhdm virt phys flags s
    >>= vmm_map_pages n hhdm (u64 (virt + page_size)) (u64 (phys + page_size)) flags

unfoldable pub vmm_unmap : ℕ → ℕ → Vmm → Outcome Vmm
unfolding vmm_walk
vmm_unmap hhdm virt s = do
  (p1, s') ← vmm_walk hhdm virt false 0 s
  if p1 == 0
      then done s'
      else done (record s' { tables = set_entry s'.tables p1 (p1_index virt) 0 })

unfoldable pub vmm_unmap_pages : ℕ → ℕ → ℕ → Vmm → Outcome Vmm
unfolding vmm_unmap
vmm_unmap_pages zero hhdm virt s = done s
vmm_unmap_pages (suc n) hhdm virt s =
    vmm_unmap hhdm virt s >>= vmm_unmap_pages n hhdm (u64 (virt + page_size))

-- PTE_WRITABLE | PTE_NOT_CACHEABLE
abbrev pub mmio_flags : ℕ
mmio_flags = 0x12

-- The number of pages goes through an `int` of 32 bits, of which the loop makes as many rounds.
abbrev pub vmm_map_mmio : ℕ → ℕ → ℕ → Vmm → Outcome Vmm
vmm_map_mmio hhdm addr pages s =
    vmm_map_pages (pages % 2 ^ 32) hhdm (vmm_phys_to_virt hhdm addr) addr mmio_flags s

abbrev pub vmm_unmap_mmio : ℕ → ℕ → ℕ → Vmm → Outcome Vmm
vmm_unmap_mmio hhdm addr pages s =
    vmm_unmap_pages (pages % 2 ^ 32) hhdm (vmm_phys_to_virt hhdm addr) s

abbrev pub vmm_alloc : ℕ → ℕ → Vmm → Outcome (ℕ × Vmm)
vmm_alloc hhdm pages s = pmm_alloc s.pmm pages >>= λ r.
    done (vmm_phys_to_virt hhdm r.0, (let v : Vmm = s in record v { pmm = r.1 }))

-- `cr3` is the root that the boot loader has left in the register; it is loaded again.
abbrev pub vmm_init : ℕ → ℕ → Vmm → Vmm
vmm_init hhdm cr3 s = record s { p4 = vmm_phys_to_virt hhdm cr3 }
