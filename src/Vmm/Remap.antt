-- ===== src/Vmm/Remap.antt =====
-- `vmmMap` of an address that is mapped already.
use spctrx.Common.{ℕ, ◌≡◌, ◌≢◌, true, false, [], ◌∷◌, done, ne→==}
use spctrx.Vmm.Offset.{vmm_phys_to_virt}
use spctrx.Vmm.Defs.{
  Vmm, vmm_get_page_table, walk_level, vmm_walk, vmm_map, vmm_map_pages, vmm_map_mmio, mmio_flags,
  pte, set_entry, p1_index, p2_index, p3_index, p4_index,
}
use spctrx.Vmm.Tree.{step, step-zero, reach}
use spctrx.Vmm.Descent.{path_of, IsSpace}
use spctrx.Vmm.Lookup.{lookup, Becomes}
use spctrx.Vmm.Mappings.{with_entry}
use spctrx.Vmm.Unmap.{found-Becomes}
use spctrx.Vmm.Ranges.{with_device}

empty_entry : (hhdm ent : ℕ) → ent ≡ 0 → vmm_get_page_table hhdm ent ≡ 0
empty_entry hhdm ent e = rw e

-- A level whose next table is there allocates nothing.
level_present :
    (hhdm flags t i : ℕ) (s : Vmm)
    → t ≢ 0
    → step hhdm s.tables t i ≢ 0
    → walk_level hhdm true flags t i s ≡ done (step hhdm s.tables t i, s)
unfolding walk_level
level_present hhdm flags t i s there next =
    let some_table = ne→== t 0 there in
    let behind : vmm_get_page_table hhdm (s.tables t i) ≢ 0 = rw some_table at next in
    let present = ne→== (s.tables t i) 0 (λ e. behind (empty_entry hhdm (s.tables t i) e)) in
    rw (some_table, present)

module _ (hhdm virt : ℕ) (s : Vmm) (space : IsSpace hhdm s) where
  walk_present :
      (flags : ℕ)
      → reach hhdm s.tables s.p4 (path_of virt) ≢ 0
      → vmm_walk hhdm virt true flags s
        ≡ done (reach hhdm s.tables s.p4 (path_of virt), record s { lock = false })
  unfolding vmm_walk
  walk_present flags there =
      let locked : Vmm = record s { lock = true } in
      let t₃ = reach hhdm s.tables s.p4 (p4_index virt ∷ []) in
      let t₂ = reach hhdm s.tables s.p4 (p3_index virt ∷ p4_index virt ∷ []) in
      let there₂ : t₂ ≢ 0 = λ e. there (step-zero hhdm s.tables t₂ (p2_index virt) e) in
      let there₃ : t₃ ≢ 0 = λ e. there₂ (step-zero hhdm s.tables t₃ (p3_index virt) e) in
      rw (
        space.free,
        level_present hhdm flags s.p4 (p4_index virt) locked space.tree.has_root there₃,
        level_present hhdm flags t₃ (p3_index virt) locked there₃ there₂,
        level_present hhdm flags t₂ (p2_index virt) locked there₂ there,
      )

  no_lookup : reach hhdm s.tables s.p4 (path_of virt) ≡ 0 → lookup hhdm s virt ≡ 0
  no_lookup e = rw e

  pub vmm_map-mapped :
      (phys flags : ℕ)
      → lookup hhdm s virt ≢ 0
      → (s' : Vmm) × (vmm_map hhdm virt phys flags s ≡ done s')
        × Becomes hhdm s 0 (with_entry virt (pte phys flags) (lookup hhdm s)) s'
  unfolding vmm_map
  vmm_map-mapped phys flags mapped =
      let t = reach hhdm s.tables s.p4 (path_of virt) in
      let there : t ≢ 0 = λ e. mapped (no_lookup e) in
      (
        record s { tables = set_entry s.tables t (p1_index virt) (pte phys flags); lock = false },
        rw (walk_present flags there, ne→== t 0 there),
        found-Becomes hhdm virt s space (pte phys flags) there,
      )

-- `vmmMapMMIO` of one page whose address is mapped takes no page and cannot panic.
pub vmm_map_mmio-mapped :
    (hhdm addr : ℕ) (s : Vmm)
    → IsSpace hhdm s
    → lookup hhdm s (vmm_phys_to_virt hhdm addr) ≢ 0
    → (s' : Vmm) × (vmm_map_mmio hhdm addr 1 s ≡ done s')
      × Becomes hhdm s 0 (with_device hhdm addr (lookup hhdm s)) s'
unfolding vmm_map_pages
vmm_map_mmio-mapped hhdm addr s space mapped =
    let (s', run, b) =
      vmm_map-mapped hhdm (vmm_phys_to_virt hhdm addr) s space addr mmio_flags mapped in
    (s', rw run, b)
