-- ===== src/Vmm/Translate.antt =====
-- What the processor makes of the tables, and what a mapping changes in it.
use spctrx.Common.{
  ℕ, ◌+◌, ◌*◌, ◌/◌, ◌%◌, ◌^◌, ◌<◌, ◌≡◌, ◌≢◌, refl, ap, sym, ◌∙◌, ◌⊎◌, inl, inr, bit_and, bit_or,
  Bool, true, false, ◌&&◌, done, fault, arith, ◌==◌, ne→==, eq→==, Bool-cases,
}
use spctrx.Common.Words.{page_size}
use spctrx.Common.Bits.{bit_or_disjoint, bit_and_high, bit_or_step, bit_or-zero}
use spctrx.Vmm.Defs.{
  Vmm, Tables, page_addr_mask, p1_index, p2_index, p3_index, p4_index, pte, set_entry,
  vmm_get_page_table, walk_level, vmm_walk, vmm_map, vmm_unmap,
}

-- An entry of a page holds the page's address above bit 12, and is present.
pub pte-fields :
    (frame flags : ℕ)
    → frame < 2 ^ 62
    → frame % page_size ≡ 0
    → flags < 2 ^ 12
    → (bit_and (pte frame flags) page_addr_mask ≡ frame) × (pte frame flags ≢ 0)
pte-fields frame flags h aligned hf =
    let low : bit_or flags 1 ≡ flags / 2 * 2 + 1 =
      omega (arith, bit_or_step flags 1, bit_or-zero (flags / 2)) in
    let high : bit_and frame page_addr_mask ≡ frame / 2 ^ 12 * 2 ^ 12 =
      bit_and_high 62 12 frame (omega arith) h in
    let whole : pte frame flags ≡ frame + (flags / 2 * 2 + 1) =
      rw (high, low)
        (bit_or_disjoint 12 (frame / 2 ^ 12) (flags / 2 * 2 + 1) (omega arith) ∙ omega arith) in
    let back : bit_and (frame + (flags / 2 * 2 + 1)) page_addr_mask ≡ frame =
      bit_and_high 62 12 (frame + (flags / 2 * 2 + 1)) (omega arith) (omega arith) ∙ omega arith in
    (ap (λ (e : ℕ). bit_and e page_addr_mask) whole ∙ back, λ z. omega (arith, whole))

-- The tables of the four levels that an address goes through, none of them missing.
pub record Levels (hhdm virt : ℕ) (s : Vmm) (t₃ t₂ t₁ : ℕ) : Type 0 where
  pub third : vmm_get_page_table hhdm (s.tables s.p4 (p4_index virt)) ≡ t₃
  pub second : vmm_get_page_table hhdm (s.tables t₃ (p3_index virt)) ≡ t₂
  pub last : vmm_get_page_table hhdm (s.tables t₂ (p2_index virt)) ≡ t₁
  pub there₄ : s.p4 ≢ 0
  pub there₃ : t₃ ≢ 0
  pub there₂ : t₂ ≢ 0
  pub there₁ : t₁ ≢ 0

-- An entry whose table is there is not zero.
entry_there : (hhdm ent t : ℕ) → vmm_get_page_table hhdm ent ≡ t → t ≢ 0 → ent ≢ 0
entry_there hhdm ent t e ne z = ne (sym (rw (eq→== ent 0 z) at e))

walk-Levels :
    (hhdm virt flags : ℕ) (allocate : Bool) (s : Vmm) (t₃ t₂ t₁ : ℕ)
    → s.lock ≡ false
    → Levels hhdm virt s t₃ t₂ t₁
    → vmm_walk hhdm virt allocate flags s ≡ done (t₁, record s { lock = false })
unfolding vmm_walk walk_level
walk-Levels hhdm virt flags allocate s t₃ t₂ t₁ free l =
    let e₄ = ne→== (s.tables s.p4 (p4_index virt)) 0 (entry_there hhdm _ t₃ l.third l.there₃) in
    let e₃ = ne→== (s.tables t₃ (p3_index virt)) 0 (entry_there hhdm _ t₂ l.second l.there₂) in
    let e₂ = ne→== (s.tables t₂ (p2_index virt)) 0 (entry_there hhdm _ t₁ l.last l.there₁) in
    let f₄ : (allocate && s.tables s.p4 (p4_index virt) == 0) ≡ false = ground arith in
    let f₃ : (allocate && s.tables t₃ (p3_index virt) == 0) ≡ false = ground arith in
    let f₂ : (allocate && s.tables t₂ (p2_index virt) == 0) ≡ false = ground arith in
    rw (
      free,
      ne→== s.p4 0 l.there₄,
      f₄,
      l.third,
      ne→== t₃ 0 l.there₃,
      f₃,
      l.second,
      ne→== t₂ 0 l.there₂,
      f₂,
      l.last,
    )

-- What a mapping leaves: the address goes through the same tables to the page, and no other entry has
-- changed.
pub record Mapped (hhdm virt phys : ℕ) (s : Vmm) (t₃ t₂ t₁ : ℕ) (s' : Vmm) : Type 0 where
  pub levels : Levels hhdm virt s' t₃ t₂ t₁
  pub frame : bit_and (s'.tables t₁ (p1_index virt)) page_addr_mask ≡ phys
  pub others : (t i : ℕ) → (t₁ ≢ t) ⊎ (p1_index virt ≢ i) → s'.tables t i ≡ s.tables t i
  pub unlocked : s'.lock ≡ false

set_entry_ne :
    (tables : Tables) (t i v u j : ℕ) → (t ≢ u) ⊎ (i ≢ j) → set_entry tables t i v u j ≡ tables u j
set_entry_ne tables t i v u j o = ground arith

-- Where the lock is free, the tables for an address are there and its last one is none of the
-- others, `vmmMap` of a page below 2^62, with flags of 12 bits, returns; the address then leads to
-- the page, and no other entry changes.
pub vmm_map-Mapped :
    (hhdm virt phys flags : ℕ) (s : Vmm) (t₃ t₂ t₁ : ℕ)
    → s.lock ≡ false
    → Levels hhdm virt s t₃ t₂ t₁
    → (t₁ ≢ s.p4) × (t₁ ≢ t₃) × (t₁ ≢ t₂)
    → phys < 2 ^ 62
    → phys % page_size ≡ 0
    → flags < 2 ^ 12
    → (s' : Vmm) × (vmm_map hhdm virt phys flags s ≡ done s') × Mapped hhdm virt phys s t₃ t₂ t₁ s'
unfolding vmm_map
vmm_map-Mapped hhdm virt phys flags s t₃ t₂ t₁ free l (ne₄, ne₃, ne₂) small aligned hf =
    let tables' : Tables = set_entry s.tables t₁ (p1_index virt) (pte phys flags) in
    let kept : (t i : ℕ) → (t₁ ≢ t) ⊎ (p1_index virt ≢ i) → tables' t i ≡ s.tables t i =
      set_entry_ne s.tables t₁ (p1_index virt) (pte phys flags) in
    let here : tables' t₁ (p1_index virt) ≡ pte phys flags =
      rw (eq→== t₁ t₁ refl, eq→== (p1_index virt) (p1_index virt) refl) in
    (
      record s { tables = tables'; lock = false },
      rw (walk-Levels hhdm virt flags true s t₃ t₂ t₁ free l, ne→== t₁ 0 l.there₁),
      record {
        levels = record {
          third = ap (vmm_get_page_table hhdm) (kept s.p4 (p4_index virt) (inl ne₄)) ∙ l.third;
          second = ap (vmm_get_page_table hhdm) (kept t₃ (p3_index virt) (inl ne₃)) ∙ l.second;
          last = ap (vmm_get_page_table hhdm) (kept t₂ (p2_index virt) (inl ne₂)) ∙ l.last;
          there₄ = l.there₄;
          there₃ = l.there₃;
          there₂ = l.there₂;
          there₁ = l.there₁;
        };
        frame =
            ap (λ (e : ℕ). bit_and e page_addr_mask) here
            ∙ (pte-fields phys flags small aligned hf).0;
        others = kept;
        unlocked = refl;
      },
    )

-- With the lock free, `vmmUnmap` of an address whose entry in the first table is missing reads
-- through a null table.
pub vmm_unmap-fault :
    (hhdm virt : ℕ) (s : Vmm)
    → s.lock ≡ false
    → s.tables s.p4 (p4_index virt) ≡ 0
    → vmm_unmap hhdm virt s ≡ fault
unfolding vmm_unmap vmm_walk walk_level
vmm_unmap-fault hhdm virt s free missing = elim (Bool-cases (s.p4 == 0)) [
  | inl null ↦ rw (free, null)
  | inr there ↦ rw (free, there, eq→== (s.tables s.p4 (p4_index virt)) 0 missing)
]
