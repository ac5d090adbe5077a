-- ===== src/Vmm/Unmap.antt =====
-- `vmmUnmap`, as a change of the mappings.
use spctrx.Common.{
  true, ℕ, ◌≡◌, ◌≢◌, refl, ◌∙◌, ap, false, ◌⊎◌, inl, inr, [], ◌∷◌, done, fault, arith, ◌==◌,
  Bool-cases, ne→==,
}
use spctrx.Vmm.Defs.{
  Vmm, walk_level, vmm_walk, vmm_unmap, p1_index, p2_index, p3_index, p4_index, set_entry,
}
use spctrx.Vmm.Tree.{step, step-zero, reach}
use spctrx.Vmm.Descent.{path_of, IsSpace, Walked}
use spctrx.Vmm.Lookup.{page_number, lookup, Becomes, same_page}
use spctrx.Vmm.Mappings.{with_entry, written-Becomes}

level_reads :
    (hhdm t i : ℕ) (s : Vmm)
    → t ≢ 0
    → walk_level hhdm false 0 t i s ≡ done (step hhdm s.tables t i, s)
unfolding walk_level
level_reads hhdm t i s there = rw (ne→== t 0 there)

level_faults : (hhdm t i : ℕ) (s : Vmm) → t ≡ 0 → walk_level hhdm false 0 t i s ≡ fault
unfolding walk_level
level_faults hhdm t i s e = rw e

-- The table of the second level that the address goes through, 0 where it is missing.
abbrev pub second : ℕ → ℕ → Vmm → ℕ
second hhdm virt s = reach hhdm s.tables s.p4 (p3_index virt ∷ p4_index virt ∷ [])

module _ (hhdm virt : ℕ) (s : Vmm) (space : IsSpace hhdm s) where
  abbrev third : ℕ
  third = reach hhdm s.tables s.p4 (p4_index virt ∷ [])

  abbrev locked : Vmm
  locked = record s { lock = true }

  walk_found :
      second hhdm virt s ≢ 0
      → vmm_walk hhdm virt false 0 s
        ≡ done (reach hhdm s.tables s.p4 (path_of virt), record s { lock = false })
  unfolding vmm_walk
  walk_found there = rw (
    space.free,
    level_reads hhdm s.p4 (p4_index virt) locked space.tree.has_root,
    level_reads hhdm third (p3_index virt) locked (λ e. there (step-zero hhdm s.tables third _ e)),
    level_reads hhdm (second hhdm virt s) (p2_index virt) locked there,
  )

  walk_faults : second hhdm virt s ≡ 0 → vmm_walk hhdm virt false 0 s ≡ fault
  unfolding vmm_walk
  walk_faults none_there = elim (Bool-cases (third == 0)) [
    | inl none_third ↦ rw (
      space.free,
      level_reads hhdm s.p4 (p4_index virt) locked space.tree.has_root,
      level_faults hhdm third (p3_index virt) locked (ground arith),
    )
    | inr some_third ↦ rw (
      space.free,
      level_reads hhdm s.p4 (p4_index virt) locked space.tree.has_root,
      level_reads hhdm third (p3_index virt) locked (λ e. ground arith),
      level_faults hhdm (second hhdm virt s) (p2_index virt) locked none_there,
    )
  ]

  -- A walk that finds a table changes nothing.
  found-Walked :
      reach hhdm s.tables s.p4 (path_of virt) ≢ 0
      → Walked hhdm virt s (reach hhdm s.tables s.p4 (path_of virt)) (record s { lock = false })
  found-Walked there = record {
    space = record { free = refl; tree = space.tree; start = space.start; fits = space.fits };
    same_root = refl;
    at = refl;
    there = there;
    leaves = λ q j hq longer. refl;
    taken = [];
    held = space.start;
    few = omega arith;
  }

  -- A write to the entry of an address whose table is there.
  pub found-Becomes :
      (entry : ℕ)
      → reach hhdm s.tables s.p4 (path_of virt) ≢ 0
      → Becomes hhdm s 0 (with_entry virt entry (lookup hhdm s)) (record s {
        tables = set_entry s.tables (reach hhdm s.tables s.p4 (path_of virt)) (p1_index virt) entry;
        lock = false;
      })
  unfolding found-Walked
  found-Becomes entry there =
      written-Becomes hhdm virt entry (reach hhdm s.tables s.p4 (path_of virt)) 0 s
        (record s { lock = false }) (found-Walked there) (omega arith)

  missing_lookup :
      reach hhdm s.tables s.p4 (path_of virt) ≡ 0
      → (v : ℕ) → lookup hhdm s v ≡ with_entry virt 0 (lookup hhdm s) v
  missing_lookup none_there v = elim (Bool-cases (page_number v == page_number virt)) [
    | inl same ↦
        let (path, index) = same_page v virt (ground arith) in
        let gone = ap (reach hhdm s.tables s.p4) path ∙ none_there in rw (same, gone)
    | inr other ↦ rw other
  ]

  -- Between two calls, `vmmUnmap` takes away the entry of the address' page and keeps every other
  -- page's; where the address has no table of the second level, it reads through a null pointer.
  pub vmm_unmap-Becomes :
      (second hhdm virt s ≢ 0
        × (s' : Vmm) × (vmm_unmap hhdm virt s ≡ done s')
        × Becomes hhdm s 0 (with_entry virt 0 (lookup hhdm s)) s')
      ⊎ ((second hhdm virt s ≡ 0) × (vmm_unmap hhdm virt s ≡ fault))
  unfolding vmm_unmap
  vmm_unmap-Becomes = elim (Bool-cases (second hhdm virt s == 0)) [
    | inl none_there ↦ let e : second hhdm virt s ≡ 0 = ground arith in inr (e, rw (walk_faults e))
    | inr some_second ↦
        let there : second hhdm virt s ≢ 0 = λ e. ground arith in
        elim (Bool-cases (reach hhdm s.tables s.p4 (path_of virt) == 0)) [
          | inl none_last ↦ inl (
            there,
            record s { lock = false },
            rw (walk_found there, none_last),
            record {
              space = record {
                free = refl;
                tree = space.tree;
                start = space.start;
                fits = space.fits;
              };
              lookups = missing_lookup (ground arith);
              taken = [];
              held = space.start;
              few = omega arith;
            },
          )
          | inr some_last ↦ inl (
            there,
            record s {
              tables =
                  set_entry s.tables (reach hhdm s.tables s.p4 (path_of virt)) (p1_index virt) 0;
              lock = false;
            },
            rw (walk_found there, some_last),
            found-Becomes 0 (λ e. ground arith),
          )
        ]
  ]
