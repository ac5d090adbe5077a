-- ===== src/Vmm/Mappings.antt =====
-- `vmmMap`, `vmmMapPages` and `vmmUnmap`, as changes of the mappings.
use spctrx.Common.{
  ◌≤◌, length, ℕ, ◌^◌, ◌<◌, ◌≡◌, ◌≢◌, sym, ◌∙◌, ap, ◌⊎◌, inl, inr, done, panic, arith, ◌==◌,
  if◌then◌else◌, Bool-cases, ne→==,
}
use spctrx.Pmm.{in_use, Exhausted}
use spctrx.Vmm.Defs.{Vmm, vmm_map, p1_index, pte, set_entry}
use spctrx.Vmm.Tree.{reach, leaf}
use spctrx.Vmm.Descent.{path_of, path_of-IsPath, IsSpace, Walked, vmm_walk-Walked}
use spctrx.Vmm.Lookup.{
  page_number, lookup, Becomes, same_page, other_page, written-leaf_same, written-leaf_other,
  written-IsTree,
}

-- The mappings with the entry of one page replaced.
abbrev pub with_entry : ℕ → ℕ → (ℕ → ℕ) → ℕ → ℕ
with_entry virt entry view v = if page_number v == page_number virt then entry else view v

-- A write to the entry of an address, in its table.
written-lookups :
    (hhdm virt entry : ℕ) (s : Vmm)
    → IsSpace hhdm s
    → reach hhdm s.tables s.p4 (path_of virt) ≢ 0
    → (v : ℕ)
    → leaf hhdm
        (set_entry s.tables (reach hhdm s.tables s.p4 (path_of virt)) (p1_index virt) entry)
        s.p4
        (path_of v)
        (p1_index v)
      ≡ with_entry virt entry (lookup hhdm s) v
written-lookups hhdm virt entry s space there v =
    elim (Bool-cases (page_number v == page_number virt)) [
      | inl same ↦
          let (path, index) = same_page v virt (ground arith) in
          rw same (
            written-leaf_same hhdm s.tables s.p4 (in_use s.pmm) space.tree (path_of virt)
              (path_of-IsPath virt) (omega arith) there (p1_index virt) entry (path_of v)
              (p1_index v) path index)
      | inr other ↦ rw other (
          written-leaf_other hhdm s.tables s.p4 (in_use s.pmm) space.tree (path_of virt)
            (path_of-IsPath virt) (omega arith) there (p1_index virt) entry (path_of v) (p1_index v)
            (path_of-IsPath v) (other_page v virt (λ e. ground arith)))
    ]

pub written-Becomes :
    (hhdm virt entry t n : ℕ) (s s' : Vmm) (w : Walked hhdm virt s t s')
    → length w.taken ≤ n
    → Becomes hhdm s n
        (with_entry virt entry (lookup hhdm s))
        (record s' { tables = set_entry s'.tables t (p1_index virt) entry })
written-Becomes hhdm virt entry t n s s' w few =
    let there : reach hhdm s'.tables s'.p4 (path_of virt) ≢ 0 = λ e. w.there (sym w.at ∙ e) in
    let reached = w.at in
    record {
      space = record {
        free = w.space.free;
        tree = rw reached at (
            written-IsTree hhdm s'.tables s'.p4 (in_use s'.pmm) w.space.tree (path_of virt)
              (path_of-IsPath virt) (omega arith) there (p1_index virt) entry);
        start = w.space.start;
        fits = w.space.fits;
      };
      lookups = λ v.
          (rw reached at (written-lookups hhdm virt entry s' w.space there v))
          ∙ ap (λ (n : ℕ). if page_number v == page_number virt then entry else n)
              (w.leaves (path_of v) (p1_index v) (path_of-IsPath v) (omega arith));
      taken = w.taken;
      held = w.held;
      few = few;
    }

-- Between two calls, `vmmMap` with flags of 12 bits makes the entry of the address' page the new one
-- and keeps every other page's, with at most three pages taken for tables; or fewer than three
-- pages are free and it panics.
pub vmm_map-Becomes :
    (hhdm virt phys flags : ℕ) (s : Vmm)
    → flags < 2 ^ 12
    → IsSpace hhdm s
    → ((s' : Vmm) × (vmm_map hhdm virt phys flags s ≡ done s')
        × Becomes hhdm s 3 (with_entry virt (pte phys flags) (lookup hhdm s)) s')
      ⊎ ((vmm_map hhdm virt phys flags s ≡ panic) × Exhausted s.pmm 3)
unfolding vmm_map
vmm_map-Becomes hhdm virt phys flags s small space =
    elim (vmm_walk-Walked hhdm virt flags s small space) [
      | inl (t, s', run, w) ↦ inl (
        record s' { tables = set_entry s'.tables t (p1_index virt) (pte phys flags) },
        rw (run, ne→== t 0 w.there),
        written-Becomes hhdm virt (pte phys flags) t 3 s s' w w.few,
      )
      | inr (stop, none_left) ↦ inr (rw stop, none_left)
    ]
