-- ===== src/Vmm/Ranges.antt =====
-- `vmmMapPages`, as a change of the mappings.
use spctrx.Common.{
  Bool, ℕ, zero, suc, ◌+◌, ◌-◌, ◌*◌, ◌^◌, ◌<◌, ◌≤◌, ◌≡◌, refl, ◌∙◌, ap, ◌&&◌, ◌⊎◌, inl, inr, [],
  done, panic, arith, leb, ltb, ◌==◌, if◌then◌else◌, Bool-cases,
}
use spctrx.Common.Words.{u64, page_size}
use spctrx.Pmm.{Exhausted, Exhausted-then}
use spctrx.Vmm.Offset.{vmm_phys_to_virt}
use spctrx.Vmm.Defs.{mmio_flags, vmm_map_mmio, Vmm, vmm_map_pages, pte}
use spctrx.Vmm.Descent.{IsSpace}
use spctrx.Vmm.Lookup.{page_number, lookup, Becomes, Becomes-then, Becomes-none}
use spctrx.Vmm.Mappings.{with_entry, vmm_map-Becomes}

-- The address' page is one of the `n` pages from `virt` on.
abbrev pub in_range : ℕ → ℕ → ℕ → Bool
in_range n virt v =
    leb (page_number virt) (page_number v) && ltb (page_number v) (page_number virt + n)

-- The mappings with the entries of `n` pages replaced, by ones that follow each other in memory.
abbrev pub with_range : ℕ → ℕ → ℕ → ℕ → (ℕ → ℕ) → ℕ → ℕ
with_range n virt phys flags view v =
    if in_range n virt v
    then pte (phys + (page_number v - page_number virt) * page_size) flags
    else view v

empty_range :
    (virt phys flags : ℕ) (view : ℕ → ℕ) (v : ℕ) → view v ≡ with_range 0 virt phys flags view v
empty_range virt phys flags view v = ground arith

range_same :
    (n virt phys flags : ℕ) (view view' : ℕ → ℕ) (v : ℕ)
    → view v ≡ view' v
    → with_range n virt phys flags view v ≡ with_range n virt phys flags view' v
range_same n virt phys flags view view' v e =
    ap
      (λ (w : ℕ).
        if in_range n virt v
        then pte (phys + (page_number v - page_number virt) * page_size) flags
        else w)
      e

-- The page that follows, where there is one.
pub next_page :
    (n virt : ℕ)
    → virt + suc n * page_size ≤ 2 ^ 64
    → page_number virt + suc n ≤ 2 ^ 36
    → (n ≡ 0) ⊎ (page_number (u64 (virt + page_size)) ≡ page_number virt + 1)
next_page zero virt room pages = inl refl
next_page (suc n) virt room pages = inr (omega arith)

pub range_cases :
    (n P P' Q e e₀ e₁ w : ℕ)
    → (n ≡ 0) ⊎ (P' ≡ P + 1)
    → (P < Q → Q < P + suc n → e ≡ e₁)
    → (Q ≡ P → e₀ ≡ e₁)
    → (if leb P' Q && ltb Q (P' + n) then e else (if Q == P then e₀ else w))
      ≡ (if leb P Q && ltb Q (P + suc n) then e₁ else w)
range_cases n P P' Q e e₀ e₁ w next later first = elim (Bool-cases (Q == P)) [
  | inl same ↦ grind arith
  | inr other ↦ grind arith
]

longer_range :
    (n virt phys flags : ℕ) (view : ℕ → ℕ) (v : ℕ)
    → virt + suc n * page_size ≤ 2 ^ 64
    → phys + suc n * page_size < 2 ^ 64
    → page_number virt + suc n ≤ 2 ^ 36
    → with_range n
        (u64 (virt + page_size))
        (u64 (phys + page_size))
        flags
        (with_entry virt (pte phys flags) view)
        v
      ≡ with_range (suc n) virt phys flags view v
longer_range n virt phys flags view v room small pages =
    range_cases n (page_number virt) (page_number (u64 (virt + page_size))) (page_number v)
      (pte
        (u64 (phys + page_size)
          + (page_number v - page_number (u64 (virt + page_size))) * page_size)
        flags)
      (pte phys flags) (pte (phys + (page_number v - page_number virt) * page_size) flags) (view v)
      (next_page n virt room pages)
      (λ lo hi.
        ap (λ (frame : ℕ). pte frame flags) (omega (arith, lo, hi, next_page n virt room pages)))
      (λ e. ap (λ (frame : ℕ). pte frame flags) (omega (arith, e)))

-- Between two calls, `vmmMapPages` of a range that wraps round neither in the address space nor in
-- memory, with flags of 12 bits, makes the entries of its pages the new ones, in order, and keeps
-- every other page's; or it panics, with fewer than three free pages for each page of the range.
pub vmm_map_pages-Becomes :
    (n hhdm virt phys flags : ℕ) (s : Vmm)
    → flags < 2 ^ 12
    → virt + n * page_size ≤ 2 ^ 64
    → phys + n * page_size < 2 ^ 64
    → page_number virt + n ≤ 2 ^ 36
    → IsSpace hhdm s
    → ((s' : Vmm) × (vmm_map_pages n hhdm virt phys flags s ≡ done s')
        × Becomes hhdm s (3 * n) (with_range n virt phys flags (lookup hhdm s)) s')
      ⊎ ((vmm_map_pages n hhdm virt phys flags s ≡ panic) × Exhausted s.pmm (3 * n))
unfolding vmm_map_pages
vmm_map_pages-Becomes zero hhdm virt phys flags s small room memory pages space =
    inl (s, refl, Becomes-none hhdm s space (empty_range virt phys flags (lookup hhdm s)))
vmm_map_pages-Becomes (suc n) hhdm virt phys flags s small room memory pages space =
    elim (vmm_map-Becomes hhdm virt phys flags s small space) [
      | inr (stop, none_left) ↦
          inr (
            rw stop,
            Exhausted-then s.pmm s.pmm [] 3 (3 * suc n) space.start (omega arith) none_left,
          )
      | inl (s₁, run, b) ↦
          elim (vmm_map_pages-Becomes n hhdm (u64 (virt + page_size)) (u64 (phys + page_size)) flags
            s₁ small (omega arith) (omega arith) (omega (arith, next_page n virt room pages))
            b.space) [
              | inl (s', runs, bs) ↦ inl (
                s',
                rw (run, runs),
                Becomes-then hhdm (3) (3 * n) (3 * suc n) _ _ _ s s₁ s' b bs
                    (λ v.
                      range_same n (u64 (virt + page_size)) (u64 (phys + page_size)) flags
                        (lookup hhdm s₁) (with_entry virt (pte phys flags) (lookup hhdm s)) v
                        (b.lookups v)
                      ∙ longer_range n virt phys flags (lookup hhdm s) v room memory pages)
                    (omega arith),
              )
              | inr (stop, none_left) ↦ inr (
                rw (run, stop),
                Exhausted-then s.pmm s₁.pmm b.taken (3 * n) (3 * suc n) b.held
                    (omega (arith, b.few)) none_left,
              )
            ]
    ]

-- The mappings with the page at an address put into the direct map, for device registers.
abbrev pub with_device : ℕ → ℕ → (ℕ → ℕ) → ℕ → ℕ
with_device hhdm addr view = with_entry (vmm_phys_to_virt hhdm addr) (pte addr mmio_flags) view

-- `vmmMapMMIO` of one page.
pub vmm_map_mmio-Becomes :
    (hhdm addr : ℕ) (s : Vmm)
    → IsSpace hhdm s
    → ((s' : Vmm) × (vmm_map_mmio hhdm addr 1 s ≡ done s')
        × Becomes hhdm s 3 (with_device hhdm addr (lookup hhdm s)) s')
      ⊎ ((vmm_map_mmio hhdm addr 1 s ≡ panic) × Exhausted s.pmm 3)
unfolding vmm_map_pages
vmm_map_mmio-Becomes hhdm addr s space =
    elim (vmm_map-Becomes hhdm (vmm_phys_to_virt hhdm addr) addr mmio_flags s (omega arith) space) [
      | inl (s', run, b) ↦ inl (s', rw run, b)
      | inr (stop, none_left) ↦ inr (rw stop, none_left)
    ]
