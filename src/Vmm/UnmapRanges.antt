-- ===== src/Vmm/UnmapRanges.antt =====
-- `vmmUnmapPages`, and the mapping of a range with its removal.
use spctrx.Common.{
  ℕ, zero, suc, ◌+◌, ◌-◌, ◌*◌, ◌^◌, ◌<◌, ◌≤◌, ◌≡◌, ◌≢◌, refl, sym, ◌∙◌, ap, true, false, ◌&&◌, ◌⊎◌,
  inl, inr, ◌>>=◌, ◌%◌, done, panic, arith, leb, ltb, ◌==◌, if◌then◌else◌, Bool-cases,
}
use spctrx.Common.Words.{u64, page_size}
use spctrx.Pmm.{Exhausted}
use spctrx.Vmm.Defs.{Vmm, vmm_unmap_pages, vmm_map_pages}
use spctrx.Vmm.Tree.{step-zero, reach}
use spctrx.Vmm.Descent.{IsSpace, path_of}
use spctrx.Vmm.Lookup.{page_number, lookup, Becomes, Becomes-then, Becomes-none}
use spctrx.Vmm.Mappings.{with_entry}
use spctrx.Vmm.Translate.{pte-fields}
use spctrx.Vmm.Unmap.{second, vmm_unmap-Becomes}
use spctrx.Vmm.Ranges.{in_range, with_range, next_page, range_cases, vmm_map_pages-Becomes}

-- The mappings without `n` pages.
abbrev pub without_range : ℕ → ℕ → (ℕ → ℕ) → ℕ → ℕ
without_range n virt view v = if in_range n virt v then 0 else view v

mapped-second : (hhdm virt : ℕ) (s : Vmm) → lookup hhdm s virt ≢ 0 → second hhdm virt s ≢ 0
mapped-second hhdm virt s mapped none_there =
    let gone : reach hhdm s.tables s.p4 (path_of virt) ≡ 0 =
      step-zero hhdm s.tables _ _ none_there in
    mapped (rw gone)

longer_gap :
    (n virt : ℕ) (view view' : ℕ → ℕ) (v : ℕ)
    → virt + suc n * page_size ≤ 2 ^ 64
    → page_number virt + suc n ≤ 2 ^ 36
    → view' v ≡ with_entry virt 0 view v
    → without_range n (u64 (virt + page_size)) view' v ≡ without_range (suc n) virt view v
longer_gap n virt view view' v room pages e =
    ap (λ (w : ℕ). if in_range n (u64 (virt + page_size)) v then 0 else w) e
    ∙ range_cases n (page_number virt) (page_number (u64 (virt + page_size))) (page_number v) 0 0 0
        (view v) (next_page n virt room pages) (λ lo hi. refl) (λ same. refl)

later_page :
    (n P P' Q : ℕ)
    → (n ≡ 0) ⊎ (P' ≡ P + 1)
    → (leb P' Q && ltb Q (P' + n)) ≡ true
    → ((Q == P) ≡ false) × ((leb P Q && ltb Q (P + suc n)) ≡ true)
later_page n P P' Q next inside = (grind arith, grind arith)

still_mapped :
    (n virt : ℕ) (view view' : ℕ → ℕ) (v : ℕ)
    → virt + suc n * page_size ≤ 2 ^ 64
    → page_number virt + suc n ≤ 2 ^ 36
    → view' v ≡ with_entry virt 0 view v
    → (in_range (suc n) virt v ≡ true → view v ≢ 0)
    → in_range n (u64 (virt + page_size)) v ≡ true
    → view' v ≢ 0
still_mapped n virt view view' v room pages e mapped inside =
    let (other, within) =
      later_page n (page_number virt) (page_number (u64 (virt + page_size))) (page_number v)
        (next_page n virt room pages) inside in
    let kept : view' v ≡ view v = rw other at e in λ gone. mapped within (sym kept ∙ gone)

-- Between two calls, `vmmUnmapPages` of a range that does not wrap round, all of whose pages are mapped,
-- takes away their entries and keeps every other page's, with no page of memory taken.
pub vmm_unmap_pages-Becomes :
    (n hhdm virt : ℕ) (s : Vmm)
    → virt + n * page_size ≤ 2 ^ 64
    → page_number virt + n ≤ 2 ^ 36
    → ((v : ℕ) → in_range n virt v ≡ true → lookup hhdm s v ≢ 0)
    → IsSpace hhdm s
    → (s' : Vmm) × (vmm_unmap_pages n hhdm virt s ≡ done s')
      × Becomes hhdm s 0 (without_range n virt (lookup hhdm s)) s'
unfolding vmm_unmap_pages
vmm_unmap_pages-Becomes zero hhdm virt s room pages mapped space = (
  s,
  refl,
  Becomes-none hhdm s space
      (λ v. (let none_in : in_range 0 virt v ≡ false = ground arith in rw none_in)),
)
vmm_unmap_pages-Becomes (suc n) hhdm virt s room pages mapped space =
    let first : lookup hhdm s virt ≢ 0 = mapped virt (ground arith) in
    elim (vmm_unmap-Becomes hhdm virt s space) [
      | inr (none_there, stop) ↦ absurd (mapped-second hhdm virt s first none_there)
      | inl (there, s₁, run, b) ↦
          let (s', runs, bs) =
            vmm_unmap_pages-Becomes n hhdm (u64 (virt + page_size)) s₁ (omega arith)
              (omega (arith, next_page n virt room pages))
              (λ v.
                still_mapped n virt (lookup hhdm s) (lookup hhdm s₁) v room pages (b.lookups v)
                  (mapped v))
              b.space in
          (
            s',
            rw (run, runs),
            Becomes-then hhdm (0) (0) (0) _ _ _ s s₁ s' b bs
                (λ v. longer_gap n virt (lookup hhdm s) (lookup hhdm s₁) v room pages (b.lookups v))
                (omega arith),
          )
    ]

gap_after :
    (n virt phys flags : ℕ) (view view' : ℕ → ℕ) (v : ℕ)
    → view' v ≡ with_range n virt phys flags view v
    → without_range n virt view' v ≡ without_range n virt view v
gap_after n virt phys flags view view' v e = elim (Bool-cases (in_range n virt v)) [
  | inl inside ↦ rw inside
  | inr outside ↦ let kept : view' v ≡ view v = rw outside at e in rw (outside, kept)
]

range_mapped :
    (n virt phys flags : ℕ) (view : ℕ → ℕ) (v : ℕ)
    → phys + n * page_size < 2 ^ 62
    → phys % page_size ≡ 0
    → flags < 2 ^ 12
    → in_range n virt v ≡ true
    → with_range n virt phys flags view v ≢ 0
range_mapped n virt phys flags view v memory aligned small inside =
    let near : page_number v - page_number virt < n = ground arith in
    let (frame, present) =
      pte-fields (phys + (page_number v - page_number virt) * page_size) flags (omega arith)
        (omega arith) small in
    λ gone. present (rw inside at gone)

-- Between two calls, `vmmMapPages` and then `vmmUnmapPages` of a range both return, or the first panics
-- with fewer than three free pages for each page of the range. After both, no page of the range is mapped, and
-- every other page's entry is as before. The range wraps round neither in the address space nor in
-- memory, which is below 2^62; it starts at a page, and the flags have 12 bits.
pub vmm_map_pages-vmm_unmap_pages :
    (n hhdm virt phys flags : ℕ) (s : Vmm)
    → flags < 2 ^ 12
    → virt + n * page_size ≤ 2 ^ 64
    → phys + n * page_size < 2 ^ 62
    → phys % page_size ≡ 0
    → page_number virt + n ≤ 2 ^ 36
    → IsSpace hhdm s
    → ((s' : Vmm) × ((vmm_map_pages n hhdm virt phys flags s >>= vmm_unmap_pages n hhdm virt)
          ≡ done s')
        × Becomes hhdm s (3 * n) (without_range n virt (lookup hhdm s)) s')
      ⊎ ((vmm_map_pages n hhdm virt phys flags s ≡ panic) × Exhausted s.pmm (3 * n))
vmm_map_pages-vmm_unmap_pages n hhdm virt phys flags s small room memory aligned pages space =
    elim (vmm_map_pages-Becomes n hhdm virt phys flags s small room (omega arith) pages space) [
      | inr stopped ↦ inr stopped
      | inl (s₁, run, b) ↦
          let (s', runs, bs) =
            vmm_unmap_pages-Becomes n hhdm virt s₁ room pages
              (λ v inside gone.
                range_mapped n virt phys flags (lookup hhdm s) v memory aligned small inside
                  (sym (b.lookups v) ∙ gone))
              b.space in
          inl (
            s',
            rw (run, runs),
            Becomes-then hhdm (3 * n) (0) (3 * n) _ _ _ s s₁ s' b bs
                (λ v. gap_after n virt phys flags (lookup hhdm s) (lookup hhdm s₁) v (b.lookups v))
                (omega arith),
          )
    ]
