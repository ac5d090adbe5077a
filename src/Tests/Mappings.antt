-- ===== src/Tests/Mappings.antt =====
-- Tables of four levels, for one mapped page.
use spctrx.Common.{
  ℕ, zero, suc, ◌+◌, ◌*◌, ◌^◌, ◌<◌, ◌≡◌, ◌≢◌, refl, sym, ◌∙◌, Bool, true, false, ◌&&◌, ◌⊎◌, List,
  [], ◌∷◌, done, panic, fault, arith, length, ◌==◌, if◌then◌else◌, Bool-cases, inl, inr, ◌>>=◌,
}
use spctrx.Vmm.{
  Vmm, Tables, step, reach, IsPath, IsTree, IsSpace, Becomes, with_entry, with_range, without_range,
  lookup, second, pte, vmm_map, vmm_unmap, vmm_map_pages, vmm_unmap_pages, vmm_map-Becomes,
  vmm_map_pages-Becomes, vmm_unmap-Becomes, vmm_map_pages-vmm_unmap_pages,
}
use spctrx.Common.Bits.{digit}
use spctrx.Pmm.{in_use, Exhausted, Held-start}

abbrev one_page : Tables
one_page t i =
    if t == 0x1000 && i == 0
    then 0x2001
    else if t == 0x2000 && i == 0
    then 0x3001
    else if t == 0x3000 && i == 0
    then 0x4001
    else if t == 0x4000 && i == 5
    then 0x5013
    else 0

abbrev pub mapped_vm : Vmm
mapped_vm = record {
  p4 = 0x1000;
  tables = one_page;
  lock = false;
  pmm = record { pages = record { bits = 64; data_size = 8; words = 31 ∷ [] }; lock = false };
}

zeros : List ℕ → Bool
zeros [] = true
zeros (i ∷ p) = i == 0 && zeros p

same_zeros : (p q : List ℕ) → zeros p ≡ true → zeros q ≡ true → length p ≡ length q → p ≡ q
unfolding zeros
same_zeros [] [] hp hq e = refl
same_zeros [] (j ∷ q) hp hq e = absurd (omega (arith, e))
same_zeros (i ∷ p) [] hp hq e = absurd (omega (arith, e))
same_zeros (i ∷ p) (j ∷ q) hp hq e =
    let rest = same_zeros p q (ground arith) (ground arith) (omega (arith, e)) in
    let first : i ≡ j = ground arith in rw (rest, first)

next_table :
    (n i : ℕ)
    → n < 3
    → step 0 one_page (0x1000 * (1 + n)) i ≡ (if i == 0 then 0x1000 * (1 + suc n) else 0)
next_table zero i h = elim (Bool-cases (i == 0)) [ inl e ↦ rw e | inr e ↦ rw e ]
next_table (suc zero) i h = elim (Bool-cases (i == 0)) [ inl e ↦ rw e | inr e ↦ rw e ]
next_table (suc (suc zero)) i h = elim (Bool-cases (i == 0)) [ inl e ↦ rw e | inr e ↦ rw e ]
next_table (suc (suc (suc n))) i h = absurd (omega (arith, h))

reach-zeros :
    (p : List ℕ)
    → IsPath p
    → reach 0 one_page 0x1000 p ≡ (if zeros p then 0x1000 * (1 + length p) else 0)
unfolding zeros
reach-zeros [] hp = refl
reach-zeros (i ∷ p) hp = elim (Bool-cases (zeros p)) [
  | inl all ↦ rw (reach-zeros p hp.2, all, next_table (length p) i hp.1) (ground arith)
  | inr other ↦ rw (reach-zeros p hp.2, other) (ground arith)
]

reached :
    (p : List ℕ)
    → IsPath p
    → reach 0 one_page 0x1000 p ≢ 0
    → (zeros p ≡ true) × (reach 0 one_page 0x1000 p ≡ 0x1000 * (1 + length p))
reached p hp there = elim (Bool-cases (zeros p)) [
  | inl all ↦ (all, rw (reach-zeros p hp, all))
  | inr other ↦ absurd (there (rw (reach-zeros p hp, other)))
]

entry_zero : (n i : ℕ) → n < 3 → one_page (0x1000 * (1 + n)) i ≢ 0 → (i == 0) ≡ true
entry_zero zero i h ne = elim (Bool-cases (i == 0)) [ inl e ↦ e | inr e ↦ absurd (ne (rw e)) ]
entry_zero (suc zero) i h ne = elim (Bool-cases (i == 0)) [ inl e ↦ e | inr e ↦ absurd (ne (rw e)) ]
entry_zero (suc (suc zero)) i h ne = elim (Bool-cases (i == 0)) [
  | inl e ↦ e
  | inr e ↦ absurd (ne (rw e))
]
entry_zero (suc (suc (suc n))) i h ne = absurd (omega (arith, h))

low_pages : (n : ℕ) → n < 4 → in_use mapped_vm.pmm (1 + n) ≡ true
unfolding digit
low_pages zero h = refl
low_pages (suc zero) h = refl
low_pages (suc (suc zero)) h = refl
low_pages (suc (suc (suc zero))) h = refl
low_pages (suc (suc (suc (suc n)))) h = absurd (omega (arith, h))

shallow : (p : List ℕ) → IsPath p → length p < 4
shallow [] hp = omega arith
shallow (i ∷ p) hp = omega (arith, hp.1)

-- With the pages of the four tables used.
one_page-IsTree :
    (used : ℕ → Bool) → ((n : ℕ) → n < 4 → used (1 + n) ≡ true) → IsTree 0 one_page 0x1000 used
unfolding zeros
one_page-IsTree used low = record {
  has_root = λ e. omega (arith, e);
  apart = λ p q hp hq there same.
      let (zp, at) = reached p hp there in
      let (zq, at') = reached q hq (λ e. there (same ∙ e)) in
      same_zeros p q zp zq (omega (arith, at, at', same));
  linked = λ i p hp there some_entry gone.
      let (zp, at) = reached p hp.2 there in
      let first = entry_zero (length p) i hp.1 (λ e. some_entry (rw at e)) in
      let full : (if zeros (i ∷ p) then 0x1000 * (1 + length (i ∷ p)) else 0)
          ≡ 0x1000 * (2 + length p) =
        rw (first, zp) (omega arith) in
      omega (arith, sym gone ∙ (reach-zeros (i ∷ p) hp ∙ full));
  placed = λ p hp there.
      let (zp, at) = reached p hp there in
      (1 + length p, at ∙ omega arith, low (length p) (shallow p hp));
}

pub mapped_vm-IsSpace : IsSpace 0 mapped_vm
unfolding digit
mapped_vm-IsSpace = record {
  free = refl;
  tree = one_page-IsTree (in_use mapped_vm.pmm) low_pages;
  start = Held-start mapped_vm.pmm (record {
    bitmap = record { covers = omega arith; sized = refl };
    zero_reserved = refl;
    nonempty = omega arith;
    addressable = omega arith;
    unlocked = refl;
  });
  fits = record { small = omega arith; mapped = omega arith };
}

vmm_map-Becomes_example :
    ((s' : Vmm) × (vmm_map 0 (2 ^ 39) 0x9000 2 mapped_vm ≡ done s')
      × Becomes 0 mapped_vm 3 (with_entry (2 ^ 39) (pte 0x9000 2) (lookup 0 mapped_vm)) s')
    ⊎ ((vmm_map 0 (2 ^ 39) 0x9000 2 mapped_vm ≡ panic) × Exhausted mapped_vm.pmm 3)
vmm_map-Becomes_example =
    vmm_map-Becomes 0 (2 ^ 39) 0x9000 2 mapped_vm (omega arith) mapped_vm-IsSpace

vmm_map_pages-Becomes_example :
    ((s' : Vmm) × (vmm_map_pages 3 0 0x7000 0x20000 2 mapped_vm ≡ done s')
      × Becomes 0 mapped_vm 9 (with_range 3 0x7000 0x20000 2 (lookup 0 mapped_vm)) s')
    ⊎ ((vmm_map_pages 3 0 0x7000 0x20000 2 mapped_vm ≡ panic) × Exhausted mapped_vm.pmm 9)
vmm_map_pages-Becomes_example =
    vmm_map_pages-Becomes 3 0 0x7000 0x20000 2 mapped_vm (omega arith) (omega arith) (omega arith)
      (omega arith) mapped_vm-IsSpace

vmm_unmap-Becomes_example :
    ((second 0 0x5000 mapped_vm ≢ 0)
      × (s' : Vmm) × (vmm_unmap 0 0x5000 mapped_vm ≡ done s')
      × Becomes 0 mapped_vm 0 (with_entry 0x5000 0 (lookup 0 mapped_vm)) s')
    ⊎ ((second 0 0x5000 mapped_vm ≡ 0) × (vmm_unmap 0 0x5000 mapped_vm ≡ fault))
vmm_unmap-Becomes_example = vmm_unmap-Becomes 0 0x5000 mapped_vm mapped_vm-IsSpace

vmm_map_pages-vmm_unmap_pages_example :
    ((s' : Vmm) × ((vmm_map_pages 2 0 0x7000 0x20000 2 mapped_vm >>= vmm_unmap_pages 2 0 0x7000)
        ≡ done s')
      × Becomes 0 mapped_vm 6 (without_range 2 0x7000 (lookup 0 mapped_vm)) s')
    ⊎ ((vmm_map_pages 2 0 0x7000 0x20000 2 mapped_vm ≡ panic) × Exhausted mapped_vm.pmm 6)
vmm_map_pages-vmm_unmap_pages_example =
    vmm_map_pages-vmm_unmap_pages 2 0 0x7000 0x20000 2 mapped_vm (omega arith) (omega arith)
      (omega arith) refl (omega arith) mapped_vm-IsSpace
