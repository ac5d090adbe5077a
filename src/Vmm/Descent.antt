-- ===== src/Vmm/Descent.antt =====
-- `vmmWalk` with allocation, from a tree to a tree.
use spctrx.Common.{
  bit_and, ℕ, ◌^◌, ◌<◌, ◌≤◌, ◌≡◌, ◌≢◌, refl, sym, ◌∙◌, true, false, ◌⊎◌, inl, inr, List, [], ◌∷◌,
  done, panic, arith, length,
}
use spctrx.Pmm.{in_use, Pmm, Held, Held-start, Exhausted}
use spctrx.Common.Bits.{bit_and_low}
use spctrx.Vmm.Defs.{Vmm, vmm_walk, p2_index, p3_index, p4_index}
use spctrx.Vmm.Tree.{reach, IsPath, leaf, IsTree}
use spctrx.Vmm.Walk.{Fits, Further, level_at}

-- The path of an address to the table of its entry.
abbrev pub path_of : ℕ → List ℕ
path_of virt = p2_index virt ∷ p3_index virt ∷ p4_index virt ∷ []

-- The state between two calls: the lock is free, and the tables are a tree in pages of the allocator.
pub record IsSpace (hhdm : ℕ) (s : Vmm) : Type 0 where
  pub free : s.lock ≡ false
  pub tree : IsTree hhdm s.tables s.p4 (in_use s.pmm)
  pub start : Held s.pmm [] s.pmm
  pub fits : Fits hhdm s.pmm

-- A walk has led to the table `t`, at most three pages were taken, and the entries of pages are the same.
pub record Walked (hhdm virt : ℕ) (s : Vmm) (t : ℕ) (s' : Vmm) : Type 0 where
  pub space : IsSpace hhdm s'
  pub same_root : s'.p4 ≡ s.p4
  pub at : reach hhdm s'.tables s'.p4 (path_of virt) ≡ t
  pub there : t ≢ 0
  pub leaves :
      (q : List ℕ) (j : ℕ)
      → IsPath q
      → 2 < length q
      → leaf hhdm s'.tables s'.p4 q j ≡ leaf hhdm s.tables s.p4 q j
  pub taken : List ℕ
  pub held : Held s.pmm taken s'.pmm
  pub few : length taken ≤ 3

index-bound : (n : ℕ) → bit_and n 0x1ff < 512
index-bound n = omega (arith, bit_and_low 9 n)

pub path_of-IsPath : (virt : ℕ) → IsPath (path_of virt)
path_of-IsPath virt =
    (index-bound _, omega arith, (index-bound _, omega arith, (index-bound _, omega arith, tt)))

Exhausted-more : (s : Pmm) (m n : ℕ) → m ≤ n → Exhausted s m → Exhausted s n
Exhausted-more s m n le (pages, few, all) = (pages, omega arith, all)

module _ (hhdm virt flags : ℕ) (s : Vmm) (flags_small : flags < 2 ^ 12)
    (space : IsSpace hhdm s) where
  abbrev locked : Vmm
  locked = record s { lock = true }

  finish :
      (t₃ t₂ t₁ : ℕ) (s₁ s₂ s₃ : Vmm) (f₁ : Further hhdm s.pmm [] locked [] (p4_index virt) t₃ s₁)
      (f₂ : Further hhdm s.pmm f₁.taken s₁ (p4_index virt ∷ []) (p3_index virt) t₂ s₂)
      → Further hhdm s.pmm f₂.taken s₂ (p3_index virt ∷ p4_index virt ∷ []) (p2_index virt) t₁ s₃
      → Walked hhdm virt s t₁ (record s₃ { lock = false })
  finish t₃ t₂ t₁ s₁ s₂ s₃ f₁ f₂ f₃ = record {
    space = record {
      free = refl;
      tree = f₃.tree;
      start = Held-start s₃.pmm f₃.held.valid;
      fits = record {
        small = omega (arith, space.fits.small, f₃.held.same_bits);
        mapped = omega (arith, space.fits.mapped, f₃.held.same_bits);
      };
    };
    same_root = f₃.same_root ∙ (f₂.same_root ∙ f₁.same_root);
    at = f₃.at;
    there = f₃.there;
    leaves = λ q j hq longer.
        f₃.leaves q j hq longer ∙ (f₂.leaves q j hq (omega arith) ∙ f₁.leaves q j hq (omega arith));
    taken = f₃.taken;
    held = f₃.held;
    few = omega (arith, f₁.few, f₂.few, f₃.few);
  }

  pub vmm_walk-Walked :
      ((t : ℕ) × (s' : Vmm) × (vmm_walk hhdm virt true flags s ≡ done (t, s'))
        × Walked hhdm virt s t s')
      ⊎ ((vmm_walk hhdm virt true flags s ≡ panic) × Exhausted s.pmm 3)
  unfolding vmm_walk
  vmm_walk-Walked =
      let (b₂, l₂, (b₃, l₃, (b₄, l₄, u))) = path_of-IsPath virt in
      elim (level_at hhdm flags s.pmm space.fits flags_small [] locked space.start space.tree [] tt
        (p4_index virt) b₄ l₄ space.tree.has_root s.p4 refl) [
          | inr (stop, none_left) ↦
              inr (rw (space.free, stop), Exhausted-more s.pmm 1 3 (omega arith) none_left)
          | inl (t₃, s₁, run₁, f₁) ↦
              elim (level_at hhdm flags s.pmm space.fits flags_small f₁.taken s₁ f₁.held f₁.tree
                (p4_index virt ∷ []) (b₄, l₄, u) (p3_index virt) b₃ l₃
                (λ e. f₁.there (sym f₁.at ∙ e)) t₃ f₁.at) [
                  | inr (stop, none_left) ↦ inr (
                    rw (space.free, run₁, stop),
                    Exhausted-more s.pmm _ 3 (omega (arith, f₁.few)) none_left,
                  )
                  | inl (t₂, s₂, run₂, f₂) ↦
                      elim (level_at hhdm flags s.pmm space.fits flags_small f₂.taken s₂ f₂.held
                        f₂.tree (p3_index virt ∷ p4_index virt ∷ []) (b₃, l₃, (b₄, l₄, u))
                        (p2_index virt) b₂ l₂ (λ e. f₂.there (sym f₂.at ∙ e)) t₂ f₂.at) [
                          | inr (stop, none_left) ↦ inr (
                            rw (space.free, run₁, run₂, stop),
                            Exhausted-more s.pmm _ 3 (omega (arith, f₁.few, f₂.few)) none_left,
                          )
                          | inl (t₁, s₃, run₃, f₃) ↦ inl (
                            t₁,
                            record s₃ { lock = false },
                            rw (space.free, run₁, run₂, run₃),
                            finish t₃ t₂ t₁ s₁ s₂ s₃ f₁ f₂ f₃,
                          )
                        ]
                ]
        ]
