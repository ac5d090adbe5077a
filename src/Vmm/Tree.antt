-- ===== src/Vmm/Tree.antt =====
-- The tables as a tree: each table is reached by one path of indices.
use spctrx.Common.{
  ℕ, Bool, ◌+◌, ◌*◌, ◌<◌, ◌≡◌, ◌≢◌, true, ◌⊎◌, inl, inr, List, [], ◌∷◌, arith, length, ◌==◌,
  if◌then◌else◌, Bool-cases,
}
use spctrx.Common.Words.{page_size}
use spctrx.Vmm.Defs.{Tables, vmm_get_page_table}

-- The table behind an entry, and the one at the end of a path, whose last index stands first; 0 is none.
abbrev pub step : ℕ → Tables → ℕ → ℕ → ℕ
step hhdm tables t i = if t == 0 then 0 else vmm_get_page_table hhdm (tables t i)

abbrev pub reach : ℕ → Tables → ℕ → List ℕ → ℕ
reach hhdm tables root [] = root
reach hhdm tables root (i ∷ path) = step hhdm tables (reach hhdm tables root path) i

-- Up to three indices, for the three levels of tables below the root.
abbrev pub IsPath : List ℕ → Type 0
IsPath [] = Unit
IsPath (i ∷ path) = (i < 512) × (length path < 3) × IsPath path

-- The entry of a page: in the table at the end of a path, if there is one.
abbrev pub leaf : ℕ → Tables → ℕ → List ℕ → ℕ → ℕ
leaf hhdm tables root path j =
    let t = reach hhdm tables root path in if t == 0 then 0 else tables t j

-- No two paths lead to one table, an entry that is there leads to a table, and every table lies in a page
-- that is used, at its place in the direct map. So no entry above the last level maps a large page.
pub record IsTree (hhdm : ℕ) (tables : Tables) (root : ℕ) (used : ℕ → Bool) : Type 0 where
  pub has_root : root ≢ 0
  pub apart :
      (p q : List ℕ)
      → IsPath p
      → IsPath q
      → reach hhdm tables root p ≢ 0
      → reach hhdm tables root p ≡ reach hhdm tables root q
      → p ≡ q
  pub linked :
      (i : ℕ) (p : List ℕ)
      → IsPath (i ∷ p)
      → reach hhdm tables root p ≢ 0
      → tables (reach hhdm tables root p) i ≢ 0
      → reach hhdm tables root (i ∷ p) ≢ 0
  pub placed :
      (p : List ℕ)
      → IsPath p
      → reach hhdm tables root p ≢ 0
      → (page : ℕ) × (reach hhdm tables root p ≡ page * page_size + hhdm) × (used page ≡ true)

-- A tree stays one where more pages are used.
pub IsTree-more :
    {hhdm : ℕ} {tables : Tables} {root : ℕ} {used used' : ℕ → Bool}
    → IsTree hhdm tables root used
    → ((q : ℕ) → used q ≡ true → used' q ≡ true)
    → IsTree hhdm tables root used'
IsTree-more tree more = record {
  has_root = tree.has_root;
  apart = tree.apart;
  linked = tree.linked;
  placed =
      λ p hp there. let (page, at, taken) = tree.placed p hp there in (page, at, more page taken);
}

pub step-zero : (hhdm : ℕ) (tables : Tables) (t i : ℕ) → t ≡ 0 → step hhdm tables t i ≡ 0
step-zero hhdm tables t i e = rw e

-- A step reads one entry.
pub step-same :
    (hhdm : ℕ) (tables tables' : Tables) (t i : ℕ)
    → (t ≢ 0 → tables' t i ≡ tables t i)
    → step hhdm tables' t i ≡ step hhdm tables t i
step-same hhdm tables tables' t i same = elim (Bool-cases (t == 0)) [
  | inl none_there ↦ rw none_there
  | inr there ↦ rw (there, same (λ e. ground arith))
]

-- Tables with one that is new: the entry `i` of `t` leads to it, it is empty, and no other has changed.
pub record Grown (hhdm t i page : ℕ) (tables tables' : Tables) : Type 0 where
  pub entry : vmm_get_page_table hhdm (tables' t i) ≡ page * page_size + hhdm
  pub empty : (j : ℕ) → tables' (page * page_size + hhdm) j ≡ 0
  pub others :
      (q j : ℕ)
      → q ≢ page
      → (q * page_size + hhdm ≢ t) ⊎ (j ≢ i)
      → tables' (q * page_size + hhdm) j ≡ tables (q * page_size + hhdm) j
