-- ===== src/Vmm/Lookup.antt =====
-- The mappings that the tables hold, page by page, and the write of one entry.
use spctrx.Common.{
  Bool, length-append, ◌++◌, ◌+◌, ℕ, ◌%◌, ◌^◌, ◌<◌, ◌≤◌, ◌≡◌, ◌≢◌, refl, sym, ◌∙◌, ap, inl, inr,
  List, [], ◌∷◌, arith, length, ◌==◌, Bool-cases, eq→==, ne→==,
}
use spctrx.Common.Words.{shr}
use spctrx.Common.Bits.{bit_and_low}
use spctrx.Pmm.{Pmm, Held, Held-then, Held-start}
use spctrx.Vmm.Defs.{Tables, Vmm, set_entry, p1_index, p2_index, p3_index, p4_index}
use spctrx.Vmm.Tree.{reach, IsPath, leaf, IsTree, IsTree-more, step-same}
use spctrx.Vmm.Descent.{path_of, IsSpace}

-- The number of an address' page: 36 bits, for the four levels.
abbrev pub page_number : ℕ → ℕ
page_number virt = shr virt 12 % 2 ^ 36

-- The entry of an address, 0 where a table is missing.
abbrev pub lookup : ℕ → Vmm → ℕ → ℕ
lookup hhdm s virt = leaf hhdm s.tables s.p4 (path_of virt) (p1_index virt)

-- The state has become one with these mappings, and at most `n` pages were taken.
pub record Becomes (hhdm : ℕ) (s : Vmm) (n : ℕ) (view : ℕ → ℕ) (s' : Vmm) : Type 0 where
  pub space : IsSpace hhdm s'
  pub lookups : (virt : ℕ) → lookup hhdm s' virt ≡ view virt
  pub taken : List ℕ
  pub held : Held s.pmm taken s'.pmm
  pub few : length taken ≤ n

pub Becomes-none :
    (hhdm : ℕ) (s : Vmm) {view : ℕ → ℕ}
    → IsSpace hhdm s
    → ((v : ℕ) → lookup hhdm s v ≡ view v)
    → Becomes hhdm s 0 view s
Becomes-none hhdm s space same = record {
  space = space;
  lookups = same;
  taken = [];
  held = space.start;
  few = omega arith;
}

-- Pages that are taken for other uses change no mapping.
pub taken-Becomes :
    (hhdm : ℕ) (s : Vmm) (pmm : Pmm) (pages : List ℕ)
    → IsSpace hhdm s
    → Held s.pmm pages pmm
    → Becomes hhdm s (length pages) (lookup hhdm s) (record s { pmm = pmm })
taken-Becomes hhdm s pmm pages space held = record {
  space = record {
    free = space.free;
    tree = IsTree-more space.tree held.kept;
    start = Held-start pmm held.valid;
    fits = record {
      small = omega (arith, space.fits.small, held.same_bits);
      mapped = omega (arith, space.fits.mapped, held.same_bits);
    };
  };
  lookups = λ virt. refl;
  taken = pages;
  held = held;
  few = omega arith;
}

-- One change of the mappings after another.
pub Becomes-then :
    (hhdm n m k : ℕ) (view view' view'' : ℕ → ℕ) (s s₁ s₂ : Vmm)
    → Becomes hhdm s n view s₁
    → Becomes hhdm s₁ m view' s₂
    → ((v : ℕ) → view' v ≡ view'' v)
    → n + m ≤ k
    → Becomes hhdm s k view'' s₂
Becomes-then hhdm n m k view view' view'' s s₁ s₂ b b' same le = record {
  space = b'.space;
  lookups = λ v. b'.lookups v ∙ same v;
  taken = b'.taken ++ b.taken;
  held = Held-then s.pmm s₁.pmm s₂.pmm b'.taken b.taken b.held b'.held;
  few = omega (arith, length-append b'.taken b.taken, b'.few, b.few);
}

pub same_page :
    (v w : ℕ) → page_number v ≡ page_number w → (path_of v ≡ path_of w) × (p1_index v ≡ p1_index w)
same_page v w e =
    let e₁ : p1_index v ≡ p1_index w =
      omega (arith, bit_and_low 9 (shr v 12), bit_and_low 9 (shr w 12), e) in
    let e₂ : p2_index v ≡ p2_index w =
      omega (arith, bit_and_low 9 (shr v 21), bit_and_low 9 (shr w 21), e) in
    let e₃ : p3_index v ≡ p3_index w =
      omega (arith, bit_and_low 9 (shr v 30), bit_and_low 9 (shr w 30), e) in
    let e₄ : p4_index v ≡ p4_index w =
      omega (arith, bit_and_low 9 (shr v 39), bit_and_low 9 (shr w 39), e) in
    (rw (e₂, e₃, e₄), e₁)

path_of-inj :
    (v w : ℕ)
    → path_of v ≡ path_of w
    → (p2_index v ≡ p2_index w) × (p3_index v ≡ p3_index w) × (p4_index v ≡ p4_index w)
path_of-inj v w e = (cc, cc, cc)

pub other_page :
    (v w : ℕ) → page_number v ≢ page_number w → path_of v ≡ path_of w → p1_index v ≢ p1_index w
other_page v w ne e e₁ =
    let (e₂, e₃, e₄) = path_of-inj v w e in
    ne (
      omega (
        arith,
        bit_and_low 9 (shr v 12),
        bit_and_low 9 (shr w 12),
        bit_and_low 9 (shr v 21),
        bit_and_low 9 (shr w 21),
        bit_and_low 9 (shr v 30),
        bit_and_low 9 (shr w 30),
        bit_and_low 9 (shr v 39),
        bit_and_low 9 (shr w 39),
        e₁,
        e₂,
        e₃,
        e₄,
      ))

-- A write to an entry of a page.
module _ (hhdm : ℕ) (tables : Tables) (root : ℕ) (used : ℕ → Bool)
    (tree : IsTree hhdm tables root used) (path : List ℕ) (is_path : IsPath path)
    (last : 2 < length path) (there : reach hhdm tables root path ≢ 0) (i v : ℕ) where
  abbrev written : Tables
  written = set_entry tables (reach hhdm tables root path) i v

  other_entry :
      (q : List ℕ) (j : ℕ)
      → IsPath q
      → reach hhdm tables root q ≢ 0
      → (q ≡ path → j ≢ i)
      → written (reach hhdm tables root q) j ≡ tables (reach hhdm tables root q) j
  other_entry q j hq some_table other =
      elim (Bool-cases (reach hhdm tables root path == reach hhdm tables root q)) [
        | inl same ↦
            let at : reach hhdm tables root q ≡ reach hhdm tables root path = ground arith in
            let ne = ne→== i j (λ e. other (tree.apart q path hq is_path some_table at) (sym e)) in
            rw (same, ne)
        | inr ne ↦ rw ne
      ]

  pub written-reach : (q : List ℕ) → IsPath q → reach hhdm written root q ≡ reach hhdm tables root q
  written-reach [] hq = refl
  written-reach (j ∷ q) hq = rw (written-reach q hq.2) (
      step-same hhdm tables written (reach hhdm tables root q) j
        (λ h. other_entry q j hq.2 h (λ e. absurd (omega (arith, ap length e, hq.1)))))

  written-leaf : leaf hhdm written root path i ≡ v
  written-leaf = rw (
    written-reach path is_path,
    ne→== (reach hhdm tables root path) 0 there,
    eq→== (reach hhdm tables root path) (reach hhdm tables root path) refl,
    eq→== i i refl,
  )

  pub written-leaf_same : (q : List ℕ) (j : ℕ) → q ≡ path → j ≡ i → leaf hhdm written root q j ≡ v
  written-leaf_same q j e ej = rw (e, ej) written-leaf

  pub written-leaf_other :
      (q : List ℕ) (j : ℕ)
      → IsPath q
      → (q ≡ path → j ≢ i)
      → leaf hhdm written root q j ≡ leaf hhdm tables root q j
  written-leaf_other q j hq other = elim (Bool-cases (reach hhdm tables root q == 0)) [
    | inl none_there ↦ rw (written-reach q hq, none_there)
    | inr some_there ↦
        let kept = other_entry q j hq (λ e. ground arith) other in
        rw (written-reach q hq, some_there, kept)
  ]

  pub written-IsTree : IsTree hhdm written root used
  written-IsTree = record {
    has_root = tree.has_root;
    apart = λ p q hp hq some_table same.
        tree.apart p q hp hq (λ e. some_table (written-reach p hp ∙ e))
          (sym (written-reach p hp) ∙ (same ∙ written-reach q hq));
    linked = λ j q hq some_table some_entry none_further.
        let some_old : reach hhdm tables root q ≢ 0 = λ e. some_table (written-reach q hq.2 ∙ e) in
        let kept = other_entry q j hq.2 some_old (λ e. absurd (omega (arith, ap length e, hq.1))) in
        tree.linked j q hq some_old (λ e. some_entry (rw (written-reach q hq.2) (kept ∙ e)))
          (sym (written-reach (j ∷ q) hq) ∙ none_further);
    placed = λ q hq some_table.
        let (own, at, taken) = tree.placed q hq (λ e. some_table (written-reach q hq ∙ e)) in
        (own, written-reach q hq ∙ at, taken);
  }
