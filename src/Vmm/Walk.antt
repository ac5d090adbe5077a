-- ===== src/Vmm/Walk.antt =====
-- The walk with allocation, from a tree to a tree.
use spctrx.Common.{
  ltb, leb, ℕ, suc, ◌+◌, ◌*◌, ◌^◌, ◌<◌, ◌≤◌, ◌≡◌, ◌≢◌, refl, true, ◌&&◌, ◌⊎◌, inl, inr, List, ◌∷◌,
  done, panic, arith, length, ◌==◌, if◌then◌else◌, Bool-cases, ne→==, eq→==,
}
use spctrx.Common.Words.{page_size}
use spctrx.Pmm.{in_use, Pmm, Held, Exhausted, Next, here, pmm_alloc, pmm_alloc-Next}
use spctrx.Vmm.Offset.{vmm_phys_to_virt}
use spctrx.Vmm.Defs.{Tables, Vmm, vmm_get_page_table, pmm_zero_alloc, walk_level, set_entry, pte}
use spctrx.Vmm.Translate.{pte-fields}
use spctrx.Vmm.Tree.{reach, IsPath, leaf, IsTree, Grown}
use spctrx.Vmm.Grown.{grown-reach_new, grown-leaf, grown-IsTree}

-- The memory that pages are taken from: their addresses fit an entry, and so do their virtual ones a word.
pub record Fits (hhdm : ℕ) (s₀ : Pmm) : Type 0 where
  pub small : s₀.pages.bits ≤ 2 ^ 50
  pub mapped : s₀.pages.bits * page_size + hhdm ≤ 2 ^ 64

-- After a level of the walk the path goes on to a table, and the entries of the levels below are the same.
pub record Further (hhdm : ℕ) (s₀ : Pmm) (pages : List ℕ) (s : Vmm) (path : List ℕ) (i t : ℕ)
    (s' : Vmm) : Type 0 where
  pub tree : IsTree hhdm s'.tables s'.p4 (in_use s'.pmm)
  pub same_root : s'.p4 ≡ s.p4
  pub same_lock : s'.lock ≡ s.lock
  pub at : reach hhdm s'.tables s'.p4 (i ∷ path) ≡ t
  pub there : t ≢ 0
  pub leaves :
      (q : List ℕ) (j : ℕ)
      → IsPath q
      → length path < length q
      → leaf hhdm s'.tables s'.p4 q j ≡ leaf hhdm s.tables s.p4 q j
  pub taken : List ℕ
  pub held : Held s₀ taken s'.pmm
  pub few : length taken ≤ length pages + 1

-- A level of the walk with allocation at the table `t`: it leads on, or no page is left for it.
abbrev pub LevelResult : ℕ → ℕ → Pmm → List ℕ → Vmm → List ℕ → ℕ → ℕ → Type 0
LevelResult hhdm flags s₀ pages s path i t =
    ((u : ℕ) × (s' : Vmm) × (walk_level hhdm true flags t i s ≡ done (u, s'))
      × Further hhdm s₀ pages s path i u s')
    ⊎ ((walk_level hhdm true flags t i s ≡ panic) × Exhausted s₀ (suc (length pages)))

module _ (hhdm flags : ℕ) (s₀ : Pmm) (fits : Fits hhdm s₀) (flags_small : flags < 2 ^ 12)
    (pages : List ℕ) (s : Vmm) (held : Held s₀ pages s.pmm)
    (tree : IsTree hhdm s.tables s.p4 (in_use s.pmm)) (path : List ℕ) (is_path : IsPath path)
    (i : ℕ) (bound : i < 512) (room : length path < 3)
    (there : reach hhdm s.tables s.p4 path ≢ 0) where
  abbrev table : ℕ
  table = reach hhdm s.tables s.p4 path

  abbrev Result : Type 0
  Result = LevelResult hhdm flags s₀ pages s path i table

  -- The tables after a page has been cleared and put in.
  abbrev with_page : ℕ → Tables
  with_page page =
      set_entry
        (λ t j.
          if leb (page * page_size + hhdm) t && ltb t (page * page_size + hhdm + 1 * page_size)
          then 0
          else s.tables t j)
        table i (pte (page * page_size) flags)

  set_page_other :
      (q j page : ℕ)
      → q ≢ page
      → (q * page_size + hhdm ≢ table) ⊎ (j ≢ i)
      → with_page page (q * page_size + hhdm) j ≡ s.tables (q * page_size + hhdm) j
  set_page_other q j page ne (inl far) = ground arith
  set_page_other q j page ne (inr far) = ground arith

  with_page-Grown :
      (addr : ℕ) (pmm : Pmm) (n : Next s₀ pages s.pmm addr pmm)
      → Grown hhdm table i n.page s.tables (with_page n.page)
  with_page-Grown addr pmm n =
      let (own, at, used) = tree.placed path is_path there in
      let (frame, present) =
        pte-fields (n.page * page_size) flags (omega (arith, n.inside, fits.small)) (omega arith)
          flags_small in
      let distinct : own ≢ n.page = λ e. let free = n.free_now in cc in
      let far : table ≢ n.page * page_size + hhdm = λ e. distinct (omega (arith, at, e)) in
      let set : with_page n.page table i ≡ pte (n.page * page_size) flags =
        rw (eq→== table table refl, eq→== i i refl) in
      let virt : vmm_phys_to_virt hhdm (n.page * page_size) ≡ n.page * page_size + hhdm =
        omega (arith, n.inside, fits.mapped) in
      record {
        entry = rw (set, ne→== (pte (n.page * page_size) flags) 0 present, frame, virt);
        empty = λ j. rw (ne→== table (n.page * page_size + hhdm) far) (ground arith);
        others = λ q j ne other. set_page_other q j n.page ne other;
      }

  new_level :
      (addr : ℕ) (pmm : Pmm)
      → pmm_alloc s.pmm 1 ≡ done (addr, pmm)
      → Next s₀ pages s.pmm addr pmm
      → s.tables table i ≡ 0
      → Result
  unfolding walk_level pmm_zero_alloc
  new_level addr pmm run n missing =
      let grown = with_page-Grown addr pmm n in
      let positive : n.page * page_size + hhdm ≢ 0 = λ e. omega (arith, e, n.positive) in
      let virt : vmm_phys_to_virt hhdm addr ≡ n.page * page_size + hhdm =
        omega (arith, n.inside, fits.mapped, n.address) in
      inl (
        n.page * page_size + hhdm,
        record s { tables = with_page n.page; pmm = pmm },
        rw (
          ne→== table 0 there,
          missing,
          run,
          virt,
          ne→== (n.page * page_size + hhdm) 0 positive,
          n.address,
          grown.entry,
        ),
        record {
          tree =
              grown-IsTree hhdm s.tables (with_page n.page) s.p4 (in_use s.pmm) tree path is_path i
                n.page there missing n.free_now grown positive (in_use pmm) n.still
                (n.held.held n.page (here refl));
          same_root = refl;
          same_lock = refl;
          at =
              grown-reach_new hhdm s.tables (with_page n.page) s.p4 (in_use s.pmm) tree path is_path
                i n.page there missing n.free_now grown;
          there = positive;
          leaves =
              grown-leaf hhdm s.tables (with_page n.page) s.p4 (in_use s.pmm) tree path is_path i
                n.page there missing n.free_now grown;
          taken = n.page ∷ pages;
          held = n.held;
          few = omega arith;
        },
      )

  old_level : s.tables table i ≢ 0 → Result
  unfolding walk_level
  old_level present = inl (
    vmm_get_page_table hhdm (s.tables table i),
    s,
    rw (ne→== table 0 there, ne→== (s.tables table i) 0 present),
    record {
      tree = tree;
      same_root = refl;
      same_lock = refl;
      at = rw (ne→== table 0 there);
      there =
          λ e. tree.linked i path (bound, room, is_path) there present (rw (ne→== table 0 there) e);
      leaves = λ q j hq longer. refl;
      taken = pages;
      held = held;
      few = omega arith;
    },
  )

  no_level :
      pmm_alloc s.pmm 1 ≡ panic → s.tables table i ≡ 0 → Exhausted s₀ (suc (length pages)) → Result
  unfolding walk_level pmm_zero_alloc
  no_level run missing none_left = inr (rw (ne→== table 0 there, missing, run), none_left)

  -- A level of the walk finds the next table or makes it, or no page is left for it.
  level : LevelResult hhdm flags s₀ pages s path i table
  level = elim (Bool-cases (s.tables table i == 0)) [
    | inl missing ↦
        let none_here : s.tables table i ≡ 0 = ground arith in
        elim (pmm_alloc-Next s₀ pages s.pmm held) [
          | inl (addr, pmm, run, n) ↦ new_level addr pmm run n none_here
          | inr (run, none_left) ↦ no_level run none_here none_left
        ]
    | inr present ↦ old_level (λ e. ground arith)
  ]

  pub level_at : (t : ℕ) → table ≡ t → LevelResult hhdm flags s₀ pages s path i t
  level_at t e = rw e at level
