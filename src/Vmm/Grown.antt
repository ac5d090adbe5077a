-- ===== src/Vmm/Grown.antt =====
-- A new table keeps the tree, and what the other paths lead to.
use spctrx.Common.{
  Bool, eq→==, ne→==, ◌&&◌, ℕ, ◌+◌, ◌*◌, ◌<◌, ◌≡◌, ◌≢◌, refl, sym, ◌∙◌, ap, true, false, ◌⊎◌, inl,
  inr, List, [], ◌∷◌, arith, length, ◌==◌, Bool-cases,
}
use spctrx.Common.Words.{page_size}
use spctrx.Vmm.Defs.{Tables}
use spctrx.Vmm.Tree.{step, reach, IsPath, leaf, IsTree, Grown, step-zero, step-same}

module _ (hhdm : ℕ) (tables tables' : Tables) (root : ℕ) (used : ℕ → Bool)
    (tree : IsTree hhdm tables root used) (path : List ℕ) (is_path : IsPath path) (i page : ℕ)
    (there : reach hhdm tables root path ≢ 0) (missing : tables (reach hhdm tables root path) i ≡ 0)
    (free : used page ≡ false)
    (grown : Grown hhdm (reach hhdm tables root path) i page tables tables') where
  not_new :
      (q : List ℕ)
      → IsPath q
      → reach hhdm tables root q ≢ 0
      → reach hhdm tables root q ≢ page * page_size + hhdm
  not_new q hq some_table e =
      let (own, at, taken) = tree.placed q hq some_table in
      let same : own ≡ page = omega (arith, at, e) in
      let clear : used own ≡ false = rw same free in cc

  -- The entries of a table that was there, but for the one that leads to the new table.
  entry_same :
      (q : List ℕ) (j : ℕ)
      → IsPath q
      → reach hhdm tables root q ≢ 0
      → ((q ≡ path) → j ≢ i)
      → tables' (reach hhdm tables root q) j ≡ tables (reach hhdm tables root q) j
  entry_same q j hq some_table other =
      let (own, at, taken) = tree.placed q hq some_table in
      rw at (
        grown.others own j
          (λ e. not_new q hq some_table (at ∙ ap (λ (n : ℕ). n * page_size + hhdm) e))
          (elim (Bool-cases (j == i)) [
            | inl same ↦
                let here : j ≡ i = ground arith in
                inl (λ e. other (tree.apart q path hq is_path some_table (at ∙ e)) here)
            | inr ne ↦ inr (λ e. ground arith)
          ]))

  abbrev pub Reaches : List ℕ → Type 0
  Reaches q =
      (reach hhdm tables' root q ≡ reach hhdm tables root q)
      ⊎ ((q ≡ i ∷ path) × (reach hhdm tables' root q ≡ page * page_size + hhdm))

  -- Nothing lay behind the missing entry.
  none_behind : step hhdm tables (reach hhdm tables root path) i ≡ 0
  none_behind = rw (ne→== (reach hhdm tables root path) 0 there, missing)

  new_empty :
      (j : ℕ) (q : List ℕ)
      → reach hhdm tables' root q ≡ page * page_size + hhdm
      → step hhdm tables' (reach hhdm tables' root q) j ≡ 0
  new_empty j q at = elim (Bool-cases (page * page_size + hhdm == 0)) [
    | inl null ↦ rw (at, null)
    | inr some_table ↦ rw (at, some_table, grown.empty j)
  ]

  -- One index further from a table that was there.
  after_old :
      (j : ℕ) (q : List ℕ)
      → IsPath q
      → reach hhdm tables' root q ≡ reach hhdm tables root q
      → reach hhdm tables root q ≢ 0
      → Reaches (j ∷ q)
  after_old j q hq same some_table =
      elim (Bool-cases (reach hhdm tables root q == reach hhdm tables root path && j == i)) [
        | inl both ↦
            let ej : j ≡ i = ground arith in
            let at : reach hhdm tables root q ≡ reach hhdm tables root path = ground arith in
            let eq : q ≡ path = tree.apart q path hq is_path some_table at in
            inr (
              rw (ej, eq),
              rw (same, at, ej, ne→== (reach hhdm tables root path) 0 there) grown.entry,
            )
        | inr other ↦ inl (
            rw same (
              step-same hhdm tables tables' (reach hhdm tables root q) j (λ h.
                entry_same q j hq h (λ e ej.
                  let a =
                    eq→== (reach hhdm tables root q) (reach hhdm tables root path)
                      (ap (reach hhdm tables root) e) in
                  let b = eq→== j i ej in ground arith))))
      ]

  pub grown-reach : (q : List ℕ) → IsPath q → Reaches q
  grown-reach [] hq = inl refl
  grown-reach (j ∷ q) hq = elim (grown-reach q hq.2) [
    | inl same ↦ elim (Bool-cases (reach hhdm tables root q == 0)) [
      | inl none_there ↦ inl (rw (same, none_there))
      | inr some_there ↦ after_old j q hq.2 same (λ e. ground arith)
    ]
    | inr (e, at) ↦ inl (
        new_empty j q at
        ∙ sym (step-zero hhdm tables _ j (ap (reach hhdm tables root) e ∙ none_behind)))
  ]

  pub grown-reach_old :
      (q : List ℕ)
      → IsPath q
      → reach hhdm tables root q ≢ 0
      → reach hhdm tables' root q ≡ reach hhdm tables root q
  grown-reach_old q hq some_table = elim (grown-reach q hq) [
    | inl same ↦ same
    | inr (e, at) ↦ absurd (some_table (ap (reach hhdm tables root) e ∙ none_behind))
  ]

  pub grown-reach_new : reach hhdm tables' root (i ∷ path) ≡ page * page_size + hhdm
  grown-reach_new =
      rw (grown-reach_old path is_path there, ne→== (reach hhdm tables root path) 0 there)
        grown.entry

  none_leaf : (q : List ℕ) (j : ℕ) → reach hhdm tables root q ≡ 0 → leaf hhdm tables root q j ≡ 0
  none_leaf q j e = rw e

  pub grown-leaf :
      (q : List ℕ) (j : ℕ)
      → IsPath q
      → length path < length q
      → leaf hhdm tables' root q j ≡ leaf hhdm tables root q j
  grown-leaf q j hq longer = elim (grown-reach q hq) [
    | inl same ↦ elim (Bool-cases (reach hhdm tables root q == 0)) [
      | inl none_there ↦ rw (same, none_there)
      | inr some_there ↦
          let eq = entry_same q j hq (λ e. ground arith) (λ e. omega (arith, ap length e)) in
          rw (same, some_there, eq)
    ]
    | inr (e, at) ↦ elim (Bool-cases (page * page_size + hhdm == 0)) [
      | inl null ↦ rw (at, null) (sym (none_leaf q j (ap (reach hhdm tables root) e ∙ none_behind)))
      | inr some_table ↦
          rw (at, some_table, grown.empty j)
            (sym (none_leaf q j (ap (reach hhdm tables root) e ∙ none_behind)))
    ]
  ]

  grown_apart :
      (p q : List ℕ)
      → IsPath p
      → IsPath q
      → reach hhdm tables' root p ≢ 0
      → reach hhdm tables' root p ≡ reach hhdm tables' root q
      → p ≡ q
  grown_apart p q hp hq some_table same = elim (grown-reach p hp) [
    | inl old_p ↦
        let there_p : reach hhdm tables root p ≢ 0 = λ e. some_table (old_p ∙ e) in
        elim (grown-reach q hq) [
          | inl old_q ↦ tree.apart p q hp hq there_p (sym old_p ∙ (same ∙ old_q))
          | inr (eq, at_q) ↦ absurd (not_new p hp there_p (sym old_p ∙ (same ∙ at_q)))
        ]
    | inr (ep, at_p) ↦ elim (grown-reach q hq) [
      | inl old_q ↦
          absurd
            (not_new q hq (λ e. some_table (same ∙ (old_q ∙ e))) (sym old_q ∙ (sym same ∙ at_p)))
      | inr (eq, at_q) ↦ ep ∙ sym eq
    ]
  ]

  grown_linked :
      page * page_size + hhdm ≢ 0
      → (j : ℕ) (q : List ℕ) → IsPath (j ∷ q)
      → reach hhdm tables' root q ≢ 0
      → tables' (reach hhdm tables' root q) j ≢ 0
      → reach hhdm tables' root (j ∷ q) ≢ 0
  grown_linked some_page j q hq some_table some_entry none_further = elim (grown-reach q hq.2) [
    | inr (e, at) ↦ some_entry (rw at (grown.empty j))
    | inl same ↦
        elim (Bool-cases (reach hhdm tables root q == reach hhdm tables root path && j == i)) [
          | inl both ↦
              let ej : j ≡ i = ground arith in
              let eq : q ≡ path =
                tree.apart q path hq.2 is_path (λ e. some_table (same ∙ e)) (ground arith) in
              some_page (sym grown-reach_new ∙ (rw (ej, eq) at none_further))
          | inr other ↦
              let some_old : reach hhdm tables root q ≢ 0 = λ e. some_table (same ∙ e) in
              let kept : tables' (reach hhdm tables root q) j
                  ≡ tables (reach hhdm tables root q) j =
                entry_same q j hq.2 some_old (λ e ej.
                  let a =
                    eq→== (reach hhdm tables root q) (reach hhdm tables root path)
                      (ap (reach hhdm tables root) e) in
                  let b = eq→== j i ej in ground arith) in
              let further = tree.linked j q hq some_old (λ e. some_entry (rw same (kept ∙ e))) in
              elim (grown-reach (j ∷ q) hq) [
                | inl same_next ↦ further (sym same_next ∙ none_further)
                | inr (e, at) ↦ some_page (sym at ∙ none_further)
              ]
        ]
  ]

  pub grown-IsTree :
      page * page_size + hhdm ≢ 0
      → (used' : ℕ → Bool) → ((p : ℕ) → used p ≡ true → used' p ≡ true)
      → used' page ≡ true
      → IsTree hhdm tables' root used'
  grown-IsTree some_page used' kept in_use' = record {
    has_root = tree.has_root;
    apart = grown_apart;
    linked = grown_linked some_page;
    placed = λ q hq some_table. elim (grown-reach q hq) [
      | inl same ↦
          let (own, at, taken) = tree.placed q hq (λ e. some_table (same ∙ e)) in
          (own, same ∙ at, kept own taken)
      | inr (e, at) ↦ (page, at, in_use')
    ];
  }
