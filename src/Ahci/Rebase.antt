-- ===== src/Ahci/Rebase.antt =====
-- The memory of a port: the loop over the headers of its command list.
use spctrx.Common.{
  Bool-cases, ltb, eq→==, ne→==, get_elem?-get_or, get_or-set_self, length-set, get_or,
  get_or-set_ne, ℕ, suc, ◌+◌, ◌*◌, ◌^◌, ◌<◌, ◌≤◌, ◌≡◌, ◌≢◌, refl, sym, ◌∙◌, false, ◌⊎◌, inl, inr,
  List, ◌∷◌, done, panic, arith, length, set, get_elem?, some,
}
use spctrx.Common.Words.{page_size, u64_low, u64_high, u64_join, shr}
use spctrx.Common.Bits.{bit_and_low}
use spctrx.Pmm.{Pmm, in_use, Held, Among, here, there, Exhausted, Next, pmm_alloc-Next}
use spctrx.Vmm.{vmm_phys_to_virt, vmm_virt_to_phys}
use spctrx.Ahci.Defs.{HbaCmdHeader, store}
use spctrx.Ahci.Start.{Setup, no_header, no_table, rebase_slot}

-- What is written in two halves is read as it was.
pub u64_join-halves : (x : ℕ) → x < 2 ^ 64 → u64_join (u64_low x) (u64_high x) ≡ x
unfolding u64_join u64_low u64_high
u64_join-halves x h = rw (bit_and_low 32 x, bit_and_low 32 (shr x 32)) (omega arith)

-- The table of header `j`.
abbrev pub table_phys : List HbaCmdHeader → ℕ → ℕ
table_phys list j = let h = get_or list j no_header in u64_join h.ctb_addr h.ctb_addr_up

-- Header `j` has eight entries and a cleared table, in a page that was free and is not one of `taken`.
pub record ReadyHeader (hhdm : ℕ) (s₀ : Pmm) (taken : List ℕ) (s : Setup) (pages : List ℕ) (j : ℕ)
    : Type 0 where
  pub page : ℕ
  pub at : table_phys s.list j ≡ page * page_size
  pub entries : (get_or s.list j no_header).prdt_len ≡ 8
  pub inside : page < s₀.pages.bits
  pub free_before : in_use s₀ page ≡ false
  pub held : Among page pages
  pub other : Among page taken → ⊥
  pub cleared : s.tables (page * page_size + hhdm) ≡ no_table

-- The first `i` headers are ready, with tables in pages that differ.
pub record Ready (hhdm : ℕ) (s₀ : Pmm) (taken : List ℕ) (i : ℕ) (s : Setup) : Type 0 where
  pub pages : List ℕ
  pub counted : length pages ≡ i + 2
  pub held : Held s₀ pages s.pmm
  pub before : (q : ℕ) → Among q taken → Among q pages
  pub sized : length s.list ≡ 128
  pub slots : (j : ℕ) → j < i → ReadyHeader hhdm s₀ taken s pages j
  pub distinct : (j k : ℕ) → j < k → k < i → table_phys s.list j ≢ table_phys s.list k

pub lt_suc_cases : (j i : ℕ) → j < suc i → (j < i) ⊎ (j ≡ i)
lt_suc_cases j i h = elim (Bool-cases (ltb j i)) [
  | inl less ↦ inl (ground arith)
  | inr more ↦ inr (ground arith)
]

-- The header of a round, with its table at a physical address.
abbrev filled : HbaCmdHeader → ℕ → HbaCmdHeader
filled header phys = record header {
  prdt_len = 8;
  ctb_addr = u64_low phys;
  ctb_addr_up = u64_high phys;
}

abbrev after_slot : ℕ → ℕ → Setup → ℕ → Pmm → Setup
after_slot hhdm i s phys pmm = record {
  list = set s.list i (filled (get_or s.list i no_header) phys);
  tables = store s.tables (phys + hhdm) no_table;
  pmm = pmm;
}

module _ (hhdm : ℕ) (s₀ : Pmm) (taken : List ℕ) (mapped : s₀.pages.bits * page_size + hhdm ≤ 2 ^ 64)
    (i : ℕ) (s : Setup) (r : Ready hhdm s₀ taken i s) (lt : i < 32) (addr : ℕ) (pmm : Pmm)
    (n : Next s₀ r.pages s.pmm addr pmm) where
  apart : (j : ℕ) (slot : ReadyHeader hhdm s₀ taken s r.pages j) → slot.page ≢ n.page
  apart j slot e = let used = r.held.held slot.page slot.held in let free = n.free_now in cc

  self :
      get_or (after_slot hhdm i s (n.page * page_size) pmm).list i no_header
      ≡ filled (get_or s.list i no_header) (n.page * page_size)
  self =
      get_or-set_self s.list i (filled (get_or s.list i no_header) (n.page * page_size)) no_header
        (omega (arith, r.sized))

  table_phys_self :
      table_phys (after_slot hhdm i s (n.page * page_size) pmm).list i ≡ n.page * page_size
  table_phys_self = rw self (u64_join-halves (n.page * page_size) (omega (arith, n.inside)))

  new_slot :
      ReadyHeader hhdm s₀ taken (after_slot hhdm i s (n.page * page_size) pmm) (n.page ∷ r.pages) i
  new_slot = record {
    page = n.page;
    at = table_phys_self;
    entries = rw self;
    inside = n.inside;
    free_before = n.free_before;
    held = here refl;
    other = λ m. let used = r.held.held n.page (r.before n.page m) in let free = n.free_now in cc;
    cleared = rw (eq→== (n.page * page_size + hhdm) (n.page * page_size + hhdm) refl);
  }

  old_slot :
      (j : ℕ)
      → j < i
      → ReadyHeader hhdm s₀ taken
          (after_slot hhdm i s (n.page * page_size) pmm)
          (n.page ∷ r.pages)
          j
  old_slot j before =
      let slot = r.slots j before in
      let ne = apart j slot in
      let same =
        get_or-set_ne s.list i j (filled (get_or s.list i no_header) (n.page * page_size)) no_header
          (λ e. omega (arith, e)) in
      record {
        page = slot.page;
        at = rw same slot.at;
        entries = rw same slot.entries;
        inside = slot.inside;
        free_before = slot.free_before;
        held = there slot.held;
        other = slot.other;
        cleared =
            rw
              (ne→== (n.page * page_size + hhdm) (slot.page * page_size + hhdm)
                (λ e. ne (omega (arith, e))))
              slot.cleared;
      }

  all_slots :
      (j : ℕ)
      → j < suc i
      → ReadyHeader hhdm s₀ taken
          (after_slot hhdm i s (n.page * page_size) pmm)
          (n.page ∷ r.pages)
          j
  all_slots j h = elim (lt_suc_cases j i h) [
    | inl before ↦ old_slot j before
    | inr e ↦ rw e new_slot
  ]

  untouched :
      (j : ℕ)
      → j < i
      → table_phys (after_slot hhdm i s (n.page * page_size) pmm).list j ≡ table_phys s.list j
  untouched j before = rw (
      get_or-set_ne s.list i j (filled (get_or s.list i no_header) (n.page * page_size)) no_header
        (λ e. omega (arith, e)))

  all_distinct :
      (j k : ℕ)
      → j < k
      → k < suc i
      → table_phys (after_slot hhdm i s (n.page * page_size) pmm).list j
        ≢ table_phys (after_slot hhdm i s (n.page * page_size) pmm).list k
  all_distinct j k jk ki same = elim (lt_suc_cases k i ki) [
    | inl before ↦
        r.distinct j k jk before (sym (untouched j (omega arith)) ∙ (same ∙ untouched k before))
    | inr e ↦
        let slot = r.slots j (omega arith) in
        let ours : table_phys (after_slot hhdm i s (n.page * page_size) pmm).list k
            ≡ n.page * page_size =
          rw e table_phys_self in
        let both : slot.page * page_size ≡ n.page * page_size =
          sym slot.at ∙ (sym (untouched j (omega arith)) ∙ (same ∙ ours)) in
        apart j slot (omega (arith, both))
  ]

  next_Ready : Ready hhdm s₀ taken (suc i) (after_slot hhdm i s (n.page * page_size) pmm)
  next_Ready = record {
    pages = n.page ∷ r.pages;
    counted = omega (arith, r.counted);
    held = n.held;
    before = λ q m. there (r.before q m);
    sized = length-set s.list i (filled (get_or s.list i no_header) (n.page * page_size)) ∙ r.sized;
    slots = all_slots;
    distinct = all_distinct;
  }

module _ (hhdm : ℕ) (s₀ : Pmm) (taken : List ℕ)
    (mapped : s₀.pages.bits * page_size + hhdm ≤ 2 ^ 64) where
  pub slot_round :
      (i : ℕ) (s : Setup)
      → i < 32
      → Ready hhdm s₀ taken i s
      → ((s' : Setup) × (rebase_slot hhdm i s ≡ done s') × Ready hhdm s₀ taken (suc i) s')
        ⊎ ((rebase_slot hhdm i s ≡ panic) × Exhausted s₀ 34)
  unfolding rebase_slot
  slot_round i s lt r =
      let header : get_elem? s.list i ≡ some (get_or s.list i no_header) =
        get_elem?-get_or s.list i no_header (omega (arith, r.sized)) in
      elim (pmm_alloc-Next s₀ r.pages s.pmm r.held) [
        | inl (addr, pmm, run, n) ↦
            let virt : vmm_phys_to_virt hhdm addr ≡ n.page * page_size + hhdm =
              omega (arith, n.address, n.inside) in
            let phys : vmm_virt_to_phys hhdm (n.page * page_size + hhdm) ≡ n.page * page_size =
              omega (arith, n.inside) in
            inl (
              after_slot hhdm i s (n.page * page_size) pmm,
              rw (header, run, virt, phys),
              next_Ready hhdm s₀ taken mapped i s r lt addr pmm n,
            )
        | inr (stop, (pages, few, all_in)) ↦
            inr (rw (header, stop), (pages, omega (arith, few, r.counted), all_in))
      ]
