-- ===== src/Ahci/Search.antt =====
-- The search for disks: which ports are prepared.
use spctrx.Common.{
  sym, ◌++◌, ◌∷◌, ℕ, zero, suc, ◌+◌, ◌*◌, ◌^◌, ◌<◌, ◌≤◌, ◌≡◌, refl, ◌∙◌, true, false, ◌⊎◌, inl, inr,
  List, [], done, panic, arith, length, get_elem?, some, bit_and, ◌==◌, for_loop_inv_or, Bool-cases,
}
use spctrx.Common.Words.{page_size, shr, u64_join}
use spctrx.Pmm.{
  Pmm, in_use, IsValid, Held, Held-start, Held-then, Among, here, there, Among-left, Among-right,
  Exhausted,
}
use spctrx.Ahci.Defs.{HbaPort, HbaMem, ahci_check_type}
use spctrx.Ahci.Start.{Engine, is_sata, past_page, enum_port, ahci_enum}
use spctrx.Ahci.Rebase.{lt_suc_cases}
use spctrx.Ahci.Ports.{Obeys, Rebased, ahci_rebase-Rebased}

-- Port `q` is there and has a SATA disk.
pub record IsDisk (pi : ℕ) (hba : HbaMem) (q : ℕ) : Type 0 where
  pub port : HbaPort
  pub has_port : get_elem? hba.ports q ≡ some port
  pub listed : (bit_and (shr pi q) 1 == 0) ≡ false
  pub disk : is_sata (ahci_check_type port) ≡ true

-- Port `q` has a command list in a page that was free.
pub record HasList (s₀ : Pmm) (pages : List ℕ) (hba : HbaMem) (q : ℕ) : Type 0 where
  pub port : HbaPort
  pub has_port : get_elem? hba.ports q ≡ some port
  pub page : ℕ
  pub at : u64_join port.clb port.clb_up ≡ page * page_size
  pub free_before : in_use s₀ page ≡ false
  pub held : Among page pages

-- After the first `i` ports: exactly the disks among them have been prepared.
pub record Searched (pi : ℕ) (hba₀ : HbaMem) (s₀ : Pmm) (i : ℕ) (s : HbaMem × Pmm) : Type 0 where
  pub pages : List ℕ
  pub held : Held s₀ pages s.1
  pub same_count : length s.0.ports ≡ length hba₀.ports
  pub ahead : (q : ℕ) → i ≤ q → get_elem? s.0.ports q ≡ get_elem? hba₀.ports q
  pub others : (q : ℕ) → (IsDisk pi hba₀ q → ⊥) → get_elem? s.0.ports q ≡ get_elem? hba₀.ports q
  pub disks : (q : ℕ) → q < i → IsDisk pi hba₀ q → HasList s₀ pages s.0 q

port_at :
    (ports : List HbaPort) (i : ℕ)
    → i < length ports
    → (port : HbaPort) × (get_elem? ports i ≡ some port)
port_at [] i h = absurd (omega arith)
port_at (port ∷ ports) zero h = (port, refl)
port_at (port ∷ ports) (suc i) h = port_at ports i (omega arith)

-- At some point of the search there were fewer than 34 free pages.
abbrev pub RanOut : Pmm → Type 0
RanOut s₀ = (pages : List ℕ) × (s₁ : Pmm) × Held s₀ pages s₁ × Exhausted s₁ 34

module _ (hhdm : ℕ) (devs : ℕ → Engine) (fuel pi : ℕ) (hba₀ : HbaMem) (s₀ : Pmm)
    (obey : (i : ℕ) → Obeys (devs i) fuel) (mapped : s₀.pages.bits * page_size + hhdm ≤ 2 ^ 64)
    (count : length hba₀.ports ≡ 32)
    (low : (i : ℕ) → past_page i ≡ true → (bit_and (shr pi i) 1 == 0) ≡ true) where
  RoundResult : ℕ → HbaMem × Pmm → Type 0
  RoundResult i s =
      ((s' : HbaMem × Pmm) × (enum_port hhdm devs fuel pi i s ≡ done s')
        × Searched pi hba₀ s₀ (suc i) s')
      ⊎ ((enum_port hhdm devs fuel pi i s ≡ panic) × RanOut s₀)

  -- A port that is not a disk is passed over.
  passed :
      (i : ℕ) (s : HbaMem × Pmm)
      → Searched pi hba₀ s₀ i s
      → (IsDisk pi hba₀ i → ⊥)
      → Searched pi hba₀ s₀ (suc i) s
  passed i s h none_here = record {
    pages = h.pages;
    held = h.held;
    same_count = h.same_count;
    ahead = λ q le. h.ahead q (omega arith);
    others = h.others;
    disks = λ q lt d. elim (lt_suc_cases q i lt) [
      | inl less ↦ h.disks q less d
      | inr same ↦ absurd (none_here (rw same at d))
    ];
  }

  -- A port that was prepared.
  prepared :
      (i : ℕ) (s : HbaMem × Pmm) (old : HbaPort) (hba : HbaMem) (pmm : Pmm)
      → Searched pi hba₀ s₀ i s
      → IsDisk pi hba₀ i
      → Rebased hhdm s.1 s.0 i old hba pmm
      → Searched pi hba₀ s₀ (suc i) (hba, pmm)
  prepared i s old hba pmm h here_disk r = record {
    pages = r.ready.pages ++ h.pages;
    held = Held-then s₀ s.1 pmm r.ready.pages h.pages h.held r.ready.held;
    same_count = r.same_count ∙ h.same_count;
    ahead = λ q le. r.same_ports q (λ e. omega (arith, e)) ∙ h.ahead q (omega arith);
    others = λ q none_there.
        r.same_ports q (λ e. none_there (rw e at here_disk)) ∙ h.others q none_there;
    disks = λ q lt d. elim (lt_suc_cases q i lt) [
      | inl less ↦
          let before = h.disks q less d in
          record {
            port = before.port;
            has_port = r.same_ports q (λ e. omega (arith, e)) ∙ before.has_port;
            page = before.page;
            at = before.at;
            free_before = before.free_before;
            held = Among-right r.ready.pages before.held;
          }
      | inr same ↦ record {
        port = r.port;
        has_port = rw same r.has_port;
        page = r.cl;
        at = r.clb;
        free_before = elim (Bool-cases (in_use s₀ r.cl)) [
          | inl used ↦ let now = h.held.kept r.cl used in let free = r.cl_free in cc
          | inr unused ↦ unused
        ];
        held = Among-left h.pages (r.ready.before r.cl (there (here refl)));
      }
    ];
  }

  mapped_port : (i : ℕ) → (bit_and (shr pi i) 1 == 0) ≡ false → past_page i ≡ false
  mapped_port i listed = elim (Bool-cases (past_page i)) [
    | inl past ↦ let absent = low i past in absurd (cc)
    | inr inside ↦ inside
  ]

  round : (i : ℕ) (s : HbaMem × Pmm) → i < 32 → Searched pi hba₀ s₀ i s → RoundResult i s
  unfolding RoundResult enum_port
  round i s lt h =
      let (port, has_port) = port_at s.0.ports i (omega (arith, h.same_count, count)) in
      elim (Bool-cases (bit_and (shr pi i) 1 == 0)) [
        | inl absent ↦ inl (s, rw absent, passed i s h (λ d. let listed = d.listed in cc))
        | inr listed ↦
            let inside = mapped_port i listed in
            elim (Bool-cases (is_sata (ahci_check_type port))) [
              | inl disk ↦
                  elim (ahci_rebase-Rebased hhdm (devs i) fuel s.1 s.0 i port (obey i) h.held.valid
                    (rw h.held.same_bits mapped) has_port) [
                      | inl (hba, pmm, run, r) ↦
                          let here_disk : IsDisk pi hba₀ i = record {
                            port = port;
                            has_port = sym (h.ahead i (omega arith)) ∙ has_port;
                            listed = listed;
                            disk = disk;
                          } in
                          inl (
                            (hba, pmm),
                            rw (listed, inside, has_port, disk, run),
                            prepared i s port hba pmm h here_disk r,
                          )
                      | inr (stop, why) ↦
                          inr
                            (rw (listed, inside, has_port, disk, stop), (h.pages, s.1, h.held, why))
                    ]
              | inr other ↦ inl (
                s,
                rw (listed, inside, has_port, other),
                passed i s h (λ d.
                    let there_port : some port ≡ some d.port =
                      sym has_port ∙ (h.ahead i (omega arith) ∙ d.has_port) in
                    let same : port ≡ d.port = cc in
                    let disk = d.disk in
                    let contra : is_sata (ahci_check_type d.port) ≡ false = rw (← same) other in
                    cc),
              )
            ]
      ]

-- From a valid page allocator whose pages are all mapped, with 32 ports of which the last two are not listed,
-- and devices that stop and then are idle within the fuel, `ahciEnum` leaves every port that is not listed or has no SATA disk as it was, and
-- gives every other one a command list in a page that was free. Only if at some point fewer than 34 pages
-- are free the kernel panics.
pub ahci_enum-Searched :
    (hhdm : ℕ) (devs : ℕ → Engine) (fuel pi : ℕ) (hba : HbaMem) (s₀ : Pmm)
    → ((i : ℕ) → Obeys (devs i) fuel)
    → IsValid s₀
    → s₀.pages.bits * page_size + hhdm ≤ 2 ^ 64
    → length hba.ports ≡ 32
    → ((i : ℕ) → past_page i ≡ true → (bit_and (shr pi i) 1 == 0) ≡ true)
    → ((s' : HbaMem × Pmm) × (ahci_enum hhdm devs fuel pi (hba, s₀) ≡ done s')
        × Searched pi hba s₀ 32 s')
      ⊎ ((ahci_enum hhdm devs fuel pi (hba, s₀) ≡ panic) × RanOut s₀)
unfolding ahci_enum RoundResult
ahci_enum-Searched hhdm devs fuel pi hba s₀ obey v mapped count low =
    for_loop_inv_or (Searched pi hba s₀) (RanOut s₀) (enum_port hhdm devs fuel pi) 32
      (round hhdm devs fuel pi hba s₀ obey mapped count low) 32 0 (hba, s₀) refl
      (record {
        pages = [];
        held = Held-start s₀ v;
        same_count = refl;
        ahead = λ q le. refl;
        others = λ q none_there. refl;
        disks = λ q lt d. absurd (omega arith);
      })
