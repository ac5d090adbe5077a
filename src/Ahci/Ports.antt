-- ===== src/Ahci/Ports.antt =====
-- What a port has after `ahciRebase`.
use spctrx.Common.{
  length, length-set, get_elem?-set_ne, get_elem?-lt, get_elem?-set_self, eq→==, bit_and, bit_or, ℕ,
  ◌+◌, ◌*◌, ◌^◌, ◌<◌, ◌≤◌, ◌≡◌, ◌≢◌, refl, true, false, ◌⊎◌, inl, inr, [], ◌∷◌, done, panic, arith,
  get_elem?, set, some, replicate, for_loop, for_loop_inv_or, poll-first,
}
use spctrx.Common.Words.{page_size, u64_low, u64_high, u64_join}
use spctrx.Pmm.{pmm_alloc, Pmm, in_use, IsValid, Held-start, here, Exhausted, Next, pmm_alloc-Next}
use spctrx.Vmm.{vmm_phys_to_virt, vmm_virt_to_phys}
use spctrx.Ahci.Defs.{HbaPort, HbaMem, store}
use spctrx.Ahci.Start.{
  Engine, Setup, no_header, clear_of, cmd_stopped, ahci_cmd_start, ahci_cmd_stop, ahci_rebase,
  rebase_slot,
}
use spctrx.Ahci.Rebase.{u64_join-halves, Ready, slot_round}

-- The device stops within the fuel, and is then not running.
pub record Obeys (dev : Engine) (fuel : ℕ) : Type 0 where
  pub rounds : ℕ
  pub in_time : rounds < fuel
  pub runs_until : (k : ℕ) → k < rounds → cmd_stopped dev k ≡ false
  pub stops : cmd_stopped dev rounds ≡ true
  pub waits : ℕ
  pub waits_in_time : waits < fuel
  pub busy_until : (k : ℕ) → k < waits → clear_of 0x8000 (dev.waiting k) ≡ false
  pub idle : clear_of 0x8000 (dev.waiting waits) ≡ true

-- The other ports stay; this one is known by pages of its own: one for the command list, whose 32 headers are ready, and one
-- for what the device receives.
pub record Rebased (hhdm : ℕ) (s₀ : Pmm) (before : HbaMem) (p : ℕ) (old : HbaPort) (hba : HbaMem)
    (pmm : Pmm) : Type 0 where
  pub port : HbaPort
  pub has_port : get_elem? hba.ports p ≡ some port
  pub same_count : length hba.ports ≡ length before.ports
  pub same_ports : (q : ℕ) → p ≢ q → get_elem? hba.ports q ≡ get_elem? before.ports q
  pub same_cap : hba.cap ≡ before.cap
  pub same_s_act : port.s_act ≡ old.s_act
  pub same_ci : port.ci ≡ old.ci
  pub cl : ℕ
  pub fis : ℕ
  pub clb : u64_join port.clb port.clb_up ≡ cl * page_size
  pub fb : u64_join port.fb port.fb_up ≡ fis * page_size
  pub ready :
      Ready hhdm s₀
        (fis ∷ cl ∷ [])
        32
        (record { list = hba.headers (cl * page_size + hhdm); tables = hba.tables; pmm = pmm })
  pub cl_inside : cl < s₀.pages.bits
  pub apart : cl ≢ fis
  pub cl_free : in_use s₀ cl ≡ false
  pub fis_free : in_use s₀ fis ≡ false

Exhausted-weaken : (s₀ : Pmm) {n m : ℕ} → n ≤ m → Exhausted s₀ n → Exhausted s₀ m
Exhausted-weaken s₀ le (pages, few, all_in) = (pages, omega (arith, few, le), all_in)

module _ (hhdm : ℕ) (dev : Engine) (fuel : ℕ) (obeys : Obeys dev fuel) (s₀ : Pmm) (v : IsValid s₀)
    (mapped : s₀.pages.bits * page_size + hhdm ≤ 2 ^ 64) (hba : HbaMem) (p : ℕ) (old : HbaPort)
    (has_port : get_elem? hba.ports p ≡ some old) where
  Result : Type 0
  Result =
      ((hba' : HbaMem) × (pmm' : Pmm) × (ahci_rebase hhdm dev fuel p hba s₀ ≡ done (hba', pmm'))
        × Rebased hhdm s₀ hba p old hba' pmm')
      ⊎ ((ahci_rebase hhdm dev fuel p hba s₀ ≡ panic) × Exhausted s₀ 34)

  stopped : HbaPort
  stopped = record old {
    cmd = bit_and (dev.modify 1 (bit_and (dev.modify 0 old.cmd) 0xfffffffe)) 0xffffffef;
  }

  stop_runs : ahci_cmd_stop dev fuel old ≡ done stopped
  unfolding ahci_cmd_stop stopped
  stop_runs =
      rw (poll-first fuel obeys.rounds (cmd_stopped dev) obeys.in_time obeys.runs_until obeys.stops)

  started : HbaPort → HbaPort
  started port = record port {
    cmd = bit_or (dev.modify 3 (bit_or (dev.modify 2 port.cmd) 0x0001)) 0x0010;
  }

  start_runs : (port : HbaPort) → ahci_cmd_start dev fuel port ≡ done (started port)
  unfolding ahci_cmd_start started
  start_runs port = rw (
      poll-first fuel obeys.waits (λ k. clear_of 0x8000 (dev.waiting k)) obeys.waits_in_time
        obeys.busy_until obeys.idle)

  based : ℕ → ℕ → HbaPort
  unfolding stopped
  based clb fb = record stopped {
    clb = u64_low clb;
    clb_up = u64_high clb;
    fb = u64_low fb;
    fb_up = u64_high fb;
  }

  -- A page as the code reaches it: its address in the direct map, and back.
  virt_of :
      (page : ℕ)
      → page < s₀.pages.bits
      → vmm_phys_to_virt hhdm (page * page_size) ≡ page * page_size + hhdm
  virt_of page h = omega arith

  phys_of :
      (page : ℕ)
      → page < s₀.pages.bits
      → vmm_virt_to_phys hhdm (page * page_size + hhdm) ≡ page * page_size
  phys_of page h = omega arith

  first_setup : Pmm → Setup
  first_setup pmm = record { list = replicate 128 no_header; tables = hba.tables; pmm = pmm }

  from_loop :
      (pmm₁ pmm₂ : Pmm) (cl_addr fis_addr : ℕ)
      → pmm_alloc s₀ 1 ≡ done (cl_addr, pmm₁)
      → (n₁ : Next s₀ [] s₀ cl_addr pmm₁) → pmm_alloc pmm₁ 1 ≡ done (fis_addr, pmm₂)
      → (n₂ : Next s₀ (n₁.page ∷ []) pmm₁ fis_addr pmm₂)
      → ((s' : Setup) × (for_loop 32 0 (rebase_slot hhdm) (first_setup pmm₂) ≡ done s')
          × Ready hhdm s₀ (n₂.page ∷ n₁.page ∷ []) 32 s')
        ⊎ ((for_loop 32 0 (rebase_slot hhdm) (first_setup pmm₂) ≡ panic) × Exhausted s₀ 34)
      → Result
  unfolding Result first_setup ahci_rebase stopped started based
  from_loop pmm₁ pmm₂ cl_addr fis_addr run₁ n₁ run₂ n₂ (inl (s', loop, r)) =
      let cl : ℕ = n₁.page * page_size in
      let fb : ℕ = n₂.page * page_size in
      let at₁ : vmm_phys_to_virt hhdm cl_addr ≡ cl + hhdm =
        rw n₁.address (virt_of n₁.page n₁.inside) in
      let at₂ : vmm_phys_to_virt hhdm fis_addr ≡ fb + hhdm =
        rw n₂.address (virt_of n₂.page n₂.inside) in
      let clb : vmm_virt_to_phys hhdm (cl + hhdm) ≡ cl = phys_of n₁.page n₁.inside in
      let fb_phys : vmm_virt_to_phys hhdm (fb + hhdm) ≡ fb = phys_of n₂.page n₂.inside in
      let port' = started (based cl fb) in
      let self : store hba.headers (cl + hhdm) s'.list (cl + hhdm) ≡ s'.list =
        rw (eq→== (cl + hhdm) (cl + hhdm) refl) in
      let apart : n₁.page ≢ n₂.page =
        λ e. let used = n₁.held.held n₁.page (here refl) in let free = n₂.free_now in cc in
      inl (
        record hba {
          ports = set hba.ports p port';
          headers = store hba.headers (cl + hhdm) s'.list;
          tables = s'.tables;
        },
        s'.pmm,
        rw (
          has_port,
          stop_runs,
          run₁,
          at₁,
          clb,
          run₂,
          at₂,
          fb_phys,
          loop,
          start_runs (based cl fb),
        ),
        record {
          port = port';
          has_port = get_elem?-set_self hba.ports p port' (get_elem?-lt hba.ports p has_port);
          same_count = length-set hba.ports p port';
          same_ports = λ q ne. get_elem?-set_ne hba.ports p q port' ne;
          same_cap = refl;
          same_s_act = refl;
          same_ci = refl;
          cl = n₁.page;
          fis = n₂.page;
          clb = u64_join-halves cl (omega (arith, n₁.inside));
          fb = u64_join-halves fb (omega (arith, n₂.inside));
          ready = rw self r;
          cl_inside = n₁.inside;
          apart = apart;
          cl_free = n₁.free_before;
          fis_free = n₂.free_before;
        },
      )
  from_loop pmm₁ pmm₂ cl_addr fis_addr run₁ n₁ run₂ n₂ (inr (stop, why)) =
      inr (rw (has_port, stop_runs, run₁, run₂, stop), why)

  with_both :
      (pmm₁ : Pmm) (cl_addr : ℕ)
      → pmm_alloc s₀ 1 ≡ done (cl_addr, pmm₁)
      → (n₁ : Next s₀ [] s₀ cl_addr pmm₁) → Result
  unfolding Result ahci_rebase first_setup
  with_both pmm₁ cl_addr run₁ n₁ = elim (pmm_alloc-Next s₀ (n₁.page ∷ []) pmm₁ n₁.held) [
    | inl (fis_addr, pmm₂, run₂, n₂) ↦ from_loop pmm₁ pmm₂ cl_addr fis_addr run₁ n₁ run₂ n₂ (
        for_loop_inv_or (Ready hhdm s₀ (n₂.page ∷ n₁.page ∷ [])) (Exhausted s₀ 34)
          (rebase_slot hhdm) 32 (slot_round hhdm s₀ (n₂.page ∷ n₁.page ∷ []) mapped) 32 0
          (first_setup pmm₂) refl
          (record {
            pages = n₂.page ∷ n₁.page ∷ [];
            counted = refl;
            held = n₂.held;
            before = λ q m. m;
            sized = refl;
            slots = λ j h. absurd (omega arith);
            distinct = λ j k jk h. absurd (omega arith);
          }))
    | inr (stop, why) ↦
        inr (rw (has_port, stop_runs, run₁, stop), Exhausted-weaken s₀ (omega arith) why)
  ]

  run_all : Result
  unfolding Result ahci_rebase
  run_all = elim (pmm_alloc-Next s₀ [] s₀ (Held-start s₀ v)) [
    | inl (cl_addr, pmm₁, run₁, n₁) ↦ with_both pmm₁ cl_addr run₁ n₁
    | inr (stop, why) ↦ inr (rw (has_port, stop_runs, stop), Exhausted-weaken s₀ (omega arith) why)
  ]

-- For a device that stops and then is idle within the fuel, a valid page allocator whose pages are all
-- mapped, and a port that there is, `ahciRebase` gives the port a command list of 32 headers, each with
-- eight entries and a cleared table, and a page for what it receives, all of them in pages of their own
-- that were free; the allocator stays valid. Only if fewer than 34 pages were free the kernel panics.
pub ahci_rebase-Rebased :
    (hhdm : ℕ) (dev : Engine) (fuel : ℕ) (s₀ : Pmm) (hba : HbaMem) (p : ℕ) (old : HbaPort)
    → Obeys dev fuel
    → IsValid s₀
    → s₀.pages.bits * page_size + hhdm ≤ 2 ^ 64
    → get_elem? hba.ports p ≡ some old
    → ((hba' : HbaMem) × (pmm' : Pmm) × (ahci_rebase hhdm dev fuel p hba s₀ ≡ done (hba', pmm'))
        × Rebased hhdm s₀ hba p old hba' pmm')
      ⊎ ((ahci_rebase hhdm dev fuel p hba s₀ ≡ panic) × Exhausted s₀ 34)
unfolding Result
ahci_rebase-Rebased hhdm dev fuel s₀ hba p old obeys v mapped has_port =
    run_all hhdm dev fuel obeys s₀ v mapped hba p old has_port
