-- ===== src/Ahci/Attached.antt =====
-- Transfers to a port that `ahciRebase` has prepared.
use spctrx.Common.{
  ap, ◌==◌, ◌∙◌, Bool-cases, Option, ℕ, ◌+◌, ◌*◌, ◌^◌, ◌<◌, ◌≤◌, ◌≡◌, false, ◌⊎◌, inl, inr, Bool,
  not, done, panic, arith, get_elem?, get_elem?-get_or, get_or, some, bit_or,
}
use spctrx.Common.Words.{page_size, u64_join}
use spctrx.Pmm.{Pmm, in_use, IsValid, Exhausted}
use spctrx.Vmm.{vmm_phys_to_virt, vmm_virt_to_phys}
use spctrx.Ahci.Defs.{
  HbaCmdHeader, HbaPort, HbaMem, Answers, ahci_read_or_write, ahci_cmd_find_free, failed,
}
use spctrx.Ahci.Slots.{Slot, free, full, ahci_cmd_find_free-Slot}
use spctrx.Ahci.Transfer.{Found, Asks, Describes, Responds, ahci_read_or_write-Asks}
use spctrx.Ahci.Start.{Engine, ahci_rebase, no_header}
use spctrx.Ahci.Ports.{Obeys, Rebased, ahci_rebase-Rebased}

-- A slot that the search finds is one of the first sixteen.
Slot-bound : (slots n slot : ℕ) (o : Option ℕ) → Slot slots n o → o ≡ some slot → n < 16 → slot < 16
Slot-bound slots n slot o (free r e lt clear before) found small =
    let same : r ≡ slot = cc (e, found) in omega (arith, lt, small, same)
Slot-bound slots n slot o (full e used) found small = cc (e, found)

find_free_bound :
    (cap : ℕ) (port : HbaPort) (slot : ℕ) → ahci_cmd_find_free cap port ≡ some slot → slot < 16
find_free_bound cap port slot found =
    let (n, e, at) = ahci_cmd_find_free-Slot cap port in
    Slot-bound (bit_or port.s_act port.ci) n slot (ahci_cmd_find_free cap port) at found
      (omega (arith, e))

find_free-same :
    (cap cap' : ℕ) (port port' : HbaPort)
    → cap' ≡ cap
    → port'.s_act ≡ port.s_act
    → port'.ci ≡ port.ci
    → ahci_cmd_find_free cap' port' ≡ ahci_cmd_find_free cap port
unfolding ahci_cmd_find_free
find_free-same cap cap' port port' ec es ei = rw (ec, es, ei)

-- Page 0 is not one of those that were free.
not_page_zero : (s₀ : Pmm) (page : ℕ) → IsValid s₀ → in_use s₀ page ≡ false → 0 < page
not_page_zero s₀ page v unused = elim (Bool-cases (page == 0)) [
  | inl zero ↦
      let at : page ≡ 0 = ground arith in
      let used = v.zero_reserved in let clear : in_use s₀ 0 ≡ false = rw at at unused in cc
  | inr more ↦ ground arith
]

-- After `ahciRebase` the slot that was free is found, with its header and table.
Rebased-Found :
    (hhdm : ℕ) (s₀ : Pmm) (before : HbaMem) (p : ℕ) (old : HbaPort) (hba : HbaMem) (pmm : Pmm)
    (slot : ℕ)
    → IsValid s₀
    → s₀.pages.bits * page_size + hhdm ≤ 2 ^ 64
    → ahci_cmd_find_free before.cap old ≡ some slot
    → (r : Rebased hhdm s₀ before p old hba pmm)
    → (page : ℕ) × (in_use s₀ page ≡ false)
      × ((get_or (hba.headers (r.cl * page_size + hhdm)) slot no_header).prdt_len ≡ 8)
      × Found hhdm hba p r.port slot
          (r.cl * page_size + hhdm)
          (page * page_size + hhdm)
          (get_or (hba.headers (r.cl * page_size + hhdm)) slot no_header)
Rebased-Found hhdm s₀ before p old hba pmm slot v mapped found r =
    let header = r.ready.slots slot (omega (arith, find_free_bound before.cap old slot found)) in
    let cl_pos = not_page_zero s₀ r.cl v r.cl_free in
    let page_pos = not_page_zero s₀ header.page v header.free_before in
    (
      header.page,
      header.free_before,
      header.entries,
      record {
        has_port = r.has_port;
        has_slot =
            find_free-same before.cap hba.cap old r.port r.same_cap r.same_s_act r.same_ci ∙ found;
        has_list = rw r.clb (omega (arith, r.cl_inside));
        list_there = λ e. omega (arith, e, cl_pos);
        has_header =
            get_elem?-get_or (hba.headers (r.cl * page_size + hhdm)) slot no_header
              (omega (arith, r.ready.sized, find_free_bound before.cap old slot found));
        has_table = rw header.at (omega (arith, header.inside));
        table_there = λ e. omega (arith, e, page_pos);
      },
    )

-- A port is prepared and then used: what the device finds when it follows the registers of the port to its
-- command list, the header of the slot to its table, and the table to the buffer.
pub record Transferred (hhdm : ℕ) (s₀ : Pmm) (p slot lba sect_amount buf : ℕ) (write : Bool)
    (hba : HbaMem) : Type 0 where
  pub port : HbaPort
  pub has_port : get_elem? hba.ports p ≡ some port
  pub issued : port.ci ≡ 1
  pub header : HbaCmdHeader
  pub has_header :
      get_elem? (hba.headers (vmm_phys_to_virt hhdm (u64_join port.clb port.clb_up))) slot
      ≡ some header
  pub fis_len : header.cmd_fis_len ≡ 5
  pub direction : header.write ≡ write
  pub entries : header.prdt_len ≡ 8
  pub page : ℕ
  pub free_before : in_use s₀ page ≡ false
  pub has_table :
      vmm_phys_to_virt hhdm (u64_join header.ctb_addr header.ctb_addr_up) ≡ page * page_size + hhdm
  pub asks : Asks lba sect_amount write (hba.tables (page * page_size + hhdm)).cmd_fis
  pub describes :
      Describes (vmm_virt_to_phys hhdm buf) sect_amount (hba.tables (page * page_size + hhdm)).ent

-- After `ahciRebase` of a port with a slot free, on the conditions of `ahciRebase` on the engine, the
-- allocator and the addresses, a transfer of 1 to 8192 sectors from an address below 2^48 to a device
-- that gets ready in time and ends the command returns whether the device reports no error. In the command
-- list that the port points to, the header of that slot then has the direction and points to a table, in a
-- page that was free, which asks for those sectors and describes the buffer. The value 1 in `ci` has
-- the device run slot 0, so this is the command that it runs exactly when slot 0 was free. Only if fewer
-- than 34 pages were free the kernel panics in `ahciRebase`.
pub ahci_read_or_write-ahci_rebase :
    (hhdm : ℕ) (engine : Engine) (fuel : ℕ) (s₀ : Pmm) (hba : HbaMem) (p : ℕ) (old : HbaPort)
    (slot : ℕ) (dev : Answers) (k j lba sect_amount buf : ℕ) (write : Bool)
    → Obeys engine fuel
    → IsValid s₀
    → s₀.pages.bits * page_size + hhdm ≤ 2 ^ 64
    → get_elem? hba.ports p ≡ some old
    → ahci_cmd_find_free hba.cap old ≡ some slot
    → Responds dev k j
    → j < fuel
    → lba < 2 ^ 48
    → 0 < sect_amount
    → sect_amount ≤ 8192
    → ((hba₁ : HbaMem) × (pmm₁ : Pmm) × (hba₂ : HbaMem) × (ahci_rebase hhdm engine fuel p hba s₀
          ≡ done (hba₁, pmm₁))
        × (ahci_read_or_write hhdm dev fuel hba₁ p lba sect_amount buf write
            ≡ done (not (failed (dev.is (j + 1))), hba₂))
        × Transferred hhdm s₀ p slot lba sect_amount buf write hba₂)
      ⊎ ((ahci_rebase hhdm engine fuel p hba s₀ ≡ panic) × Exhausted s₀ 34)
ahci_read_or_write-ahci_rebase hhdm engine fuel s₀ hba p old slot dev k j lba sect_amount buf write
      obeys v mapped has_port found responds lt hl lo hi =
    elim (ahci_rebase-Rebased hhdm engine fuel s₀ hba p old obeys v mapped has_port) [
      | inl (hba₁, pmm₁, run, r) ↦
          let (page, unused, eight, f) =
            Rebased-Found hhdm s₀ hba p old hba₁ pmm₁ slot v mapped found r in
          let list = r.cl * page_size + hhdm in
          let before = get_or (hba₁.headers list) slot no_header in
          let (hba₂, transfer, asks, describes, (h, has_header, eh), (q, has_q, eq)) =
            ahci_read_or_write-Asks hhdm fuel k j dev hba₁ p lba sect_amount buf write r.port slot
              list (page * page_size + hhdm) before f responds lt hl lo hi in
          inl (
            hba₁,
            pmm₁,
            hba₂,
            run,
            transfer,
            record {
              port = q;
              has_port = has_q;
              issued = ap HbaPort.ci eq;
              header = h;
              has_header = rw (eq, f.has_list, has_header);
              fis_len = ap HbaCmdHeader.cmd_fis_len eh;
              direction = ap HbaCmdHeader.write eh;
              entries = ap HbaCmdHeader.prdt_len eh ∙ eight;
              page = page;
              free_before = unused;
              has_table = rw eh f.has_table;
              asks = asks;
              describes = describes;
            },
          )
      | inr (stop, why) ↦ inr (stop, why)
    ]
