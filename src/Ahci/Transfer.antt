-- ===== src/Ahci/Transfer.antt =====
-- What one command asks of the device.
use spctrx.Common.{
  poll, poll-first, ℕ, zero, suc, ◌+◌, ◌*◌, ◌^◌, ◌<◌, ◌≤◌, ◌≡◌, ◌≢◌, refl, ◌∙◌, Bool, true, false,
  not, some, done, arith, if◌then◌else◌, get_elem?, get_elem?-lt, get_elem?-set_self, length-set,
  set, ne→==, eq→==,
}
use spctrx.Common.Words.{shr, u64_join, u64_low, u64_high}
use spctrx.Common.Bits.{bit_and_low}
use spctrx.Vmm.{vmm_phys_to_virt, vmm_virt_to_phys}
use spctrx.Ahci.Defs.{
  HbaPort, HbaCmdHeader, HbaCmdTbl, store, HbaPrdtEnt, FisRegHostToDev, HbaMem, Answers, wait, busy,
  failed, spin_loop, issue_done, ahci_send_command, ahci_cmd_find_free, with_slot,
  ahci_read_or_write, fill_fis, fill_ent,
}

-- The device is ready at read `k` of `tfd` and not before, within the bound of the loop, and has ended
-- the command at round `j` of the second loop and not before.
pub record Responds (dev : Answers) (k j : ℕ) : Type 0 where
  pub early : (i : ℕ) → i < k → busy (dev.tfd i) ≡ true
  pub ready : busy (dev.tfd k) ≡ false
  pub bound : k < wait
  pub running : (i : ℕ) → i < j → issue_done dev i ≡ false
  pub ended : issue_done dev j ≡ true

spin_loop-stops :
    (n k spin : ℕ) (tfd : ℕ → ℕ)
    → k < n
    → ((i : ℕ) → i < k → busy (tfd (spin + i)) ≡ true)
    → busy (tfd (spin + k)) ≡ false
    → spin_loop n tfd spin ≡ spin + k
unfolding spin_loop
spin_loop-stops zero k spin tfd lt before at = absurd (omega arith)
spin_loop-stops (suc n) zero spin tfd lt before at =
    let e : spin + 0 ≡ spin = omega arith in rw (e, rw e at at)
spin_loop-stops (suc n) (suc k) spin tfd lt before at =
    let e : spin + 0 ≡ spin = omega arith in
    let now : busy (tfd spin) ≡ true = rw e at (before 0 (omega arith)) in
    let shift : (i : ℕ) → spin + suc i ≡ spin + 1 + i = λ i. omega arith in
    rw (now, shift k)
      (spin_loop-stops n k (spin + 1) tfd (omega arith)
        (λ i h. rw (shift i) at (before (suc i) (omega arith))) (rw (shift k) at at))

-- `spin_loop` at its bound, kept apart so that the bound is never counted down.
send_from :
    (dev : Answers) (fuel k j : ℕ) (port : HbaPort)
    → spin_loop wait dev.tfd 0 ≡ k
    → k ≢ wait
    → poll fuel (issue_done dev) 0 ≡ done j
    → ahci_send_command dev fuel port ≡ done (not (failed (dev.is (j + 1))), record port { ci = 1 })
unfolding ahci_send_command
send_from dev fuel k j port e ne f = rw (e, ne→== k wait ne, f)

ahci_send_command-Responds :
    (dev : Answers) (fuel k j : ℕ) (port : HbaPort)
    → Responds dev k j
    → j < fuel
    → ahci_send_command dev fuel port ≡ done (not (failed (dev.is (j + 1))), record port { ci = 1 })
ahci_send_command-Responds dev fuel k j port r lt =
    let same : (i : ℕ) → 0 + i ≡ i = λ i. omega arith in
    send_from dev fuel k j port
      (spin_loop-stops wait k 0 dev.tfd r.bound (λ i h. rw (same i) (r.early i h))
          (rw (same k) r.ready)
        ∙ same k)
      (omega (arith, r.bound)) (poll-first fuel j (issue_done dev) lt r.running r.ended)

-- The block address that the six bytes of a FIS hold, and its number of sectors.
abbrev pub lba_of : FisRegHostToDev → ℕ
lba_of f =
    f.lba0 + f.lba1 * 2 ^ 8 + f.lba2 * 2 ^ 16 + f.lba3 * 2 ^ 24 + f.lba4 * 2 ^ 32 + f.lba5 * 2 ^ 40

abbrev pub count_of : FisRegHostToDev → ℕ
count_of f = f.count_low + f.count_high * 2 ^ 8

-- A FIS that asks for `sect_amount` sectors from `lba` on.
pub record Asks (lba sect_amount : ℕ) (write : Bool) (f : FisRegHostToDev) : Type 0 where
  pub address : lba_of f ≡ lba
  pub count : count_of f ≡ sect_amount
  pub to_device : f.fis_type ≡ 0x27
  pub is_command : f.c ≡ 1
  pub command : f.cmd ≡ (if write then 0x35 else 0x25)

fill_fis-Asks :
    (fis : FisRegHostToDev) (lba sect_amount : ℕ) (write : Bool)
    → lba < 2 ^ 48
    → sect_amount < 2 ^ 16
    → Asks lba sect_amount write (fill_fis fis lba sect_amount write)
fill_fis-Asks fis lba sect_amount write hl hs = record {
  address =
      rw
        (
          bit_and_low 8 lba,
          bit_and_low 8 (shr lba 8),
          bit_and_low 8 (shr lba 16),
          bit_and_low 8 (shr lba 24),
          bit_and_low 8 (shr lba 32),
          bit_and_low 8 (shr lba 40),
        )
        (omega arith);
  count = rw (bit_and_low 8 sect_amount, bit_and_low 8 (shr sect_amount 8)) (omega arith);
  to_device = refl;
  is_command = refl;
  command = refl;
}

-- An entry that describes `sect_amount` sectors of 512 bytes at a physical address.
pub record Describes (phys sect_amount : ℕ) (e : HbaPrdtEnt) : Type 0 where
  pub address : e.db_addr + e.db_addr_up * 2 ^ 32 ≡ phys
  pub count : e.dbc + 1 ≡ 512 * sect_amount

fill_ent-Describes :
    (phys sect_amount : ℕ)
    → phys < 2 ^ 64
    → 0 < sect_amount
    → sect_amount ≤ 8192
    → Describes phys sect_amount (fill_ent phys sect_amount)
unfolding u64_low u64_high
fill_ent-Describes phys sect_amount hp lo hi = record {
  address = rw (bit_and_low 32 phys, bit_and_low 32 (shr phys 32)) (omega arith);
  count = omega arith;
}

-- What the transfer needs to find in memory: the port, its list with the header of the slot, and the
-- table of the header, both at addresses that are not null.
pub record Found (hhdm : ℕ) (hba : HbaMem) (p : ℕ) (port : HbaPort) (slot list addr : ℕ)
    (header : HbaCmdHeader) : Type 0 where
  pub has_port : get_elem? hba.ports p ≡ some port
  pub has_slot : ahci_cmd_find_free hba.cap port ≡ some slot
  pub has_list : vmm_phys_to_virt hhdm (u64_join port.clb port.clb_up) ≡ list
  pub list_there : list ≢ 0
  pub has_header : get_elem? (hba.headers list) slot ≡ some header
  pub has_table : vmm_phys_to_virt hhdm (u64_join header.ctb_addr header.ctb_addr_up) ≡ addr
  pub table_there : addr ≢ 0

-- The port with `is` written is still free where it was.
find_free-is :
    (reg v : ℕ) (port : HbaPort)
    → ahci_cmd_find_free reg (record port { is = v }) ≡ ahci_cmd_find_free reg port
unfolding ahci_cmd_find_free
find_free-is reg v port = refl

-- A transfer of 1 to 8192 sectors from an address below 2^48 on, to a port with a free slot whose
-- header and table are there and a device that gets ready in time and ends the command, returns
-- whether the device reports no error. The table of the free slot then asks for exactly those sectors
-- and describes the buffer, its header has the length of a FIS and the direction, and is otherwise as before,
-- and the port is as before but for `is` and the value 1 that is written to `ci`.
pub ahci_read_or_write-Asks :
    (hhdm fuel k j : ℕ) (dev : Answers) (hba : HbaMem) (p lba sect_amount buf : ℕ) (write : Bool)
    (port : HbaPort) (slot list addr : ℕ) (header : HbaCmdHeader)
    → Found hhdm hba p port slot list addr header
    → Responds dev k j
    → j < fuel
    → lba < 2 ^ 48
    → 0 < sect_amount
    → sect_amount ≤ 8192
    → (hba' : HbaMem) × (ahci_read_or_write hhdm dev fuel hba p lba sect_amount buf write
        ≡ done (not (failed (dev.is (j + 1))), hba'))
      × Asks lba sect_amount write (hba'.tables addr).cmd_fis
      × Describes (vmm_virt_to_phys hhdm buf) sect_amount (hba'.tables addr).ent
      × ((h : HbaCmdHeader) × (get_elem? (hba'.headers list) slot ≡ some h)
          × (h ≡ record header { cmd_fis_len = 5; write = write }))
      × ((q : HbaPort) × (get_elem? hba'.ports p ≡ some q)
          × (q ≡ record port { is = 0xffffffff; ci = 1 }))
unfolding ahci_read_or_write with_slot
ahci_read_or_write-Asks hhdm fuel k j dev hba p lba sect_amount buf write port slot list addr header
      f r lt hl lo hi =
    let used : HbaPort = record port { is = 0xffffffff } in
    let sent : HbaPort = record used { ci = 1 } in
    let header' : HbaCmdHeader = record header { cmd_fis_len = 5; write = write } in
    let table : HbaCmdTbl = record {
      cmd_fis = fill_fis (hba.tables addr).cmd_fis lba sect_amount write;
      ent = fill_ent (vmm_virt_to_phys hhdm buf) sect_amount;
    } in
    let at_list = eq→== list list refl in
    let at_addr = eq→== addr addr refl in
    let in_ports = get_elem?-lt hba.ports p f.has_port in
    (
      record hba {
        ports = set (set hba.ports p used) p sent;
        headers = store hba.headers list (set (hba.headers list) slot header');
        tables = store hba.tables addr table;
      },
      rw (
        f.has_port,
        find_free-is hba.cap 0xffffffff port,
        f.has_slot,
        f.has_list,
        ne→== list 0 f.list_there,
        f.has_header,
        f.has_table,
        ne→== addr 0 f.table_there,
        ahci_send_command-Responds dev fuel k j used r lt,
      ),
      rw at_addr (fill_fis-Asks (hba.tables addr).cmd_fis lba sect_amount write hl (omega arith)),
      rw at_addr (fill_ent-Describes (vmm_virt_to_phys hhdm buf) sect_amount (omega arith) lo hi),
      (
        header',
        rw at_list (
            get_elem?-set_self (hba.headers list) slot header'
              (get_elem?-lt (hba.headers list) slot f.has_header)),
        refl,
      ),
      (
        sent,
        get_elem?-set_self (set hba.ports p used) p sent
            (omega (arith, in_ports, length-set hba.ports p used)),
        refl,
      ),
    )
