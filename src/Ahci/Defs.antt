-- ===== src/Ahci/Defs.antt =====
-- The structs of ahci.c and the functions that issue a command. A port's registers are volatile: what
-- the device answers to successive reads while a command runs is a parameter.
use spctrx.Common.{
  poll, ℕ, zero, suc, ◌+◌, ◌*◌, ◌-◌, ◌/◌, ◌%◌, ◌^◌, bit_and, bit_or, Bool, true, false, ◌||◌, not,
  List, Option, none, some, Outcome, done, ◌>>=◌, from_some, ◌==◌, if◌then◌else◌, get_elem?, set,
}
use spctrx.Vmm.{vmm_phys_to_virt, vmm_virt_to_phys}
use spctrx.Common.Words.{u32, shr, u64_low, u64_high, u64_join}

-- `HbaPort`: for a register that the device reads, the value written last.
pub record HbaPort : Type 0 where
  pub clb : ℕ
  pub clb_up : ℕ
  pub fb : ℕ
  pub fb_up : ℕ
  pub is : ℕ
  pub ie : ℕ
  pub cmd : ℕ
  pub tfd : ℕ
  pub sign : ℕ
  pub ssts : ℕ
  pub s_ctrl : ℕ
  pub s_err : ℕ
  pub s_act : ℕ
  pub ci : ℕ
  pub sntf : ℕ
  pub fbs : ℕ

-- `HbaCmdHeader`, `HbaPrdtEnt`, `FisRegHostToDev`, `HbaCmdTbl`: the fields that are not reserved, without
-- the flags of a header that the driver leaves at zero.
pub record HbaCmdHeader : Type 0 where
  pub cmd_fis_len : ℕ
  pub write : Bool
  pub prdt_len : ℕ
  pub prdbc : ℕ
  pub ctb_addr : ℕ
  pub ctb_addr_up : ℕ

pub record HbaPrdtEnt : Type 0 where
  pub db_addr : ℕ
  pub db_addr_up : ℕ
  pub dbc : ℕ
  pub i : ℕ

pub record FisRegHostToDev : Type 0 where
  pub fis_type : ℕ
  pub port_mult : ℕ
  pub c : ℕ
  pub cmd : ℕ
  pub feature_low : ℕ
  pub lba0 : ℕ
  pub lba1 : ℕ
  pub lba2 : ℕ
  pub device : ℕ
  pub lba3 : ℕ
  pub lba4 : ℕ
  pub lba5 : ℕ
  pub feature_high : ℕ
  pub count_low : ℕ
  pub count_high : ℕ
  pub icc : ℕ
  pub control : ℕ

pub record HbaCmdTbl : Type 0 where
  pub cmd_fis : FisRegHostToDev
  pub ent : HbaPrdtEnt

-- `base`: the capabilities, the ports, and the lists of headers and the tables in memory, each at its
-- virtual address.
pub record HbaMem : Type 0 where
  pub cap : ℕ
  pub ports : List HbaPort
  pub headers : ℕ → List HbaCmdHeader
  pub tables : ℕ → HbaCmdTbl

abbrev pub store : {A : Type 0} → (ℕ → A) → ℕ → A → ℕ → A
store f a v q = if a == q then v else f q

-- The loop of `ahciCmdFindFree`, with `n` rounds left.
unfoldable pub find_free_loop : ℕ → ℕ → ℕ → Option ℕ
find_free_loop zero slots i = none
find_free_loop (suc n) slots i =
    let rest = find_free_loop n (shr slots 1) (i + 1) in
    if bit_and slots 1 == 0 then some i else rest

abbrev pub cmd_slots : ℕ → ℕ
cmd_slots cap = shr (bit_and cap 0x0f00) 8

-- `none` is the result -1.
unfoldable pub ahci_cmd_find_free : ℕ → HbaPort → Option ℕ
unfolding find_free_loop
ahci_cmd_find_free cap port = find_free_loop (cmd_slots cap) (bit_or port.s_act port.ci) 0

-- The five types of device: nothing, SATA, SEMB, port multiplier, SATAPI.
pub data DeviceType : Type 0 where
  null : DeviceType
  sata : DeviceType
  semb : DeviceType
  pm : DeviceType
  satapi : DeviceType

unfoldable pub ahci_check_type : HbaPort → DeviceType
ahci_check_type port =
    let ipm = bit_and (shr port.ssts 8) 0x0f in
    let det = bit_and port.ssts 0x0f in
    if not (det == 3)
    then null
    else if not (ipm == 1)
    then null
    else if port.sign == 0xeb140101
    then satapi
    else if port.sign == 0xc33c0101
    then semb
    else if port.sign == 0x96690101
    then pm
    else sata

-- What the device answers: `tfd` to the reads before the command is issued, `ci` and `is` after it.
pub record Answers : Type 0 where
  pub tfd : ℕ → ℕ
  pub ci : ℕ → ℕ
  pub is : ℕ → ℕ

abbrev pub wait : ℕ
wait = 1000000000

-- ATA_SR_BSY | ATA_SR_DRQ, and HBA_PxIS_TFES.
abbrev pub busy : ℕ → Bool
busy tfd = not (bit_and tfd 0x88 == 0)

abbrev pub failed : ℕ → Bool
failed is = not (bit_and is (2 ^ 30) == 0)

-- The first loop of `ahciSendCommand`: the value of `spin` at its end, `n` rounds being left.
unfoldable pub spin_loop : ℕ → (ℕ → ℕ) → ℕ → ℕ
spin_loop zero tfd spin = spin
spin_loop (suc n) tfd spin =
    let rest = spin_loop n tfd (spin + 1) in if busy (tfd spin) then rest else spin

-- The second loop, which has no bound of its own, ends at its first round where the command is no longer
-- issued or has failed.
abbrev pub issue_done : Answers → ℕ → Bool
issue_done dev k = not (dev.ci k == 1) || failed (dev.is k)

-- The read of `is` behind the loop is its next one.
unfoldable pub ahci_send_command : Answers → ℕ → HbaPort → Outcome (Bool × HbaPort)
ahci_send_command dev fuel port =
    if spin_loop wait dev.tfd 0 == wait then done (false, port) else do
      k ← poll fuel (issue_done dev) 0
      done (not (failed (dev.is (k + 1))), record port { ci = 1 })

-- The assignments to the fields of the FIS and of the only entry of the table.
abbrev pub fill_fis : FisRegHostToDev → ℕ → ℕ → Bool → FisRegHostToDev
fill_fis fis lba sect_amount write = record fis {
  fis_type = 0x27;
  c = 1;
  cmd = if write then 0x35 else 0x25;
  lba0 = bit_and lba 0xff;
  lba1 = bit_and (shr lba 8) 0xff;
  lba2 = bit_and (shr lba 16) 0xff;
  device = 64;
  lba3 = bit_and (shr lba 24) 0xff;
  lba4 = bit_and (shr lba 32) 0xff;
  lba5 = bit_and (shr lba 40) 0xff;
  count_low = bit_and sect_amount 0xff;
  count_high = bit_and (shr sect_amount 8) 0xff;
}

abbrev pub fill_ent : ℕ → ℕ → HbaPrdtEnt
unfolding u64_low u64_high
fill_ent buf_phys sect_amount = record {
  db_addr = u64_low buf_phys;
  db_addr_up = u64_high buf_phys;
  dbc = u32 (512 * sect_amount + 2 ^ 32 - 1) % 2 ^ 22;
  i = 1;
}

-- The two tests of an address against null are on sums that may wrap. `sizeof(FisRegHostToDev)` is 20.
unfoldable pub with_slot :
    ℕ → Answers → ℕ → HbaMem → ℕ → HbaPort → ℕ → ℕ → ℕ → Bool → Option ℕ → Outcome (Bool × HbaMem)
unfolding u64_join ahci_send_command
with_slot hhdm dev fuel hba p port lba sect_amount buf write none = done (false, hba)
with_slot hhdm dev fuel hba p port lba sect_amount buf write (some slot) =
    let list = vmm_phys_to_virt hhdm (u64_join port.clb port.clb_up) in
    if list == 0 then done (false, hba) else do
      header ← from_some (get_elem? (hba.headers list) slot)
      let header' = record header { cmd_fis_len = 20 / 4; write = write }
      let hba₁ = record hba {
        headers = store hba.headers list (set (hba.headers list) slot header');
      }
      let addr = vmm_phys_to_virt hhdm (u64_join header.ctb_addr header.ctb_addr_up)
      if addr == 0 then done (false, hba₁) else do
        let table = hba.tables addr
        let table' : HbaCmdTbl = record {
          cmd_fis = fill_fis table.cmd_fis lba sect_amount write;
          ent = fill_ent (vmm_virt_to_phys hhdm buf) sect_amount;
        }
        (ok, port') ← ahci_send_command dev fuel port
        done (
          ok,
          record hba₁ { ports = set hba.ports p port'; tables = store hba.tables addr table' },
        )

unfoldable pub ahci_read_or_write :
    ℕ → Answers → ℕ → HbaMem → ℕ → ℕ → ℕ → ℕ → Bool → Outcome (Bool × HbaMem)
unfolding with_slot
ahci_read_or_write hhdm dev fuel hba p lba sect_amount buf write = do
  old ← from_some (get_elem? hba.ports p)
  let port = record old { is = 0xffffffff }
  with_slot hhdm dev fuel (record hba { ports = set hba.ports p port }) p port lba sect_amount buf
      write (ahci_cmd_find_free hba.cap port)

abbrev pub ahci_read : ℕ → Answers → ℕ → HbaMem → ℕ → ℕ → ℕ → ℕ → Outcome (Bool × HbaMem)
ahci_read hhdm dev fuel hba p lba sect_amount buf =
    ahci_read_or_write hhdm dev fuel hba p lba sect_amount buf false

abbrev pub ahci_write : ℕ → Answers → ℕ → HbaMem → ℕ → ℕ → ℕ → ℕ → Outcome (Bool × HbaMem)
ahci_write hhdm dev fuel hba p lba sect_amount buf =
    ahci_read_or_write hhdm dev fuel hba p lba sect_amount buf true
