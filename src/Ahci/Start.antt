-- ===== src/Ahci/Start.antt =====
-- The part of ahci.c that prepares the ports: the command engine, the memory of a port and the search for
-- disks. The page that receives the device's own FIS is cleared and handed over; its bytes are left out.
use spctrx.Common.{
  leb, ◌+◌, ◌*◌, fault, Option, none, some, false, true, some, true, Option, false, ℕ, bit_and,
  bit_or, Bool, ◌&&◌, List, Outcome, done, ◌>>=◌, from_some, ◌==◌, if◌then◌else◌, get_elem?, set,
  replicate, for_loop, poll,
}
use spctrx.Common.Words.{page_size, shr, u64_low, u64_high}
use spctrx.Pmm.{Pmm, pmm_alloc}
use spctrx.Vmm.{Vmm, vmm_map_mmio}
use spctrx.Vmm.{vmm_phys_to_virt, vmm_virt_to_phys}
use spctrx.Ahci.Defs.{
  HbaPort, HbaCmdHeader, FisRegHostToDev, HbaCmdTbl, HbaMem, store, DeviceType, null, sata, semb,
  pm, satapi, ahci_check_type,
}

-- What a port answers to reads of `cmd`: to the four reads that are written back, given the value written
-- last, and to the rounds of the two loops.
pub record Engine : Type 0 where
  pub modify : ℕ → ℕ → ℕ
  pub waiting : ℕ → ℕ
  pub receiving : ℕ → ℕ
  pub running : ℕ → ℕ

-- HBA_PxCMD_FR and HBA_PxCMD_CR.
abbrev pub clear_of : ℕ → ℕ → Bool
clear_of flag cmd = bit_and cmd flag == 0

unfoldable pub ahci_cmd_start : Engine → ℕ → HbaPort → Outcome HbaPort
ahci_cmd_start dev fuel port = do
  k ← poll fuel (λ k. clear_of 0x8000 (dev.waiting k)) 0
  let started = bit_or (dev.modify 2 port.cmd) 0x0001
  done (record port { cmd = bit_or (dev.modify 3 started) 0x0010 })

abbrev pub cmd_stopped : Engine → ℕ → Bool
cmd_stopped dev k = clear_of 0x4000 (dev.receiving k) && clear_of 0x8000 (dev.running k)

unfoldable pub ahci_cmd_stop : Engine → ℕ → HbaPort → Outcome HbaPort
ahci_cmd_stop dev fuel port = do
  let stopped = bit_and (dev.modify 0 port.cmd) 0xfffffffe
  let cmd = bit_and (dev.modify 1 stopped) 0xffffffef
  k ← poll fuel (cmd_stopped dev) 0
  done (record port { cmd = cmd })

-- Cleared memory.
abbrev pub no_header : HbaCmdHeader
no_header = record {
  cmd_fis_len = 0;
  write = false;
  prdt_len = 0;
  prdbc = 0;
  ctb_addr = 0;
  ctb_addr_up = 0;
}

abbrev pub no_fis : FisRegHostToDev
no_fis = record {
  fis_type = 0;
  port_mult = 0;
  c = 0;
  cmd = 0;
  feature_low = 0;
  lba0 = 0;
  lba1 = 0;
  lba2 = 0;
  device = 0;
  lba3 = 0;
  lba4 = 0;
  lba5 = 0;
  feature_high = 0;
  count_low = 0;
  count_high = 0;
  icc = 0;
  control = 0;
}

abbrev pub no_table : HbaCmdTbl
no_table = record { cmd_fis = no_fis; ent = record { db_addr = 0; db_addr_up = 0; dbc = 0; i = 0 } }

-- The command list that is being filled, the tables and the page allocator.
pub record Setup : Type 0 where
  pub list : List HbaCmdHeader
  pub tables : ℕ → HbaCmdTbl
  pub pmm : Pmm

-- One round of the loop over the headers.
unfoldable pub rebase_slot : ℕ → ℕ → Setup → Outcome Setup
rebase_slot hhdm i s = do
  header ← from_some (get_elem? s.list i)
  (phys, pmm) ← pmm_alloc s.pmm 1
  let ctba = vmm_phys_to_virt hhdm phys
  let ctba_phys = vmm_virt_to_phys hhdm ctba
  let header' = record header {
    prdt_len = 8;
    ctb_addr = u64_low ctba_phys;
    ctb_addr_up = u64_high ctba_phys;
  }
  done (record { list = set s.list i header'; tables = store s.tables ctba no_table; pmm = pmm })

-- The list has a page, which is 128 headers.
unfoldable pub ahci_rebase : ℕ → Engine → ℕ → ℕ → HbaMem → Pmm → Outcome (HbaMem × Pmm)
unfolding rebase_slot ahci_cmd_stop ahci_cmd_start
ahci_rebase hhdm dev fuel p hba pmm = do
  old ← from_some (get_elem? hba.ports p)
  port ← ahci_cmd_stop dev fuel old
  (cl_phys, pmm₁) ← pmm_alloc pmm 1
  let cl = vmm_phys_to_virt hhdm cl_phys
  let clb = vmm_virt_to_phys hhdm cl
  (fis_phys, pmm₂) ← pmm_alloc pmm₁ 1
  let fb = vmm_virt_to_phys hhdm (vmm_phys_to_virt hhdm fis_phys)
  let based = record port {
    clb = u64_low clb;
    clb_up = u64_high clb;
    fb = u64_low fb;
    fb_up = u64_high fb;
  }
  s ←
      for_loop 32 0 (rebase_slot hhdm)
        (record { list = replicate 128 no_header; tables = hba.tables; pmm = pmm₂ })
  port' ← ahci_cmd_start dev fuel based
  done (
    record hba {
      ports = set hba.ports p port';
      headers = store hba.headers cl s.list;
      tables = s.tables;
    },
    s.pmm,
  )

abbrev pub is_sata : DeviceType → Bool
is_sata null = false
is_sata sata = true
is_sata semb = false
is_sata pm = false
is_sata satapi = false

-- The registers of port `i` start behind the one page that `ahciInit` maps.
abbrev pub past_page : ℕ → Bool
past_page i = leb page_size (0x100 + 0x80 * i)

-- One round of `ahciEnum`; a port whose registers are not mapped is an invalid access. `pi` is the register of the ports that there are, and each port has its own
-- answers. The other types of device are only reported.
unfoldable pub enum_port : ℕ → (ℕ → Engine) → ℕ → ℕ → ℕ → HbaMem × Pmm → Outcome (HbaMem × Pmm)
enum_port hhdm devs fuel pi i s =
    if bit_and (shr pi i) 1 == 0 then done s else if past_page i then fault else do
      port ← from_some (get_elem? s.0.ports i)
      if is_sata (ahci_check_type port) then ahci_rebase hhdm (devs i) fuel i s.0 s.1 else done s

unfoldable pub ahci_enum : ℕ → (ℕ → Engine) → ℕ → ℕ → HbaMem × Pmm → Outcome (HbaMem × Pmm)
unfolding enum_port
ahci_enum hhdm devs fuel pi s = for_loop 32 0 (enum_port hhdm devs fuel pi) s

-- `base`: no controller yet, or the virtual address of its registers with what lies there. `found` is what
-- the controller at `bar5` has.
unfoldable pub ahci_init :
    ℕ
    → (ℕ → Engine)
    → ℕ
    → ℕ
    → HbaMem
    → ℕ
    → Option (ℕ × HbaMem)
    → Vmm
    → Outcome (Option (ℕ × HbaMem) × Vmm)
unfolding ahci_enum
ahci_init hhdm devs fuel pi found bar5 (some base) s = done (some base, s)
ahci_init hhdm devs fuel pi found bar5 none s = do
  s' ← vmm_map_mmio hhdm bar5 1 s
  (hba, pmm) ← ahci_enum hhdm devs fuel pi (found, s'.pmm)
  done (some (vmm_phys_to_virt hhdm bar5, hba), (let v : Vmm = s' in record v { pmm = pmm }))
