-- ===== src/Ahci/Init.antt =====
-- `ahciInit`: the registers of a controller are mapped, and its disks prepared.
use spctrx.Common.{ℕ, length}
use spctrx.Pmm.{Pmm}
use spctrx.Vmm.{Vmm, Becomes, lookup, with_device}
use spctrx.Ahci.Defs.{HbaMem}
use spctrx.Ahci.Search.{Searched}

-- The mapping is made, then the search takes its pages.
pub record Started (hhdm pi : ℕ) (found : HbaMem) (bar5 : ℕ) (s : Vmm) (hba : HbaMem) (s' : Vmm)
    : Type 0 where
  pub mapped : Vmm
  pub maps : Becomes hhdm s 3 (with_device hhdm bar5 (lookup hhdm s)) mapped
  pub searched : Searched pi found mapped.pmm 32 (hba, s'.pmm)
  pub keeps : Becomes hhdm mapped (length searched.pages) (lookup hhdm mapped) s'
