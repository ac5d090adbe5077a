-- ===== src/Vmm/Offset.antt =====
-- The direct map of physical memory. Its offset is the boot loader's.
use spctrx.Common.{ℕ, ◌+◌}
use spctrx.Common.Words.{u64, sub64}

-- `getHHDM()` is the argument `hhdm`.
abbrev pub vmm_phys_to_virt : ℕ → ℕ → ℕ
vmm_phys_to_virt hhdm phys = u64 (phys + hhdm)

abbrev pub vmm_virt_to_phys : ℕ → ℕ → ℕ
vmm_virt_to_phys hhdm virt = sub64 virt hhdm
