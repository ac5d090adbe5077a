-- ===== src/Tests/Disks.antt =====
-- Ports that are prepared, at small inputs.
use spctrx.Common.{
  replicate, zero, suc, suc, ◌==◌, false, if◌then◌else◌, ◌<◌, ℕ, ◌≡◌, ◌⊎◌, refl, true, [], ◌∷◌,
  done, panic, some, arith,
}
use spctrx.Common.Bits.{digit}
use spctrx.Pmm
use spctrx.Pmm.{Pmm, Exhausted}
use spctrx.Vmm.{Vmm}
use spctrx.Ahci.{
  cmd_stopped, HbaMem, Engine, Obeys, Rebased, Transferred, ahci_rebase, ahci_read_or_write,
  ahci_cmd_find_free, find_free_loop, ahci_rebase-Rebased, ahci_read_or_write-ahci_rebase,
}
use spctrx.Tests.Devices.{port, hba, device, device-Responds}

-- All pages from 1 to 63 are free.
abbrev large : Pmm
large = record { pages = record { bits = 64; data_size = 8; words = 1 ∷ [] }; lock = false }

large-IsValid : Pmm.IsValid large
unfolding digit
large-IsValid = record {
  bitmap = record { covers = omega arith; sized = refl };
  zero_reserved = refl;
  nonempty = omega arith;
  addressable = omega arith;
  unlocked = refl;
}

-- An engine that reads as it was written, runs for one round and then is idle.
abbrev engine : Engine
engine = record {
  modify = λ n v. v;
  waiting = λ k. 0;
  receiving = λ k. if k == 0 then 0x4000 else 0;
  running = λ k. 0;
}

runs_once : (k : ℕ) → k < 1 → cmd_stopped engine k ≡ false
runs_once zero h = refl
runs_once (suc k) h = absurd (omega arith)

engine-Obeys : Obeys engine 2
engine-Obeys = record {
  rounds = 1;
  in_time = omega arith;
  runs_until = runs_once;
  stops = refl;
  waits = 0;
  waits_in_time = omega arith;
  busy_until = λ k h. absurd (omega arith);
  idle = refl;
}

ahci_rebase-Rebased_example :
    ((hba' : HbaMem) × (pmm' : Pmm) × (ahci_rebase 0x10000 engine 2 0 hba large ≡ done (hba', pmm'))
      × Rebased 0x10000 large hba 0 port hba' pmm')
    ⊎ ((ahci_rebase 0x10000 engine 2 0 hba large ≡ panic) × Exhausted large 34)
ahci_rebase-Rebased_example =
    ahci_rebase-Rebased 0x10000 engine 2 large hba 0 port engine-Obeys large-IsValid (omega arith)
      refl

port_slot : ahci_cmd_find_free hba.cap port ≡ some 1
unfolding ahci_cmd_find_free find_free_loop
port_slot = refl

ahci_read_or_write-ahci_rebase_example :
    ((hba₁ : HbaMem) × (pmm₁ : Pmm) × (hba₂ : HbaMem) × (ahci_rebase 0x10000 engine 2 0 hba large
        ≡ done (hba₁, pmm₁))
      × (ahci_read_or_write 0x10000 device 2 hba₁ 0 70000 2 0x3000 true ≡ done (true, hba₂))
      × Transferred 0x10000 large 0 1 70000 2 0x3000 true hba₂)
    ⊎ ((ahci_rebase 0x10000 engine 2 0 hba large ≡ panic) × Exhausted large 34)
ahci_read_or_write-ahci_rebase_example =
    ahci_read_or_write-ahci_rebase 0x10000 engine 2 large hba 0 port 1 device 0 0 70000 2 0x3000
      true engine-Obeys large-IsValid (omega arith) refl port_slot device-Responds (omega arith)
      (omega arith) (omega arith) (omega arith)

-- A disk at the first port, and no device at the others.
abbrev disks : HbaMem
disks = record hba {
  ports = record port { ssts = 0x113; sign = 0x101 } ∷ replicate 31 (record port { ssts = 0 });
}
