-- ===== src/Tests/Tables.antt =====
-- Four tables, one for each level.
use spctrx.Common.{false, ◌&&◌, [], ◌∷◌, ◌==◌, if◌then◌else◌}
use spctrx.Vmm.{Vmm, Tables}

abbrev pub tables : Tables
tables t i =
    if t == 0x1000 && i == 0
    then 0x2001
    else if t == 0x2000 && i == 0
    then 0x3001
    else if t == 0x3000 && i == 0
    then 0x4001
    else 0

abbrev pub vm : Vmm
vm = record {
  p4 = 0x1000;
  tables = tables;
  lock = false;
  pmm = record { pages = record { bits = 64; data_size = 8; words = 31 ∷ [] }; lock = false };
}
