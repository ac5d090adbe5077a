-- ===== src/Pci/Defs.antt =====
-- The functions of pci.c; a write is the list of its outputs, in order. The configuration space is a
-- parameter: the 32-bit register at each address that can be written to CONFIG_ADDRESS. A read writes the
-- address and then takes the register. A device that slabAlloc gives is a fresh node of the list; that the
-- memory may run out is left out.
use spctrx.Common.{
  ℕ, ◌*◌, bit_and, bit_or, ◌&&◌, List, [], ◌∷◌, Outcome, done, fault, for_loop, ltb, ◌==◌,
  if◌then◌else◌,
}
use spctrx.Common.Words.{u8, u16, shl32, shr}
use spctrx.Machine.{PortWrite, out8, out16, out32}

abbrev pub Config : Type 0
Config = ℕ → ℕ

unfoldable pub pci_get_config_address : ℕ → ℕ → ℕ → ℕ → ℕ
pci_get_config_address bus dev func offset =
    bit_or (bit_or (bit_or (bit_or 0x80000000 (shl32 bus 16)) (shl32 dev 11)) (shl32 func 8))
      (bit_and offset 0xfc)

abbrev pub config_address : ℕ
config_address = 0xcf8

abbrev pub config_data : ℕ
config_data = 0xcfc

unfoldable pub pci_write32 : ℕ → ℕ → ℕ → ℕ → ℕ → List PortWrite
pci_write32 bus dev func offset value =
    out32 config_address (pci_get_config_address bus dev func offset) ∷ out32 config_data value ∷ []

unfoldable pub pci_write16 : ℕ → ℕ → ℕ → ℕ → ℕ → List PortWrite
pci_write16 bus dev func offset value =
    out32 config_address (pci_get_config_address bus dev func offset) ∷ out16 config_data value ∷ []

unfoldable pub pci_write8 : ℕ → ℕ → ℕ → ℕ → ℕ → List PortWrite
pci_write8 bus dev func offset value =
    out32 config_address (pci_get_config_address bus dev func offset) ∷ out8 config_data value ∷ []

unfoldable pub pci_read32 : Config → ℕ → ℕ → ℕ → ℕ → ℕ
pci_read32 config bus dev func offset = config (pci_get_config_address bus dev func offset)

unfoldable pub pci_read16 : Config → ℕ → ℕ → ℕ → ℕ → ℕ
unfolding pci_read32
pci_read16 config bus dev func offset =
    u16 (bit_and (shr (pci_read32 config bus dev func offset) (bit_and offset 2 * 8)) 0xffff)

unfoldable pub pci_read8_high : Config → ℕ → ℕ → ℕ → ℕ → ℕ
unfolding pci_read16
pci_read8_high config bus dev func offset = u8 (shr (pci_read16 config bus dev func offset) 8)

unfoldable pub pci_read8_low : Config → ℕ → ℕ → ℕ → ℕ → ℕ
unfolding pci_read16
pci_read8_low config bus dev func offset = u8 (bit_and (pci_read16 config bus dev func offset) 0xff)

pub record PciDevice : Type 0 where
  pub vendor : ℕ
  pub device : ℕ
  pub cmd : ℕ
  pub status : ℕ
  pub revision_id : ℕ
  pub prog_if : ℕ
  pub subclass : ℕ
  pub classcode : ℕ
  pub cache_line_size : ℕ
  pub latency_timer : ℕ
  pub header : ℕ
  pub bist : ℕ
  pub bar0 : ℕ
  pub bar1 : ℕ
  pub bar2 : ℕ
  pub bar3 : ℕ
  pub bar4 : ℕ
  pub bar5 : ℕ

unfoldable pub pci_read_device_data : Config → ℕ → ℕ → ℕ → PciDevice
pci_read_device_data config bus dev func = record {
  vendor = pci_read16 config bus dev func 0;
  device = pci_read16 config bus dev func 2;
  cmd = pci_read16 config bus dev func 4;
  status = pci_read16 config bus dev func 6;
  revision_id = pci_read8_low config bus dev func 8;
  prog_if = pci_read8_high config bus dev func 8;
  subclass = pci_read8_low config bus dev func 10;
  classcode = pci_read8_high config bus dev func 10;
  cache_line_size = pci_read8_low config bus dev func 0xc;
  latency_timer = pci_read8_high config bus dev func 0xc;
  header = pci_read8_low config bus dev func 0xf;
  bist = pci_read8_high config bus dev func 0xf;
  bar0 = pci_read32 config bus dev func 0x10;
  bar1 = pci_read32 config bus dev func 0x14;
  bar2 = pci_read32 config bus dev func 0x18;
  bar3 = pci_read32 config bus dev func 0x1c;
  bar4 = pci_read32 config bus dev func 0x20;
  bar5 = pci_read32 config bus dev func 0x24;
}

-- `pciDevices`, front first, and the calls of `ahciInit` with their argument, latest first.
pub record Pci : Type 0 where
  pub devices : List PciDevice
  pub ahci_calls : List ℕ

unfoldable pub pci_init_driver : Pci → PciDevice → Pci
pci_init_driver s dev =
    if dev.classcode == 1 && dev.subclass == 6
    then record s { ahci_calls = dev.bar5 ∷ s.ahci_calls }
    else s

-- The strings of the table of 32 that are given; the pointers behind them are null.
abbrev pub class_names : ℕ
class_names = 18

-- One round of `pciCheckDevice`. The message prints the string of the class: one of the null pointers, or
-- a class code past the table, is an invalid access.
unfoldable pub pci_check_function : Config → ℕ → ℕ → ℕ → Pci → Outcome Pci
unfolding pci_init_driver
pci_check_function config bus dev func s =
    if pci_read16 config bus dev func 0 == 0xffff then done s else do
      let d = pci_read_device_data config bus dev func
      if ltb d.classcode class_names
          then done (pci_init_driver (record s { devices = d ∷ s.devices }) d)
          else fault

-- The loops over the 8 functions, the 32 devices and the 256 buses.
unfoldable pub pci_check_device : Config → ℕ → ℕ → Pci → Outcome Pci
pci_check_device config bus dev = for_loop 8 0 (pci_check_function config bus dev)

unfoldable pub pci_check_bus : Config → ℕ → Pci → Outcome Pci
pci_check_bus config bus = for_loop 32 0 (pci_check_device config bus)

unfoldable pub pci_enum : Config → Pci → Outcome Pci
pci_enum config = for_loop 256 0 (pci_check_bus config)

unfoldable pub pci_init : Config → Outcome Pci
pci_init config = pci_enum config (record { devices = []; ahci_calls = [] })
