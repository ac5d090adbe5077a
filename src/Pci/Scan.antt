-- ===== src/Pci/Scan.antt =====
-- The scan of the buses finds every function that is present.
use spctrx.Common.{ℕ, ◌<◌, ◌≡◌, ◌≢◌, ◌&&◌, List, [], ◌∷◌, ◌++◌, ◌==◌, if◌then◌else◌, gather}
use spctrx.Pci.Defs.{class_names, Config, Pci, PciDevice, pci_read16, pci_read_device_data}

-- The device at a function, if there is one.
abbrev pub present : Config → ℕ → ℕ → ℕ → List PciDevice
present config bus dev func =
    if pci_read16 config bus dev func 0 == 0xffff
    then []
    else pci_read_device_data config bus dev func ∷ []

-- The base addresses of the AHCI controllers among some devices.
unfoldable pub ahci_bars : List PciDevice → List ℕ
ahci_bars [] = []
ahci_bars (d ∷ ds) =
    if d.classcode == 1 && d.subclass == 6 then d.bar5 ∷ ahci_bars ds else ahci_bars ds

-- All the class codes that are present have a name in the table.
abbrev pub IsNamed : Config → Type 0
IsNamed config =
    (bus dev func : ℕ)
    → pci_read16 config bus dev func 0 ≢ 0xffff
    → (pci_read_device_data config bus dev func).classcode < class_names

record Scan (found old : List PciDevice) (s : Pci) : Type 0 where
  devices : s.devices ≡ found ++ old
  calls : s.ahci_calls ≡ ahci_bars s.devices

module _ (config : Config) (named : IsNamed config) where
  abbrev device_found : ℕ → ℕ → List PciDevice
  device_found bus dev = gather (present config bus dev) 8

  abbrev bus_found : ℕ → List PciDevice
  bus_found bus = gather (device_found bus) 32
