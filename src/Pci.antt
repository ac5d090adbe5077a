-- ===== src/Pci.antt =====
-- kernel/src/driver/pci.c: configuration space, device data and the scan of the buses.
mod Defs
mod Laws
mod Scan
unfoldable pub use Defs.*
pub use Laws.*
pub use Scan.*
