-- ===== src/Ahci.antt =====
-- kernel/src/driver/disk/ahci.c and kernel/src/include/ahci.h: the start of ports, and disk commands.
mod Defs
mod Slots
mod Transfer
mod Start
mod Rebase
mod Ports
mod Attached
mod Search
mod Init
unfoldable pub use Defs.*
pub use Slots.*
unfoldable pub use Start.*
pub use Rebase.*
pub use Ports.*
pub use Attached.*
pub use Search.*
pub use Transfer.*
pub use Init.*
