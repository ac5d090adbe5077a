-- ===== src/Acpi.antt =====
-- kernel/src/driver/acpi.c and kernel/src/include/acpi.h: the system description tables, shutdown and
-- reboot.
mod Layout
mod Defs
mod Tables
mod Sleep
mod Package
unfoldable pub use Layout.*
unfoldable pub use Defs.*
pub use Tables.*
pub use Sleep.*
pub use Package.*
