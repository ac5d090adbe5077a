-- ===== src/IoApic.antt =====
-- kernel/src/cpu/ioapic.c: interrupt controllers, their redirection tables, and the MADT they are
-- listed in.
mod Defs
mod Redir
mod Madt
unfoldable pub use Defs.*
pub use Redir.*
pub use Madt.*
