-- ===== src/Irq.antt =====
-- kernel/src/driver/irq.c and `isrHandler` of kernel/src/cpu/isr.c: vectors and their handlers.
mod Defs
mod Laws
mod Start
unfoldable pub use Defs.*
pub use Laws.*
pub use Start.*
