-- ===== src/Apic.antt =====
-- kernel/src/cpu/lapic.c, apic.c and mp.c: the local interrupt controller of a processor and the start of
-- the processors.
mod Defs
mod Laws
mod Processors
mod Sequence
unfoldable pub use Defs.*
pub use Laws.*
pub use Processors.*
pub use Sequence.*
