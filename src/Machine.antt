-- ===== src/Machine.antt =====
-- The inline assembly of kernel/src/include/util.h that reaches devices: ports, the model-specific
-- registers of the processor and the keyboard.
mod Defs
mod Laws
unfoldable pub use Defs.*
pub use Laws.*
