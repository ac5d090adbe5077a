-- ===== src/Startup.antt =====
-- kernel/src/kernel/test.c: what `main` runs once the parts are ready.
mod Defs
mod Laws
mod Files
unfoldable pub use Defs.*
pub use Laws.*
pub use Files.*
