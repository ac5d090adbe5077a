-- ===== src/Console.antt =====
-- kernel/src/driver/log: the serial port, the terminal and the hook of printf that writes to both; and the
-- framebuffer of kernel/src/driver/fb.c.
mod Defs
mod Laws
unfoldable pub use Defs.*
pub use Laws.*
