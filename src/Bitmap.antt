-- ===== src/Bitmap.antt =====
-- kernel/src/util/datastructures/bitmap.c and kernel/src/include/bitmap.h: an allocation bitmap over
-- an array of 64-bit words. The pointer arguments are those of static variables, so the assertions
-- that they are not null always pass and are left out; the messages on the console are left out too.
mod Defs
mod View
mod Fill
mod Find
unfoldable pub use Defs.*
pub use View.*
pub use Fill.*
pub use Find.*
