-- ===== src/Common/Bits.antt =====
-- The binary digits of a word, and `|` and `&` read digit by digit.
mod Step
mod Masks
mod Fields
pub use Step.{bit_or_step, bit_and_step}
unfoldable pub use Masks.*
pub use Fields.*
