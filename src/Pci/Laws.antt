-- ===== src/Pci/Laws.antt =====
-- Addresses of registers, and the widths of reads.
use spctrx.Common.{ℕ, ◌+◌, ◌*◌, ◌/◌, ◌^◌, ◌%◌, ◌<◌, ◌≡◌, ◌∙◌, bit_and, bit_or, arith}
use spctrx.Common.Words.{shl32}
use spctrx.Common.Bits.{digit, bit_or_disjoint, bit_and_high, bit_and_low, bit_and-pow}
use spctrx.Pci.Defs.{
  Config, pci_get_config_address, pci_read32, pci_read16, pci_read8_low, pci_read8_high,
}

-- The address of a register, for arguments of 8, 5, 3 and 8 bits: enable bit, bus, device, function and the offset without its low two
-- bits, each in its own bits.
pub pci_get_config_address_fields :
    (bus dev func offset : ℕ)
    → bus < 256
    → dev < 32
    → func < 8
    → offset < 256
    → pci_get_config_address bus dev func offset
      ≡ 2 ^ 31 + bus * 2 ^ 16 + dev * 2 ^ 11 + func * 2 ^ 8 + offset / 4 * 4
unfolding pci_get_config_address
pci_get_config_address_fields bus dev func offset hb hd hf ho =
    let b : shl32 bus 16 ≡ bus * 2 ^ 16 = omega arith in
    let d : shl32 dev 11 ≡ dev * 2 ^ 11 = omega arith in
    let f : shl32 func 8 ≡ func * 2 ^ 8 = omega arith in
    let one : bit_or 0x80000000 (bus * 2 ^ 16) ≡ (2 ^ 15 + bus) * 2 ^ 16 =
      bit_or_disjoint 31 1 (bus * 2 ^ 16) (omega arith) ∙ omega arith in
    let two : bit_or ((2 ^ 15 + bus) * 2 ^ 16) (dev * 2 ^ 11)
        ≡ ((2 ^ 15 + bus) * 2 ^ 5 + dev) * 2 ^ 11 =
      bit_or_disjoint 16 (2 ^ 15 + bus) (dev * 2 ^ 11) (omega arith) ∙ omega arith in
    let three : bit_or (((2 ^ 15 + bus) * 2 ^ 5 + dev) * 2 ^ 11) (func * 2 ^ 8)
        ≡ (((2 ^ 15 + bus) * 2 ^ 5 + dev) * 2 ^ 3 + func) * 2 ^ 8 =
      bit_or_disjoint 11 ((2 ^ 15 + bus) * 2 ^ 5 + dev) (func * 2 ^ 8) (omega arith)
      ∙ omega arith in
    let low : bit_and offset 0xfc ≡ offset / 4 * 4 = bit_and_high 8 2 offset (omega arith) ho in
    rw (b, d, f, one, two, three, low)
      (bit_or_disjoint 8 (((2 ^ 15 + bus) * 2 ^ 5 + dev) * 2 ^ 3 + func) (offset / 4 * 4)
          (omega arith)
        ∙ omega arith)

-- A 16-bit read gives the half of the register that holds the offset, an 8-bit read one of its bytes.
pub pci_read_widths :
    (config : Config) (bus dev func offset : ℕ)
    → (pci_read16 config bus dev func offset
        ≡ pci_read32 config bus dev func offset / 2 ^ (offset / 2 % 2 * 16) % 2 ^ 16)
      × (pci_read8_low config bus dev func offset ≡ pci_read16 config bus dev func offset % 2 ^ 8)
      × (pci_read8_high config bus dev func offset ≡ pci_read16 config bus dev func offset / 2 ^ 8)
unfolding pci_read8_low pci_read8_high digit
pci_read_widths config bus dev func offset =
    let r : ℕ = pci_read32 config bus dev func offset in
    let half : bit_and offset 2 * 8 ≡ offset / 2 % 2 * 16 = omega (arith, bit_and-pow 1 offset) in
    (
      rw (half, bit_and_low 16 (r / 2 ^ (offset / 2 % 2 * 16))) (omega arith),
      rw (bit_and_low 8 (pci_read16 config bus dev func offset)) (omega arith),
      omega arith,
    )
