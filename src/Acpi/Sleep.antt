-- ===== src/Acpi/Sleep.antt =====
-- The values for shutdown, from the bytes of the DSDT to the outputs.
use spctrx.Common.{
  ℕ, suc, ◌+◌, ◌*◌, ◌/◌, ◌^◌, ◌<◌, ◌≡◌, ◌≢◌, bit_or, bit_and, true, false, List, [], ◌∷◌, ◌++◌,
  some, done, arith, length, ◌==◌, if◌then◌else◌, ltb, lt→ltb, ne→==,
}
use spctrx.Common.Words.{shr, u16}
use spctrx.Common.Bits.{bit_and_high, bit_or_above}
use spctrx.Machine.{out16}
use spctrx.Memory.Block.{Memory}
use spctrx.Acpi.Layout.{Fadt}
use spctrx.Acpi.Defs.{skip_prefix, slp_typ, s5_values, Acpi, acpi_shutdown}

-- The bytes at `a` are those of the list.
abbrev pub Holds : Memory → ℕ → List ℕ → Type 0
Holds m a [] = Unit
Holds m a (x ∷ xs) = (m a ≡ x) × Holds m (a + 1) xs

pub Holds-behind :
    (m : Memory) (a : ℕ) (xs ys : List ℕ) → Holds m a (xs ++ ys) → Holds m (a + length xs) ys
Holds-behind m a [] ys h = let e : a + 0 ≡ a = omega arith in rw e h
Holds-behind m a (x ∷ xs) ys h =
    let e : a + suc (length xs) ≡ a + 1 + length xs = omega arith in
    rw e (Holds-behind m (a + 1) xs ys h.1)

-- A small number of the language of the tables: as it is, or behind a prefix.
pub data Value : Type 0 where
  bare : ℕ → Value
  prefixed : ℕ → Value

abbrev pub number : Value → ℕ
number (bare v) = v
number (prefixed v) = v

abbrev pub bytes : Value → List ℕ
bytes (bare v) = v ∷ []
bytes (prefixed v) = 0x0a ∷ v ∷ []

-- A number that is not taken for a prefix, and fits a signed byte.
abbrev pub IsSmall : Value → Type 0
IsSmall (bare v) = (v ≢ 0x0a) × (v < 128)
IsSmall (prefixed v) = v < 128

-- The package "_S5_": its name, the operator, the length with its extra bytes, the count, the values.
abbrev pub s5_bytes : ℕ → List ℕ → ℕ → Value → Value → List ℕ → List ℕ
s5_bytes lead extra count a b rest =
    b'_' ∷ b'S' ∷ b'5' ∷ b'_' ∷ 0x12 ∷ lead ∷ (extra ++ count ∷ (bytes a ++ (bytes b ++ rest)))

-- Where a value begins, its number is read, and what follows begins behind it.
Value-read :
    (m : Memory) (p : ℕ) (v : Value) (rest : List ℕ)
    → IsSmall v
    → Holds m p (bytes v ++ rest)
    → (slp_typ m (skip_prefix m p) ≡ done (number v * 2 ^ 10)) × Holds m (skip_prefix m p + 1) rest
Value-read m p (bare v) rest small h =
    let here : (m p == 0x0a) ≡ false = rw h.0 (ne→== v 0x0a small.0) in
    let fits : ltb (m p) 128 ≡ true = rw h.0 (lt→ltb v 128 small.1) in rw here (rw (fits, h.0), h.1)
Value-read m p (prefixed v) rest small h =
    let here : (m p == 0x0a) ≡ true = rw h.0 in
    let fits : ltb (m (p + 1)) 128 ≡ true = rw h.1.0 (lt→ltb v 128 small) in
    rw here (rw (fits, h.1.0), h.1.1)

-- Where the package lies in memory, with as many extra bytes of length as its lead byte says and numbers
-- below 128, both numbers are read, each shifted to its place in the control register.
pub s5_values-s5_bytes :
    (m : Memory) (s5 lead count : ℕ) (extra rest : List ℕ) (a b : Value)
    → Holds m s5 (s5_bytes lead extra count a b rest)
    → lead < 256
    → length extra ≡ lead / 64
    → IsSmall a
    → IsSmall b
    → s5_values m s5 ≡ done (number a * 2 ^ 10, number b * 2 ^ 10)
unfolding s5_values
s5_values-s5_bytes m s5 lead count extra rest a b h hl he ha hb =
    let at5 : s5 + 5 ≡ s5 + 1 + 1 + 1 + 1 + 1 = omega arith in
    let tail = h.1.1.1.1.1 in
    let lead_at : m (s5 + 5) ≡ lead = rw at5 tail.0 in
    let more : shr (bit_and lead 0xc0) 6 ≡ length extra =
      rw (bit_and_high 8 6 lead (omega arith) hl) (omega arith) in
    let behind =
      Holds-behind m (s5 + 1 + 1 + 1 + 1 + 1 + 1) extra (count ∷ (bytes a ++ (bytes b ++ rest)))
        tail.1 in
    let p : s5 + 1 + 1 + 1 + 1 + 1 + 1 + length extra + 1 ≡ s5 + 5 + length extra + 2 =
      omega arith in
    let (first, next) =
      Value-read m (s5 + 5 + length extra + 2) a (bytes b ++ rest) ha (rw p at behind.1) in
    let (second, last) =
      Value-read m (skip_prefix m (s5 + 5 + length extra + 2) + 1) b rest hb next in
    rw (lead_at, more, first, second)

-- With types of sleep below 8 from the tables, the shutdown writes to each control block that there is
-- the type in bits 10 to 12 and the bit that enters the sleep.
pub acpi_shutdown_lem :
    (s : Acpi) (fadt : Fadt) (a b : ℕ)
    → s.fadt ≡ some fadt
    → s.slp_typ_a ≡ a * 2 ^ 10
    → s.slp_typ_b ≡ b * 2 ^ 10
    → a < 8
    → b < 8
    → acpi_shutdown s
      ≡ done (
          out16 (u16 fadt.pm1a_control_block) (a * 2 ^ 10 + 2 ^ 13)
          ∷ (if fadt.pm1b_control_block == 0
              then []
              else out16 (u16 fadt.pm1b_control_block) (b * 2 ^ 10 + 2 ^ 13) ∷ []))
unfolding acpi_shutdown
acpi_shutdown_lem s fadt a b hf ha hb small_a small_b =
    let wa : u16 (bit_or (a * 2 ^ 10) (2 ^ 13)) ≡ a * 2 ^ 10 + 2 ^ 13 =
      rw (bit_or_above 13 (a * 2 ^ 10) 1 (omega arith)) (omega arith) in
    let wb : u16 (bit_or (b * 2 ^ 10) (2 ^ 13)) ≡ b * 2 ^ 10 + 2 ^ 13 =
      rw (bit_or_above 13 (b * 2 ^ 10) 1 (omega arith)) (omega arith) in
    rw (hf, ha, hb, wa, wb)
