-- ===== src/Acpi/Package.antt =====
-- The sleep package in the table of the system, and the shutdown that follows from it.
use spctrx.Common.{
  ◌++◌, ◌/◌, false, true, ◌/◌, ℕ, zero, suc, ◌+◌, ◌*◌, ◌%◌, ◌^◌, ◌<◌, ◌≡◌, ◌≢◌, refl, sym, ◌∙◌,
  List, [], ◌∷◌, some, done, ◌>>=◌, arith, length, if◌then◌else◌, ◌==◌,
}
use spctrx.Common.Words.{u16}
use spctrx.Machine.{out16}
use spctrx.Memory.Block.{Memory, Order}
use spctrx.Vmm.{vmm_phys_to_virt}
use spctrx.Acpi.Layout.{fadt_at, sdt_length}
use spctrx.Acpi.Defs.{
  Literals, is_equal, s5_loop, with_s5, with_fadt, Acpi, acpi_find_table, acpi_fadt, acpi_shutdown,
}
use spctrx.Acpi.Tables.{Same, Test, same, other, memcmp-Test}
use spctrx.Acpi.Sleep.{
  Holds, Value, number, bytes, IsSmall, s5_bytes, s5_values-s5_bytes, acpi_shutdown_lem,
}

Same-equal :
    (m : Memory) (n a b : ℕ) (r : Order) → Test m n a b r → Same m n a b → is_equal r ≡ true
Same-equal m n a b r (same e s) there_is = e
Same-equal m n a b r (other e none_is) there_is = absurd (none_is there_is)

differ-unequal :
    (m : Memory) (n a b : ℕ) (r : Order) → Test m n a b r → (Same m n a b → ⊥) → is_equal r ≡ false
differ-unequal m n a b r (same e s) none_is = absurd (none_is s)
differ-unequal m n a b r (other e no_match) none_is = e

-- The search for the name stops at its first place.
s5_loop-finds :
    (n k : ℕ) (m : Memory) (name s5 : ℕ)
    → name ≢ 0
    → 0 < s5
    → k < n
    → ((j : ℕ) → j < k → Same m 3 (s5 + j) name → ⊥)
    → Same m 3 (s5 + k) name
    → s5_loop n m name s5 ≡ done (some (s5 + k))
unfolding s5_loop
s5_loop-finds zero k m name s5 named pos lt before at = absurd (omega arith)
s5_loop-finds (suc n) zero m name s5 named pos lt before at =
    let here : s5 + 0 ≡ s5 = omega arith in
    let (r, e, t) = memcmp-Test m s5 name 3 (λ q. omega (arith, q)) named (omega arith) in
    rw (here, e, Same-equal m 3 s5 name r t (rw here at at)) refl
s5_loop-finds (suc n) (suc k) m name s5 named pos lt before at =
    let here : s5 + 0 ≡ s5 = omega arith in
    let shift : (j : ℕ) → s5 + suc j ≡ s5 + 1 + j = λ j. omega arith in
    let (r, e, t) = memcmp-Test m s5 name 3 (λ q. omega (arith, q)) named (omega arith) in
    rw (e, shift k, differ-unequal m 3 s5 name r t (rw here at (before 0 (omega arith))))
      (s5_loop-finds n k m name (s5 + 1) named (omega arith) (omega arith)
        (λ j h. rw (shift j) at (before (suc j) (omega arith))) (rw (shift k) at at))

-- The name of the package, in memory and in the program.
names-Same :
    (m : Memory) (a b : ℕ) (rest rest' : List ℕ)
    → Holds m a (b'_' ∷ b'S' ∷ b'5' ∷ rest)
    → Holds m b (b'_' ∷ b'S' ∷ b'5' ∷ rest')
    → Same m 3 a b
names-Same m a b rest rest' ha hb zero lt =
    let ea : a + 0 ≡ a = omega arith in
    let eb : b + 0 ≡ b = omega arith in rw (ea, eb) (ha.0 ∙ sym hb.0)
names-Same m a b rest rest' ha hb (suc zero) lt = ha.1.0 ∙ sym hb.1.0
names-Same m a b rest rest' ha hb (suc (suc zero)) lt =
    let ea : a + 2 ≡ a + 1 + 1 = omega arith in
    let eb : b + 2 ≡ b + 1 + 1 = omega arith in rw (ea, eb) (ha.1.1.0 ∙ sym hb.1.1.0)
names-Same m a b rest rest' ha hb (suc (suc (suc i))) lt = absurd (omega arith)

-- The tables that the kernel needs for shutdown: the one for fixed hardware at `table`, and the system's
-- with the sleep package `place` bytes behind its header and no earlier "_S5" there.
pub record Described (m : Memory) (hhdm : ℕ) (names : Literals) (rsdt table place lead count : ℕ)
    (extra rest : List ℕ) (a b : Value) : Type 0 where
  pub found : acpi_find_table m hhdm rsdt names.facp ≡ done (some table)
  pub dsdt_there : vmm_phys_to_virt hhdm (fadt_at m table).dsdt ≢ 0
  pub dsdt_named : names.dsdt ≢ 0
  pub is_dsdt : Same m 4 (vmm_phys_to_virt hhdm (fadt_at m table).dsdt) names.dsdt
  pub first : 0 < vmm_phys_to_virt hhdm (((fadt_at m table).dsdt + 36) % 2 ^ 32)
  pub within : place < sdt_length m (vmm_phys_to_virt hhdm (fadt_at m table).dsdt)
  pub name_there : names.s5 ≢ 0
  pub name : Holds m names.s5 (b'_' ∷ b'S' ∷ b'5' ∷ [])
  pub earliest :
      (j : ℕ)
      → j < place
      → Same m 3 (vmm_phys_to_virt hhdm (((fadt_at m table).dsdt + 36) % 2 ^ 32) + j) names.s5
      → ⊥
  pub package_there :
      Holds m
        (vmm_phys_to_virt hhdm (((fadt_at m table).dsdt + 36) % 2 ^ 32) + place)
        (s5_bytes lead extra count a b rest)
  pub lead_byte : lead < 256
  pub extra_bytes : length extra ≡ lead / 64
  pub first_small : IsSmall a
  pub second_small : IsSmall b

acpi_fadt_lem :
    (m : Memory) (hhdm : ℕ) (names : Literals) (rsdt table place lead count : ℕ)
    (extra rest : List ℕ) (a b : Value) (s : Acpi)
    → Described m hhdm names rsdt table place lead count extra rest a b
    → acpi_fadt m hhdm names rsdt s
      ≡ done (record {
        fadt = some (fadt_at m table);
        slp_typ_a = number a * 2 ^ 10;
        slp_typ_b = number b * 2 ^ 10;
      })
unfolding acpi_fadt with_fadt with_s5
acpi_fadt_lem m hhdm names rsdt table place lead count extra rest a b s d =
    let dsdt : ℕ = vmm_phys_to_virt hhdm (fadt_at m table).dsdt in
    let start : ℕ = vmm_phys_to_virt hhdm (((fadt_at m table).dsdt + 36) % 2 ^ 32) in
    let (r, e, t) = memcmp-Test m dsdt names.dsdt 4 d.dsdt_there d.dsdt_named (omega arith) in
    let equal = Same-equal m 4 dsdt names.dsdt r t d.is_dsdt in
    let search : s5_loop (sdt_length m dsdt) m names.s5 start ≡ done (some (start + place)) =
      s5_loop-finds (sdt_length m dsdt) place m names.s5 start d.name_there d.first d.within
        d.earliest
        (names-Same m (start + place) names.s5
          (b'_' ∷ 0x12 ∷ lead ∷ (extra ++ count ∷ (bytes a ++ (bytes b ++ rest)))) []
          d.package_there d.name) in
    let values =
      s5_values-s5_bytes m (start + place) lead count extra rest a b d.package_there d.lead_byte
        d.extra_bytes d.first_small d.second_small in
    rw (d.found, e, equal, search, values)

-- Where the tables describe a package of two types of sleep below 8, `acpiFadt` and then `acpiShutdown`
-- write the first type, in bits 10 to 12, with the bit that enters the sleep to the first control block of
-- the table, and the second one to the second block if there is one.
pub acpi_shutdown-acpi_fadt :
    (m : Memory) (hhdm : ℕ) (names : Literals) (rsdt table place lead count : ℕ)
    (extra rest : List ℕ) (a b : Value) (s : Acpi)
    → Described m hhdm names rsdt table place lead count extra rest a b
    → number a < 8
    → number b < 8
    → (acpi_fadt m hhdm names rsdt s >>= acpi_shutdown)
      ≡ done (
          out16 (u16 (fadt_at m table).pm1a_control_block) (number a * 2 ^ 10 + 2 ^ 13)
          ∷ (if (fadt_at m table).pm1b_control_block == 0
              then []
              else out16 (u16 (fadt_at m table).pm1b_control_block) (number b * 2 ^ 10 + 2 ^ 13)
                ∷ []))
acpi_shutdown-acpi_fadt m hhdm names rsdt table place lead count extra rest a b s d ha hb =
    rw (acpi_fadt_lem m hhdm names rsdt table place lead count extra rest a b s d)
      (acpi_shutdown_lem _ (fadt_at m table) (number a) (number b) refl refl refl ha hb)
