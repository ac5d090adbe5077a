-- ===== src/Tests/Shutdown.antt =====
-- Tables in memory, from the root to the sleep package.
use spctrx.Common.{
  ℕ, zero, suc, ◌+◌, ◌-◌, ◌*◌, ◌^◌, ◌<◌, ◌≡◌, refl, List, [], ◌∷◌, none, some, done, arith, ◌>>=◌,
  ◌&&◌, leb, ltb, length, get_or, if◌then◌else◌,
}
use spctrx.Machine.{out16}
use spctrx.Memory.Block.{Memory, memcmp}
use spctrx.Acpi.{
  Literals, Acpi, Same, Described, bare, prefixed, acpi_find_table, table_loop, fadt_at, acpi_fadt,
  acpi_shutdown, acpi_shutdown-acpi_fadt,
}

abbrev overlay : ℕ → List ℕ → Memory → Memory
overlay a bytes m q = if leb a q && ltb q (a + length bytes) then get_or bytes (q - a) 0 else m q

abbrev names : Literals
names = record { facp = 100; dsdt = 110; s5 = 120 }

-- The three strings, the root table at 1000 with one entry, the table for fixed hardware at 2000 with
-- the first control block 0x604, and the system's table at 3000 with a package two bytes in.
abbrev ram : Memory
ram = overlay 100 (b'F' ∷ b'A' ∷ b'C' ∷ b'P' ∷ []) (
    overlay 110 (b'D' ∷ b'S' ∷ b'D' ∷ b'T' ∷ []) (
      overlay 120 (b'_' ∷ b'S' ∷ b'5' ∷ []) (
        overlay 1004 (40 ∷ []) (
          overlay 1036 (0xd0 ∷ 0x07 ∷ []) (
            overlay 2000 (b'F' ∷ b'A' ∷ b'C' ∷ b'P' ∷ []) (
              overlay 2040 (0xb8 ∷ 0x0b ∷ []) (
                overlay 2064 (0x04 ∷ 0x06 ∷ []) (
                  overlay 3000 (b'D' ∷ b'S' ∷ b'D' ∷ b'T' ∷ 60 ∷ []) (
                    overlay 3038 (b'_' ∷ b'S' ∷ b'5' ∷ b'_' ∷ 0x12 ∷ 6 ∷ 4 ∷ 0x0a ∷ 5 ∷ [])
                      (λ q. 0))))))))))

none_earlier : (j : ℕ) → j < 2 → Same ram 3 (3036 + j) 120 → ⊥
none_earlier zero h s = let first = s 0 (omega arith) in omega (arith, first)
none_earlier (suc zero) h s = let first = s 0 (omega arith) in omega (arith, first)
none_earlier (suc (suc j)) h s = absurd (omega arith)

dsdt_bytes : Same ram 4 3000 110
dsdt_bytes zero h = refl
dsdt_bytes (suc zero) h = refl
dsdt_bytes (suc (suc zero)) h = refl
dsdt_bytes (suc (suc (suc zero))) h = refl
dsdt_bytes (suc (suc (suc (suc i)))) h = absurd (omega arith)

fadt_found : acpi_find_table ram 0 1000 100 ≡ done (some 2000)
unfolding acpi_find_table table_loop memcmp
fadt_found = refl

ram-Described : Described ram 0 names 1000 2000 2 6 4 [] [] (prefixed 5) (bare 0)
unfolding fadt_at
ram-Described = record {
  found = fadt_found;
  dsdt_there = λ e. omega arith;
  dsdt_named = λ e. omega arith;
  is_dsdt = dsdt_bytes;
  first = omega arith;
  within = omega arith;
  name_there = λ e. omega arith;
  name = (refl, (refl, (refl, tt)));
  earliest = none_earlier;
  package_there =
      (refl, (refl, (refl, (refl, (refl, (refl, (refl, (refl, (refl, (refl, tt))))))))));
  lead_byte = omega arith;
  extra_bytes = refl;
  first_small = omega arith;
  second_small = (λ e. omega arith, omega arith);
}

abbrev unset : Acpi
unset = record { fadt = none; slp_typ_a = 0; slp_typ_b = 0 }

acpi_shutdown-acpi_fadt_example :
    (acpi_fadt ram 0 names 1000 unset >>= acpi_shutdown)
    ≡ done (out16 0x604 (5 * 2 ^ 10 + 2 ^ 13) ∷ [])
unfolding fadt_at
acpi_shutdown-acpi_fadt_example =
    acpi_shutdown-acpi_fadt ram 0 names 1000 2000 2 6 4 [] [] (prefixed 5) (bare 0) unset
      ram-Described (omega arith) (omega arith)
