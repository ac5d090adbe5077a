-- ===== src/Acpi/Defs.antt =====
-- The functions of acpi.c over a memory of bytes by virtual address. The messages on the console are left
-- out, and with them `acpiRsdt`, which only prints.
use spctrx.Common.{
  from_some, ◌%◌, ℕ, zero, suc, ◌+◌, ◌*◌, ◌/◌, ◌^◌, bit_and, bit_or, Bool, true, false, List, [],
  ◌∷◌, Option, none, some, Outcome, done, panic, fault, ◌>>=◌, ltb, leb, ◌==◌, if◌then◌else◌,
}
use spctrx.Common.Words.{u16, sub64, shr}
use spctrx.Machine.{PortWrite, out8, out16, out32}
use spctrx.Memory.Block.{Memory, Order, less, equal, greater, memcmp}
use spctrx.Vmm.{vmm_phys_to_virt}
use spctrx.Vmm.{Vmm, vmm_map_mmio}
use spctrx.Acpi.Layout.{GenericAddress, Fadt, fadt_at, read_u32, sdt_length, sdt_size}

-- The addresses at which the strings "FACP", "DSDT" and "_S5" of the program lie.
pub record Literals : Type 0 where
  pub facp : ℕ
  pub dsdt : ℕ
  pub s5 : ℕ

-- `!memcmp(...)`
abbrev pub is_equal : Order → Bool
is_equal less = false
is_equal equal = true
is_equal greater = false

-- `rsdt->sdtPtr[i]` as a virtual address.
abbrev pub table_at : Memory → ℕ → ℕ → ℕ → ℕ
table_at m hhdm rsdt i = vmm_phys_to_virt hhdm (read_u32 m (rsdt + sdt_size + 4 * i))

-- The bound of the loop, a number of 64 bits.
abbrev pub table_count : Memory → ℕ → ℕ
table_count m rsdt = sub64 (sdt_length m rsdt) sdt_size / 4

-- The loop of `acpiFindTable`, with `n` rounds left, and `last` for what follows them.
unfoldable pub table_loop : ℕ → Memory → ℕ → ℕ → ℕ → ℕ → Outcome (Option ℕ) → Outcome (Option ℕ)
table_loop zero m hhdm rsdt signature i last = last
table_loop (suc n) m hhdm rsdt signature i last = do
  let rest = table_loop n m hhdm rsdt signature (i + 1) last
  r ← memcmp m (table_at m hhdm rsdt i) signature 4
  if is_equal r then done (some (table_at m hhdm rsdt i)) else rest

-- The bound of `sdtPtr`.
abbrev pub max_tables : ℕ
max_tables = 256

-- The rounds of the loop that read inside `sdtPtr`, and what follows them: a further round reads past its
-- end, which is an invalid access.
abbrev pub rounds : Memory → ℕ → ℕ
rounds m rsdt = if leb (table_count m rsdt) max_tables then table_count m rsdt else max_tables

abbrev pub after_rounds : Memory → ℕ → Outcome (Option ℕ)
after_rounds m rsdt = if leb (table_count m rsdt) max_tables then done none else fault

unfoldable pub acpi_find_table : Memory → ℕ → ℕ → ℕ → Outcome (Option ℕ)
unfolding table_loop
acpi_find_table m hhdm rsdt signature =
    table_loop (rounds m rsdt) m hhdm rsdt signature 0 (after_rounds m rsdt)

-- `fadt`, `SLP_TYPa` and `SLP_TYPb`; `none` is a null pointer.
pub record Acpi : Type 0 where
  pub fadt : Option Fadt
  pub slp_typ_a : ℕ
  pub slp_typ_b : ℕ

-- The loop over the bytes behind the header of the DSDT: where "_S5" begins, if anywhere.
unfoldable pub s5_loop : ℕ → Memory → ℕ → ℕ → Outcome (Option ℕ)
s5_loop zero m name s5 = done none
s5_loop (suc n) m name s5 = do
  let rest = s5_loop n m name (s5 + 1)
  r ← memcmp m s5 name 3
  if is_equal r then done (some s5) else rest

-- `if (*s5 == 0x0A) s5++;`
abbrev pub skip_prefix : Memory → ℕ → ℕ
skip_prefix m s5 = if m s5 == 0x0a then s5 + 1 else s5

-- `*(s5) << 10`: `char` is signed, and the shift of a negative number is undefined.
abbrev pub slp_typ : Memory → ℕ → Outcome ℕ
slp_typ m s5 = if ltb (m s5) 128 then done (m s5 * 2 ^ 10) else fault

-- The two values of the package, from the name on.
unfoldable pub s5_values : Memory → ℕ → Outcome (ℕ × ℕ)
s5_values m s5 = do
  let length_byte = s5 + 5
  let p = length_byte + shr (bit_and (m length_byte) 0xc0) 6 + 2
  let a = skip_prefix m p
  slp_typ_a ← slp_typ m a
  let b = skip_prefix m (a + 1)
  slp_typ_b ← slp_typ m b
  done (slp_typ_a, slp_typ_b)

-- `acpiFadt` behind the search for "_S5".
unfoldable pub with_s5 : Memory → Acpi → Option ℕ → Outcome Acpi
unfolding s5_values
with_s5 m s none = done s
with_s5 m s (some s5) = do (a, b) ← s5_values m s5; done (record s { slp_typ_a = a; slp_typ_b = b })

-- `acpiFadt` behind the search for the table.
unfoldable pub with_fadt : Memory → ℕ → Literals → Acpi → Option ℕ → Outcome Acpi
unfolding with_s5 s5_loop fadt_at
with_fadt m hhdm names s none = done (record s { fadt = none })
with_fadt m hhdm names s (some a) = do
  let fadt = fadt_at m a
  let s' = record s { fadt = some fadt }
  let dsdt = vmm_phys_to_virt hhdm fadt.dsdt
  r ← memcmp m dsdt names.dsdt 4
  if is_equal r
      then (do
        let first = vmm_phys_to_virt hhdm ((fadt.dsdt + 36) % 2 ^ 32)
        found ← s5_loop (sdt_length m dsdt) m names.s5 first
        with_s5 m s' found)
      else done s'

unfoldable pub acpi_fadt : Memory → ℕ → Literals → ℕ → Acpi → Outcome Acpi
unfolding with_fadt acpi_find_table
acpi_fadt m hhdm names rsdt s = do
  found ← acpi_find_table m hhdm rsdt names.facp
  with_fadt m hhdm names s found

-- What `acpiOut` does: a store of so many bytes at a virtual address, or an output to a port.
pub data Effect : Type 0 where
  store_bytes : ℕ → ℕ → ℕ → Effect
  output : PortWrite → Effect

-- The page of an address in memory is mapped before the store.
unfoldable pub acpi_out : ℕ → GenericAddress → ℕ → Vmm → Outcome (Vmm × List Effect)
acpi_out hhdm g val s =
    if g.addr_space == 0
    then (do
      s' ← vmm_map_mmio hhdm g.addr 1 s
      let p = vmm_phys_to_virt hhdm g.addr
      done (
        s',
        if leb g.access_size 1
            then store_bytes 1 p val ∷ []
            else if g.access_size == 2
            then store_bytes 2 p val ∷ []
            else if g.access_size == 3
            then store_bytes 4 p val ∷ []
            else if g.access_size == 4
            then store_bytes 8 p val ∷ []
            else [],
      ))
    else if g.addr_space == 1
    then (let port = u16 g.addr in
        done (
          s,
          if leb g.access_size 1
              then output (out8 port val) ∷ []
              else if g.access_size == 2
              then output (out16 port val) ∷ []
              else if g.access_size == 3
              then output (out32 port val) ∷ []
              else [],
        ))
    else done (s, [])

-- A null `fadt` is an access through a null pointer.
unfoldable pub acpi_reboot : ℕ → Acpi → Vmm → Outcome (Vmm × List Effect)
unfolding acpi_out
acpi_reboot hhdm s tables = do
  fadt ← from_some s.fadt
  acpi_out hhdm fadt.reset_reg fadt.reset_value tables

-- The outputs of `acpiShutdown` before it panics.
unfoldable pub acpi_shutdown : Acpi → Outcome (List PortWrite)
acpi_shutdown s = do
  fadt ← from_some s.fadt
  let first = out16 (u16 fadt.pm1a_control_block) (u16 (bit_or s.slp_typ_a (2 ^ 13)))
  let second = out16 (u16 fadt.pm1b_control_block) (u16 (bit_or s.slp_typ_b (2 ^ 13)))
  done (first ∷ (if fadt.pm1b_control_block == 0 then [] else second ∷ []))

-- `acpiInit`: `response` is the address of the RSDP that the boot loader gives, 0 if none. The pointers
-- and numbers are zero before.
unfoldable pub acpi_init : Memory → ℕ → Literals → ℕ → Outcome (ℕ × Acpi)
unfolding acpi_fadt
acpi_init m hhdm names response = if response == 0 then panic else do
  let rsdt = vmm_phys_to_virt hhdm (read_u32 m (response + 16))
  s ← acpi_fadt m hhdm names rsdt (record { fadt = none; slp_typ_a = 0; slp_typ_b = 0 })
  done (rsdt, s)
