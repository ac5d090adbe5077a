-- ===== src/Tests/Firmware.antt =====
-- The ACPI tables at small inputs.
use spctrx.Common.{
  ◌⊎◌, ◌≤◌, fault, ℕ, zero, suc, ◌+◌, ◌<◌, ◌≢◌, none, done, arith, ◌==◌, if◌then◌else◌,
}
use spctrx.Memory.Block.{Memory}
use spctrx.Acpi.{FirstTable, table_at, acpi_find_table, acpi_find_table-FirstTable, max_tables}

-- A root table at 1000 of two entries, 200 and 210; the second table begins like the bytes at 220.
abbrev tables : Memory
tables a =
    if a == 1004
    then 44
    else if a == 1036
    then 200
    else if a == 1040
    then 210
    else if a == 210
    then 1
    else if a == 220
    then 1
    else 0

tables_there : (i : ℕ) → i < 2 → table_at tables 0 1000 (0 + i) ≢ 0
tables_there zero h = λ e. omega (arith, e)
tables_there (suc zero) h = λ e. omega (arith, e)
tables_there (suc (suc i)) h = absurd (omega arith)

acpi_find_table-FirstTable_example :
    ((2 ≤ max_tables)
      × FirstTable tables 0 1000 220 0 2 (done none) (acpi_find_table tables 0 1000 220))
    ⊎ ((max_tables < 2)
        × FirstTable tables 0 1000 220 0 max_tables fault (acpi_find_table tables 0 1000 220))
acpi_find_table-FirstTable_example =
    acpi_find_table-FirstTable tables 0 1000 220 (λ e. omega arith) tables_there

-- The package for the values 5 and 0, the first behind a prefix, at address 3000.
abbrev package_bytes : ℕ → ℕ
package_bytes a =
    if a == 3000
    then b'_'
    else if a == 3001
    then b'S'
    else if a == 3002
    then b'5'
    else if a == 3003
    then b'_'
    else if a == 3004
    then 0x12
    else if a == 3005
    then 6
    else if a == 3006
    then 4
    else if a == 3007
    then 0x0a
    else if a == 3008
    then 5
    else 0
