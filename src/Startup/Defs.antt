-- ===== src/Startup/Defs.antt =====
-- The two parts of `test` that are compiled, on the timer and on a file, and the handler of the timer.
use spctrx.Common.{ℕ, List, [], ◌∷◌, ◌++◌, Outcome, done, ◌>>=◌}
use spctrx.Vfs.State.{Stale, Vfs}
use spctrx.Vfs.Mount.{vfs_create, vfs_write, vfs_read}
use spctrx.Irq.{Irq, irq_alloc_vector, irq_install}
use spctrx.IoApic.{IoApics, io_apic_map_isa}
use spctrx.Apic.{Lapic, lapic_send_eoi}

-- `tick` is the address of the handler.
unfoldable pub test_apic : ℕ → Irq → IoApics → Outcome (ℕ × Irq × IoApics)
test_apic tick irq apics = do
  (vector, irq₁) ← irq_alloc_vector irq
  irq₂ ← irq_install irq₁ vector tick
  apics' ← io_apic_map_isa apics 0 vector
  done (vector, irq₂, apics')

-- The handler ends the interrupt.
abbrev pub tick : ℕ → Lapic → Lapic
tick hhdm s = lapic_send_eoi hhdm s

-- "test" and "hello world!", with their NULs.
abbrev pub test_name : List ℕ
test_name = b't' ∷ b'e' ∷ b's' ∷ b't' ∷ []

abbrev pub hello : List ℕ
hello = b'h' ∷ b'e' ∷ b'l' ∷ b'l' ∷ b'o' ∷ b' ' ∷ b'w' ∷ b'o' ∷ b'r' ∷ b'l' ∷ b'd' ∷ b'!' ∷ 0 ∷ []

-- What `read` holds at the end, with the result of the last call.
unfoldable pub test_vfs : Stale → Vfs → Outcome (ℕ × List ℕ)
test_vfs stale s = do
  (created, s₁) ← vfs_create stale s (b'/' ∷ []) (test_name ++ 0 ∷ [])
  (written, s₂) ← vfs_write s₁ (b'/' ∷ test_name) 1 hello
  vfs_read s₂ (b'/' ∷ test_name) 0 14
