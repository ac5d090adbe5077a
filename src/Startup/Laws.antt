-- ===== src/Startup/Laws.antt =====
-- The timer reaches its handler.
use spctrx.Common.{true, ℕ, ◌+◌, ◌-◌, ◌*◌, ◌/◌, ◌%◌, ◌^◌, ◌<◌, ◌≤◌, ◌≡◌, ◌⊎◌, inl, inr, done, arith}
use spctrx.Irq
use spctrx.Irq.{
  Irq, Fresh, taken, irq_alloc_vector, irq_install, isr_handler, irq_alloc_vector-Fresh,
  isr_handler-irq_install,
}
use spctrx.IoApic.{IoApic, IoApics, Serves, Effective, Redirected, io_apic_map_isa-Redirected}
use spctrx.Startup.Defs.{test_apic}

vector_range :
    (s s' : Irq) (v : ℕ)
    → Fresh s v s' ⊎ ((v ≡ 32) × ((w : ℕ) → 32 ≤ w → w < 256 → taken s w ≡ true))
    → (32 ≤ v) × (v < 256)
vector_range s s' v (inl fresh) = fresh.range
vector_range s s' v (inr (same, all_taken)) = (omega arith, omega arith)

-- From a valid table of handlers, and with a controller that serves the interrupt that ISA interrupt 0 is
-- overridden to, `test` sets up a vector such that an interrupt on it calls the timer's handler and that
-- the entry of that interrupt in the controller leads to it.
pub test_apic-Redirected :
    (handler : ℕ) (irq : Irq) (apics : IoApics) (gsi flags : ℕ) (a : IoApic)
    → Irq.IsValid irq
    → Effective 0 apics.overrides gsi flags
    → Serves gsi apics.apics a
    → gsi < 2 ^ 32
    → (vector : ℕ) × (irq' : Irq) × (apics' : IoApics) × (test_apic handler irq apics
        ≡ done (vector, irq', apics'))
      × (isr_handler irq' vector ≡ done handler)
      × Redirected apics a.io_addr
          (gsi - a.gsi_start)
          (vector + flags % 2 * 2 ^ 13 + flags / 4 % 2 * 2 ^ 15)
          apics'
unfolding test_apic
test_apic-Redirected handler irq apics gsi flags a valid effective serves small =
    let (v, irq₁, alloc, valid₁, fresh) = irq_alloc_vector-Fresh irq valid in
    let (lo, hi) = vector_range irq irq₁ v fresh in
    let (irq₂, install, valid₂, used, calls) =
      isr_handler-irq_install irq₁ v handler valid₁ lo hi in
    let (apics', map, redirected) =
      io_apic_map_isa-Redirected apics 0 v gsi flags a effective serves small hi in
    (v, irq₂, apics', rw (alloc, install, map), calls, redirected)
