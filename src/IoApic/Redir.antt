-- ===== src/IoApic/Redir.antt =====
-- Redirection: which entry is written, and with what.
use spctrx.Common.{
  ℕ, ◌+◌, ◌-◌, ◌*◌, ◌/◌, ◌%◌, ◌^◌, ◌<◌, ◌≤◌, ◌≡◌, ◌≢◌, ◌⊎◌, refl, ◌∙◌, bit_or, bit_and, true, false,
  ◌&&◌, List, [], ◌∷◌, some, done, arith, ltb, leb, eq→==, ne→==,
}
use spctrx.Common.Words.{shr, shl32, u8, u32}
use spctrx.Common.Bits.{bit_or_above, bit_and_low, bit_or-zero_left}
use spctrx.IoApic.Defs.{
  IoApic, IsaOverride, IoApics, redir_low, io_apic_write_redir_entry, io_apic_find_for_gsi, map_at,
  io_apic_map, io_apic_map_isa, map_isa_loop,
}

-- Each argument has its own bits in the low word.
redir_low-fields :
    (vector polarity trigger : ℕ)
    → vector < 2 ^ 8
    → redir_low vector 0 0 0 polarity trigger 0
      ≡ vector + polarity % 2 * 2 ^ 13 + trigger % 2 * 2 ^ 15
redir_low-fields vector polarity trigger h =
    let v : bit_or 0 (u8 vector) ≡ vector = bit_or-zero_left (u8 vector) ∙ omega arith in
    let step : (k low high : ℕ) → low < 2 ^ k → bit_or low (high * 2 ^ k) ≡ low + high * 2 ^ k =
      bit_or_above in
    let w₁ = step 8 vector 0 h in
    let w₂ = step 11 vector 0 (omega arith) in
    let w₃ = step 12 vector 0 (omega arith) in
    let w₄ = step 13 vector (polarity % 2) (omega arith) in
    let w₅ = step 15 (vector + polarity % 2 * 2 ^ 13) (trigger % 2) (omega arith) in
    let w₆ = step 16 (vector + polarity % 2 * 2 ^ 13 + trigger % 2 * 2 ^ 15) 0 (omega arith) in
    let z : vector + 0 ≡ vector = omega arith in
    rw (v, bit_and_low 1 polarity, bit_and_low 1 trigger, w₁, z, w₂, z, w₃, z, w₄, w₅, w₆)
      (omega arith)

-- Entry `entry` of the controller at `io_addr` holds `low` and a destination of 0, and no other
-- register is changed.
pub record Redirected (s : IoApics) (io_addr entry low : ℕ) (s' : IoApics) : Type 0 where
  pub same_apics : s'.apics ≡ s.apics
  pub low_word : s'.regs io_addr (0x10 + 2 * entry) ≡ low
  pub high_word : s'.regs io_addr (0x10 + 2 * entry + 1) ≡ 0
  pub others :
      (a r : ℕ)
      → (a ≢ io_addr) ⊎ ((r ≢ 0x10 + 2 * entry) × (r ≢ 0x10 + 2 * entry + 1))
      → s'.regs a r ≡ s.regs a r

-- The controller is the first in the list whose range has the interrupt.
pub data Serves (gsi : ℕ) : List IoApic → IoApic → Type 0 where
  here :
      {a : IoApic} {apics : List IoApic}
      → a.gsi_start ≤ gsi
      → gsi < a.gsi_end
      → Serves gsi (a ∷ apics) a
  later :
      {a b : IoApic} {apics : List IoApic}
      → (gsi < b.gsi_start) ⊎ (b.gsi_end ≤ gsi)
      → Serves gsi apics a
      → Serves gsi (b ∷ apics) a

find_for_gsi-Serves :
    {gsi : ℕ} {apics : List IoApic} {a : IoApic}
    → Serves gsi apics a
    → (io_apic_find_for_gsi apics gsi ≡ some a) × (a.gsi_start ≤ gsi)
unfolding io_apic_find_for_gsi
find_for_gsi-Serves {gsi} (here {a} lo hi) =
    let test : (leb a.gsi_start gsi && ltb gsi a.gsi_end) ≡ true = ground arith in (rw test, lo)
find_for_gsi-Serves {gsi} (later {a} {b} out rest) =
    let test : (leb b.gsi_start gsi && ltb gsi b.gsi_end) ≡ false = ground arith in
    let (e, lo) = find_for_gsi-Serves rest in (rw test e, lo)

-- The override that applies to an ISA interrupt: the first in the list with its number.
pub data Effective (isa : ℕ) : List IsaOverride → ℕ → ℕ → Type 0 where
  identity : Effective isa [] isa 0
  override :
      {o : IsaOverride} {os : List IsaOverride}
      → o.isa_source ≡ isa
      → Effective isa (o ∷ os) o.gsi o.flags
  skip :
      {o : IsaOverride} {os : List IsaOverride} {gsi flags : ℕ}
      → o.isa_source ≢ isa
      → Effective isa os gsi flags
      → Effective isa (o ∷ os) gsi flags

map-Redirected :
    (s : IoApics) (gsi vector polarity trigger : ℕ) (a : IoApic)
    → Serves gsi s.apics a
    → gsi < 2 ^ 32
    → vector < 2 ^ 8
    → polarity < 4
    → trigger < 4
    → (s' : IoApics) × (io_apic_map s gsi vector polarity trigger ≡ done s')
      × Redirected s a.io_addr
          (gsi - a.gsi_start)
          (vector + polarity % 2 * 2 ^ 13 + trigger % 2 * 2 ^ 15)
          s'
unfolding io_apic_map map_at io_apic_write_redir_entry
map-Redirected s gsi vector polarity trigger a serves small hv hp ht =
    let (e, lo) = find_for_gsi-Serves serves in
    let entry : u32 (gsi + 2 ^ 32 - a.gsi_start) ≡ gsi - a.gsi_start = omega arith in
    let up : u8 polarity ≡ polarity = omega arith in
    let ut : u8 trigger ≡ trigger = omega arith in
    let high : bit_or 0 (shl32 0 24) ≡ 0 = bit_or-zero_left 0 in
    let regs' =
      io_apic_write_redir_entry s.regs a (gsi - a.gsi_start) vector 0 0 0 polarity trigger 0 0 in
    (
      record s { regs = regs' },
      rw (e, entry, up, ut),
      record {
        same_apics = refl;
        low_word = ground (arith, redir_low-fields vector polarity trigger hv);
        high_word = ground (arith, high);
        others = λ b r o. ground arith;
      },
    )

map_flags-Redirected :
    (s : IoApics) (gsi vector polarity trigger flags : ℕ) (a : IoApic)
    → polarity ≡ flags % 4
    → trigger ≡ flags / 4 % 4
    → Serves gsi s.apics a
    → gsi < 2 ^ 32
    → vector < 2 ^ 8
    → (s' : IoApics) × (io_apic_map s gsi vector polarity trigger ≡ done s')
      × Redirected s a.io_addr
          (gsi - a.gsi_start)
          (vector + flags % 2 * 2 ^ 13 + flags / 4 % 2 * 2 ^ 15)
          s'
map_flags-Redirected s gsi vector polarity trigger flags a p t serves small hv =
    let (s', e, r) =
      map-Redirected s gsi vector polarity trigger a serves small hv (omega arith) (omega arith) in
    (
      s',
      e,
      record {
        same_apics = r.same_apics;
        low_word = r.low_word ∙ omega arith;
        high_word = r.high_word;
        others = r.others;
      },
    )

map_isa_loop-Redirected :
    (s : IoApics) (isa vector : ℕ) (os : List IsaOverride) (gsi flags : ℕ) (a : IoApic)
    → Effective isa os gsi flags
    → Serves gsi s.apics a
    → gsi < 2 ^ 32
    → vector < 2 ^ 8
    → (s' : IoApics) × (map_isa_loop s os isa vector ≡ done s')
      × Redirected s a.io_addr
          (gsi - a.gsi_start)
          (vector + flags % 2 * 2 ^ 13 + flags / 4 % 2 * 2 ^ 15)
          s'
unfolding map_isa_loop
map_isa_loop-Redirected s isa vector [] gsi flags a identity serves small hv =
    map-Redirected s isa vector 0 0 a serves small hv (omega arith) (omega arith)
map_isa_loop-Redirected s isa vector (o ∷ os) gsi flags a (override same) serves small hv =
    rw (eq→== o.isa_source isa same) (
      map_flags-Redirected s o.gsi vector (bit_and o.flags 0x3) (bit_and (shr o.flags 2) 0x3)
        o.flags a (bit_and_low 2 o.flags) (bit_and_low 2 (shr o.flags 2)) serves small hv)
map_isa_loop-Redirected s isa vector (o ∷ os) gsi flags a (skip other rest) serves small hv =
    rw (ne→== o.isa_source isa other)
      (map_isa_loop-Redirected s isa vector os gsi flags a rest serves small hv)

-- An ISA interrupt whose target is below 2^32 and served by a controller is routed to a vector
-- below 256 through its override, if it has one: the entry of the controller that
-- serves the interrupt holds the vector, with the lowest bit of the override's polarity field in bit 13
-- and the lowest bit of its trigger field in bit 15, and no other register changes.
pub io_apic_map_isa-Redirected :
    (s : IoApics) (isa vector gsi flags : ℕ) (a : IoApic)
    → Effective isa s.overrides gsi flags
    → Serves gsi s.apics a
    → gsi < 2 ^ 32
    → vector < 2 ^ 8
    → (s' : IoApics) × (io_apic_map_isa s isa vector ≡ done s')
      × Redirected s a.io_addr
          (gsi - a.gsi_start)
          (vector + flags % 2 * 2 ^ 13 + flags / 4 % 2 * 2 ^ 15)
          s'
unfolding io_apic_map_isa
io_apic_map_isa-Redirected s isa vector gsi flags a eff serves small hv =
    map_isa_loop-Redirected s isa vector s.overrides gsi flags a eff serves small hv
