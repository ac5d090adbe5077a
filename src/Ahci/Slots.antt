-- ===== src/Ahci/Slots.antt =====
-- The search for a free command slot.
use spctrx.Common.{
  ℕ, zero, suc, ◌+◌, ◌/◌, ◌%◌, ◌^◌, ◌<◌, ◌≡◌, refl, ◌∙◌, ap, bit_and, bit_or, inl, inr, Option,
  none, some, arith, ◌==◌, Bool-cases,
}
use spctrx.Common.Words.{shr}
use spctrx.Common.Bits.{digit, digit-lt, bit_and_low, bit_and_step, bit_and-pow_test}
use spctrx.Ahci.Defs.{HbaPort, find_free_loop, cmd_slots, ahci_cmd_find_free}

bit_and_half : (a b : ℕ) → bit_and a b / 2 ≡ bit_and (a / 2) (b / 2)
bit_and_half a b = omega (arith, bit_and_step a b)

-- Bits 8 to 11 of the register, of the five that the number of slots has.
cmd_slots-mod : (reg : ℕ) → cmd_slots reg ≡ reg / 2 ^ 8 % 2 ^ 4
cmd_slots-mod reg =
    let e₀ : bit_and reg 0xf00 / 2 ≡ bit_and (reg / 2) 0x780 = bit_and_half reg 0xf00 in
    let e₁ : bit_and (reg / 2) 0x780 / 2 ≡ bit_and ((reg / 2) / 2) 0x3c0 =
      bit_and_half (reg / 2) 0x780 in
    let e₂ : bit_and ((reg / 2) / 2) 0x3c0 / 2 ≡ bit_and (((reg / 2) / 2) / 2) 0x1e0 =
      bit_and_half ((reg / 2) / 2) 0x3c0 in
    let e₃ : bit_and (((reg / 2) / 2) / 2) 0x1e0 / 2 ≡ bit_and ((((reg / 2) / 2) / 2) / 2) 0xf0 =
      bit_and_half (((reg / 2) / 2) / 2) 0x1e0 in
    let e₄ : bit_and ((((reg / 2) / 2) / 2) / 2) 0xf0 / 2
        ≡ bit_and (((((reg / 2) / 2) / 2) / 2) / 2) 0x78 =
      bit_and_half ((((reg / 2) / 2) / 2) / 2) 0xf0 in
    let e₅ : bit_and (((((reg / 2) / 2) / 2) / 2) / 2) 0x78 / 2
        ≡ bit_and ((((((reg / 2) / 2) / 2) / 2) / 2) / 2) 0x3c =
      bit_and_half (((((reg / 2) / 2) / 2) / 2) / 2) 0x78 in
    let e₆ : bit_and ((((((reg / 2) / 2) / 2) / 2) / 2) / 2) 0x3c / 2
        ≡ bit_and (((((((reg / 2) / 2) / 2) / 2) / 2) / 2) / 2) 0x1e =
      bit_and_half ((((((reg / 2) / 2) / 2) / 2) / 2) / 2) 0x3c in
    let e₇ : bit_and (((((((reg / 2) / 2) / 2) / 2) / 2) / 2) / 2) 0x1e / 2
        ≡ bit_and ((((((((reg / 2) / 2) / 2) / 2) / 2) / 2) / 2) / 2) 0xf =
      bit_and_half (((((((reg / 2) / 2) / 2) / 2) / 2) / 2) / 2) 0x1e in
    omega (arith, bit_and_low 4 ((((((((reg / 2) / 2) / 2) / 2) / 2) / 2) / 2) / 2))

-- What a search among `n` slots ends with, given the word of the slots in use.
pub data Slot (slots n : ℕ) (o : Option ℕ) : Type 0 where
  free :
      (r : ℕ)
      → o ≡ some r
      → r < n
      → digit r slots ≡ 0
      → ((i : ℕ) → i < r → digit i slots ≡ 1)
      → Slot slots n o
  full : o ≡ none → ((i : ℕ) → i < n → digit i slots ≡ 1) → Slot slots n o

-- The same for a word from which `i` slots have been shifted out.
data From (slots n i : ℕ) (o : Option ℕ) : Type 0 where
  hit :
      (r : ℕ)
      → o ≡ some (i + r)
      → r < n
      → digit r slots ≡ 0
      → ((j : ℕ) → j < r → digit j slots ≡ 1)
      → From slots n i o
  miss : o ≡ none → ((j : ℕ) → j < n → digit j slots ≡ 1) → From slots n i o

above :
    (slots n : ℕ)
    → digit zero slots ≡ 1
    → ((j : ℕ) → j < n → digit j (slots / 2) ≡ 1)
    → (j : ℕ) → j < suc n
    → digit j slots ≡ 1
unfolding digit
above slots n now later zero h = now
above slots n now later (suc j) h = later j (omega arith)

From-next :
    (slots n i : ℕ) (o : Option ℕ)
    → digit zero slots ≡ 1
    → From (slots / 2) n (i + 1) o
    → From slots (suc n) i o
unfolding digit
From-next slots n i o used (hit r e lt zero_r before) =
    let shift : i + 1 + r ≡ i + suc r = omega arith in
    hit (suc r) (e ∙ ap some shift) (omega arith) zero_r (above slots r used before)
From-next slots n i o used (miss e all) = miss e (above slots n used all)

find_free_loop-From : (n slots i : ℕ) → From slots n i (find_free_loop n slots i)
unfolding find_free_loop
find_free_loop-From zero slots i = miss refl (λ j h. absurd (omega arith))
find_free_loop-From (suc n) slots i = elim (Bool-cases (bit_and slots 1 == 0)) [
  | inl clear ↦
      let here : i ≡ i + 0 = omega arith in
      let z : digit 0 slots ≡ 0 = ground (arith, bit_and-pow_test 0 slots) in
      rw clear (hit 0 (ap some here) (omega arith) z (λ j h. absurd (omega arith)))
  | inr used ↦
      let one : digit 0 slots ≡ 1 = ground (arith, bit_and-pow_test 0 slots, digit-lt 0 slots) in
      rw used (
        From-next slots n i (find_free_loop n (shr slots 1) (i + 1)) one
          (find_free_loop-From n (shr slots 1) (i + 1)))
]

From-Slot : {slots n : ℕ} {o : Option ℕ} → From slots n 0 o → Slot slots n o
From-Slot (hit r e lt z before) =
    let same : 0 + r ≡ r = omega arith in free r (e ∙ ap some same) lt z before
From-Slot (miss e all) = full e all

-- `ahciCmdFindFree` looks at the slots below the number in bits 8 to 11 of the capabilities. It gives
-- the lowest of them that is in use neither by `sAct` nor by `ci`, and -1 exactly if all are in use.
pub ahci_cmd_find_free-Slot :
    (cap : ℕ) (port : HbaPort)
    → (n : ℕ) × (n ≡ cap / 2 ^ 8 % 2 ^ 4)
      × Slot (bit_or port.s_act port.ci) n (ahci_cmd_find_free cap port)
unfolding ahci_cmd_find_free
ahci_cmd_find_free-Slot cap port = (
  cmd_slots cap,
  cmd_slots-mod cap,
  From-Slot (find_free_loop-From (cmd_slots cap) (bit_or port.s_act port.ci) 0),
)
