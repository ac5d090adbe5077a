-- ===== src/Cpu/Deliver.antt =====
-- What the processor does with an interrupt, once the tables are loaded.
use spctrx.Common.{
  zero, suc, [], ◌∷◌, get_or, get_elem?-lt, get_elem?-get_or, ℕ, ap, lt→ltb, length-set,
  get_elem?-set_self, get_elem?-set_ne, ◌+◌, ◌-◌, ◌*◌, ◌/◌, ◌^◌, ◌<◌, ◌≡◌, ◌∙◌, refl, Bool, true,
  false, ◌&&◌, List, Option, none, some, done, arith, leb, ◌==◌, if◌then◌else◌, length, get_elem?,
  set, bit_and, eq→==,
}
use spctrx.Cpu.Gdt.{GdtEntry, gdt_entry, gdt_set_desc}
use spctrx.Cpu.Idt.{IdtEntry, IsrStub, isr_stub, offset_of, Leads, isr_init-Leads}
use spctrx.Cpu.Registers.{
  TableRegister, Descriptors, Processor, gdt_init, idt_init, gdt_flush, idt_flush, init_tables,
}

-- A descriptor of a present segment with 64-bit code of the kernel: a code segment of privilege 0 whose flags
-- have the bit of the long mode and not the one of a 32-bit size.
abbrev pub is_kernel_code : GdtEntry → Bool
is_kernel_code e = bit_and e.access 0xf8 == 0x98 && bit_and e.flags 6 == 2

abbrev pub is_some_code : Option GdtEntry → Bool
is_some_code none = false
is_some_code (some e) = is_kernel_code e

-- As the processor's manual says: the entry of the vector must lie within the limit of the table, be a
-- present 64-bit interrupt gate, and its selector must lead, within the other table, to code of the
-- kernel. The result is the address that it jumps to.
abbrev pub from_gate : Descriptors → Processor → Option IdtEntry → Option ℕ
from_gate d p none = none
from_gate d p (some e) =
    if d.gdt_at == p.gdtr.base
      && leb (e.selector / 8 * 8 + 7) p.gdtr.limit
      && e.attributes == 0x8e
      && is_some_code (get_elem? d.gdt (e.selector / 8))
    then some (offset_of e)
    else none

abbrev pub deliver : Descriptors → Processor → ℕ → Option ℕ
deliver d p vector =
    if d.idt_at == p.idtr.base && leb (vector * 16 + 15) p.idtr.limit
    then from_gate d p (get_elem? d.idt vector)
    else none

-- With the two tables as `main` leaves them.
pub record Ready (stub : IsrStub) (d : Descriptors) : Type 0 where
  pub gdt_loaded : d.gdtr ≡ record { limit = 47; base = d.gdt_at }
  pub idt_loaded : d.idtr ≡ record { limit = 4095; base = d.idt_at }
  pub code : (e : GdtEntry) × (get_elem? d.gdt 1 ≡ some e) × (is_kernel_code e ≡ true)
  pub sized : length stub.stubs ≡ 255
  pub gates : (j : ℕ) → j < 256 → Leads stub d.idt j

-- A processor that has the tables loaded.
pub record Loaded (d : Descriptors) (p : Processor) : Type 0 where
  pub same_gdtr : p.gdtr ≡ d.gdtr
  pub same_idtr : p.idtr ≡ d.idtr
  pub kernel_code : p.code ≡ 0x08

-- Each of the 256 vectors leads to the address in its word of `isrStub`.
Ready-deliver :
    (stub : IsrStub) (d : Descriptors) (p : Processor)
    → Ready stub d
    → Loaded d p
    → (vector : ℕ) → vector < 256
    → deliver d p vector ≡ some (isr_stub stub vector)
Ready-deliver stub d p r l vector small =
    let (gate, at, is_gate) = r.gates vector small in
    let (code, code_at, is_code) = r.code in
    let inside : leb (vector * 16 + 15) 4095 ≡ true = ground arith in
    let gdt_at = eq→== d.gdt_at d.gdt_at refl in
    let idt_at = eq→== d.idt_at d.idt_at refl in
    let base = ap TableRegister.base (l.same_idtr ∙ r.idt_loaded) in
    let limit = ap TableRegister.limit (l.same_idtr ∙ r.idt_loaded) in
    let base' = ap TableRegister.base (l.same_gdtr ∙ r.gdt_loaded) in
    let limit' = ap TableRegister.limit (l.same_gdtr ∙ r.gdt_loaded) in
    rw (
      base, limit, idt_at, inside, at, base', limit', gdt_at, is_gate.kernel_code, is_gate.kind,
      code_at, is_code, is_gate.target,
    )

-- The processor delivers each vector that has a stub to it. Vector 255 has none: it goes to whatever the
-- word behind the table says.
pub record Delivers (stub : IsrStub) (d : Descriptors) (p : Processor) : Type 0 where
  pub to_stub :
      (vector address : ℕ)
      → get_elem? stub.stubs vector ≡ some address
      → deliver d p vector ≡ some address
  pub behind : deliver d p 255 ≡ some stub.behind

past_end : (xs : List ℕ) (n d : ℕ) → length xs ≡ n → get_or xs n d ≡ d
past_end [] n d e = refl
past_end (x ∷ xs) zero d e = absurd (omega arith)
past_end (x ∷ xs) (suc n) d e = past_end xs n d (omega arith)

pub Ready-Delivers :
    (stub : IsrStub) (d : Descriptors) (p : Processor)
    → Ready stub d
    → Loaded d p
    → Delivers stub d p
Ready-Delivers stub d p r l = record {
  to_stub = λ vector address at.
      let inside = get_elem?-lt stub.stubs vector at in
      let there = get_elem?-get_or stub.stubs vector stub.behind inside in
      let same : isr_stub stub vector ≡ address = cc (there, at) in
      Ready-deliver stub d p r l vector (omega (arith, inside, r.sized)) ∙ ap some same;
  behind =
      Ready-deliver stub d p r l 255 (omega arith)
      ∙ ap some (past_end stub.stubs 255 stub.behind r.sized);
}

set_in :
    (gdt : List GdtEntry) (i limit base access flags : ℕ)
    → length gdt ≡ 6
    → i < 6
    → (gdt_set_desc gdt i limit base access flags
        ≡ done (set gdt i (gdt_entry limit base access flags)))
      × (length (set gdt i (gdt_entry limit base access flags)) ≡ 6)
unfolding gdt_set_desc
set_in gdt i limit base access flags six inside = (
  rw (lt→ltb i (length gdt) (omega arith)),
  length-set gdt i (gdt_entry limit base access flags) ∙ six,
)

-- What `gdtInit` leaves of the static variables, with the code of the kernel at index 1.
pub record Segments (d d' : Descriptors) : Type 0 where
  pub loaded : d'.gdtr ≡ record { limit = 47; base = d'.gdt_at }
  pub same_idt : d'.idt ≡ d.idt
  pub same_idt_at : d'.idt_at ≡ d.idt_at
  pub code : (e : GdtEntry) × (get_elem? d'.gdt 1 ≡ some e) × (is_kernel_code e ≡ true)

gdt_init-Segments :
    (d : Descriptors) (p : Processor)
    → length d.gdt ≡ 6
    → (d' : Descriptors) × (gdt_init d p ≡ done (d', gdt_flush d' p)) × Segments d d'
unfolding gdt_init
gdt_init-Segments d p six =
    let e₁ = gdt_entry 0x00ffffff 0 0x9a 0xa in
    let g₀ = set d.gdt 0 (gdt_entry 0 0 0 0) in
    let g₁ = set g₀ 1 e₁ in
    let g₂ = set g₁ 2 (gdt_entry 0x00ffffff 0 0x92 0xc) in
    let g₃ = set g₂ 3 (gdt_entry 0x00ffffff 0 0xfa 0xa) in
    let g₄ = set g₃ 4 (gdt_entry 0x00ffffff 0 0xf2 0xc) in
    let (r₀, n₀) = set_in d.gdt 0 0 0 0 0 six (omega arith) in
    let (r₁, n₁) = set_in g₀ 1 0x00ffffff 0 0x9a 0xa n₀ (omega arith) in
    let (r₂, n₂) = set_in g₁ 2 0x00ffffff 0 0x92 0xc n₁ (omega arith) in
    let (r₃, n₃) = set_in g₂ 3 0x00ffffff 0 0xfa 0xa n₂ (omega arith) in
    let (r₄, n₄) = set_in g₃ 4 0x00ffffff 0 0xf2 0xc n₃ (omega arith) in
    (
      record d { gdt = g₄; gdtr = record { limit = 47; base = d.gdt_at } },
      rw (r₀, r₁, r₂, r₃, r₄),
      record {
        loaded = refl;
        same_idt = refl;
        same_idt_at = refl;
        code = (
          e₁,
          get_elem?-set_ne g₃ 4 1 _ (omega arith)
              ∙ (get_elem?-set_ne g₂ 3 1 _ (omega arith)
                  ∙ (get_elem?-set_ne g₁ 2 1 _ (omega arith)
                      ∙ get_elem?-set_self g₀ 1 e₁ (omega (arith, n₀)))),
          refl,
        );
      },
    )

-- With tables of 6 and 256 entries and the 255 stubs of `isrStub`, all words of 64 bits, `gdtInit`,
-- `idtInit` and `isrInit` return one after another. The processor then delivers each vector below 255 to
-- its stub, and so does any processor that loads the tables as this one did. Vector 255 has no stub:
-- its gate leads to the address that the word behind the table happens to be.
pub init_tables-deliver :
    (stub : IsrStub) (d : Descriptors) (p : Processor)
    → length d.gdt ≡ 6
    → length d.idt ≡ 256
    → length stub.stubs ≡ 255
    → ((j : ℕ) → isr_stub stub j < 2 ^ 64)
    → (d' : Descriptors) × (p' : Processor) × (init_tables stub d p ≡ done (d', p'))
      × Ready stub d'
      × Delivers stub d' p'
      × ((q : Processor) → Delivers stub d' (idt_flush d' (gdt_flush d' q)))
unfolding init_tables idt_init
init_tables-deliver stub d p six all sized small =
    let (d₁, run, s) = gdt_init-Segments d p six in
    let (idt, filled, len, gates) = isr_init-Leads stub d₁.idt (ap length s.same_idt ∙ all) small in
    let d' : Descriptors = record d₁ {
      idtr = record { limit = 16 * 256 - 1; base = d₁.idt_at };
      idt = idt;
    } in
    let ready : Ready stub d' = record {
      gdt_loaded = s.loaded;
      idt_loaded = refl;
      code = s.code;
      sized = sized;
      gates = gates;
    } in
    (
      d',
      idt_flush d' (gdt_flush d₁ p),
      rw (run, filled),
      ready,
      Ready-Delivers stub d' (idt_flush d' (gdt_flush d₁ p)) ready
          (record { same_gdtr = refl; same_idtr = refl; kernel_code = refl }),
      λ q.
          Ready-Delivers stub d' (idt_flush d' (gdt_flush d' q)) ready
            (record { same_gdtr = refl; same_idtr = refl; kernel_code = refl }),
    )
