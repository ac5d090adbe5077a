-- ===== src/Cpu/Gdt.antt =====
-- kernel/src/cpu/gdt.c: segment descriptors.
use spctrx.Common.{
  ℕ, ◌+◌, ◌*◌, ◌%◌, ◌^◌, ◌<◌, ◌≡◌, ◌≢◌, bit_and, List, some, Outcome, done, fault, arith, ltb,
  if◌then◌else◌, length, get_elem?, set, get_elem?-set_self, get_elem?-set_ne, lt→ltb,
}
use spctrx.Common.Words.{shr, u8}
use spctrx.Common.Bits.{bit_and_low}

-- `GDTEntry`; `limit_high` and `flags` are fields of 4 bits.
pub record GdtEntry : Type 0 where
  pub limit_low : ℕ
  pub base_low : ℕ
  pub base_mid : ℕ
  pub access : ℕ
  pub limit_high : ℕ
  pub flags : ℕ
  pub base_high : ℕ

abbrev pub zero_entry : GdtEntry
zero_entry = record {
  limit_low = 0;
  base_low = 0;
  base_mid = 0;
  access = 0;
  limit_high = 0;
  flags = 0;
  base_high = 0;
}

-- The right sides of the assignments, cut to the widths of the fields.
abbrev pub gdt_entry : ℕ → ℕ → ℕ → ℕ → GdtEntry
gdt_entry limit base access flags = record {
  base_low = bit_and base 0xffff;
  base_mid = bit_and (shr base 16) 0xff;
  base_high = bit_and (shr base 24) 0xff;
  access = u8 access;
  limit_low = bit_and limit 0xffff;
  limit_high = bit_and (shr limit 16) 0xf;
  flags = flags % 2 ^ 4;
}

unfoldable pub gdt_set_desc : List GdtEntry → ℕ → ℕ → ℕ → ℕ → ℕ → Outcome (List GdtEntry)
gdt_set_desc gdt i limit base access flags =
    if ltb i (length gdt) then done (set gdt i (gdt_entry limit base access flags)) else fault

-- How the processor puts the parts of a descriptor together.
abbrev pub base_of : GdtEntry → ℕ
base_of e = e.base_low + e.base_mid * 2 ^ 16 + e.base_high * 2 ^ 24

abbrev pub limit_of : GdtEntry → ℕ
limit_of e = e.limit_low + e.limit_high * 2 ^ 16

-- A descriptor that is set, at an index of the table and with parts that fit their widths,
-- describes a segment with the given base, access byte and flags, and the low
-- 20 bits of the limit; the other entries of the table stay as they are.
pub gdt_set_desc_lem :
    (gdt : List GdtEntry) (i limit base access flags : ℕ)
    → i < length gdt
    → base < 2 ^ 32
    → access < 2 ^ 8
    → flags < 2 ^ 4
    → (gdt' : List GdtEntry) × (gdt_set_desc gdt i limit base access flags ≡ done gdt')
      × (e : GdtEntry) × (get_elem? gdt' i ≡ some e)
      × (base_of e ≡ base)
      × (limit_of e ≡ limit % 2 ^ 20)
      × (e.access ≡ access)
      × (e.flags ≡ flags)
      × ((j : ℕ) → i ≢ j → get_elem? gdt' j ≡ get_elem? gdt j)
unfolding gdt_set_desc
gdt_set_desc_lem gdt i limit base access flags h hb ha hf =
    let e = gdt_entry limit base access flags in
    (
      set gdt i e,
      rw (lt→ltb i (length gdt) h),
      e,
      get_elem?-set_self gdt i e h,
      rw (bit_and_low 16 base, bit_and_low 8 (shr base 16), bit_and_low 8 (shr base 24))
          (omega arith),
      rw (bit_and_low 16 limit, bit_and_low 4 (shr limit 16)) (omega arith),
      omega arith,
      omega arith,
      λ j ne. get_elem?-set_ne gdt i j e ne,
    )
