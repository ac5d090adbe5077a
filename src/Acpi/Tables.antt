-- ===== src/Acpi/Tables.antt =====
-- The search for a table by its signature.
use spctrx.Common.{
  ◌≤◌, false, true, ℕ, zero, suc, ◌+◌, ◌<◌, ◌≡◌, ◌≢◌, refl, sym, ap, ◌∙◌, Option, none, some,
  Outcome, done, fault, leb, arith, if◌then◌else◌, Bool-cases, ◌⊎◌, inl, inr,
}
use spctrx.Memory.Block.{
  Memory, Order, less, equal, greater, memcmp, memcmp-Compared, Compared, Differs,
}
use spctrx.Acpi.Layout.{sdt_length, sdt_size}
use spctrx.Acpi.Defs.{
  is_equal, table_at, table_count, table_loop, max_tables, rounds, after_rounds, acpi_find_table,
}

-- The `n` bytes at `a` are those at `b`.
abbrev pub Same : Memory → ℕ → ℕ → ℕ → Type 0
Same m n a b = (i : ℕ) → i < n → m (a + i) ≡ m (b + i)

-- What the test of `memcmp` against 0 tells.
pub data Test (m : Memory) (n a b : ℕ) : Order → Type 0 where
  same : {r : Order} → is_equal r ≡ true → Same m n a b → Test m n a b r
  other : {r : Order} → is_equal r ≡ false → (Same m n a b → ⊥) → Test m n a b r

not-Same : {m : Memory} {a b n x y : ℕ} → Differs m a b n x y → x ≢ y → Same m n a b → ⊥
not-Same d ne s = ne (sym d.left ∙ s d.position d.within ∙ d.right)

Compared-Test : (m : Memory) (a b n : ℕ) (r : Order) → Compared m a b n r → Test m n a b r
Compared-Test m a b n less (x, y, lt, d) = other refl (not-Same d (λ e. omega arith))
Compared-Test m a b n equal s = same refl s
Compared-Test m a b n greater (x, y, lt, d) = other refl (not-Same d (λ e. omega arith))

pub memcmp-Test :
    (m : Memory) (a b n : ℕ)
    → a ≢ 0
    → b ≢ 0
    → 0 < n
    → (r : Order) × (memcmp m a b n ≡ done r) × Test m n a b r
memcmp-Test m a b n ha hb pos =
    let (r, e, c) = memcmp-Compared m a b n ha hb pos in (r, e, Compared-Test m a b n r c)

-- What a search among the tables from `i` on, `n` of them, ends with.
pub data FirstTable (m : Memory) (hhdm rsdt signature i n : ℕ) (last result : Outcome (Option ℕ))
    : Type 0 where
  hit :
      (k : ℕ)
      → result ≡ done (some (table_at m hhdm rsdt (i + k)))
      → k < n
      → Same m 4 (table_at m hhdm rsdt (i + k)) signature
      → ((j : ℕ) → j < k → Same m 4 (table_at m hhdm rsdt (i + j)) signature → ⊥)
      → FirstTable m hhdm rsdt signature i n last result
  miss :
      result ≡ last
      → ((j : ℕ) → j < n → Same m 4 (table_at m hhdm rsdt (i + j)) signature → ⊥)
      → FirstTable m hhdm rsdt signature i n last result

module _ (m : Memory) (hhdm rsdt signature : ℕ) (named : signature ≢ 0) where
  abbrev IsTable : ℕ → Type 0
  IsTable i = Same m 4 (table_at m hhdm rsdt i) signature

  none_at :
      (i n : ℕ)
      → (IsTable i → ⊥)
      → ((j : ℕ) → j < n → IsTable (i + 1 + j) → ⊥)
      → (j : ℕ) → j < suc n
      → IsTable (i + j)
      → ⊥
  none_at i n now later zero h s = let e : i + 0 ≡ i = omega arith in now (rw e at s)
  none_at i n now later (suc j) h s =
      let e : i + suc j ≡ i + 1 + j = omega arith in later j (omega arith) (rw e at s)

  table_loop-step :
      (n i : ℕ) (last rest : Outcome (Option ℕ))
      → (IsTable i → ⊥)
      → FirstTable m hhdm rsdt signature (i + 1) n last rest
      → FirstTable m hhdm rsdt signature i (suc n) last rest
  table_loop-step n i last rest now (hit k e lt s before) =
      let shift : i + 1 + k ≡ i + suc k = omega arith in
      hit (suc k) (e ∙ ap (λ (j : ℕ). done (some (table_at m hhdm rsdt j))) shift) (omega arith)
        (rw shift at s) (none_at i k now before)
  table_loop-step n i last rest now (miss e none_later) = miss e (none_at i n now none_later)

  table_loop-FirstTable :
      (n i : ℕ) (last : Outcome (Option ℕ))
      → ((j : ℕ) → j < n → table_at m hhdm rsdt (i + j) ≢ 0)
      → FirstTable m hhdm rsdt signature i n last (table_loop n m hhdm rsdt signature i last)
  unfolding table_loop
  table_loop-FirstTable zero i last there = miss refl (λ j h. absurd (omega arith))
  table_loop-FirstTable (suc n) i last there =
      let here : i + 0 ≡ i = omega arith in
      let (r, e, t) =
        memcmp-Test m (table_at m hhdm rsdt i) signature 4 (rw here at (there 0 (omega arith)))
          named (omega arith) in
      let there' : (j : ℕ) → j < n → table_at m hhdm rsdt (i + 1 + j) ≢ 0 = λ j h.
        let shift : i + suc j ≡ i + 1 + j = omega arith in
        rw shift at (there (suc j) (omega arith)) in
      rw e (decide n i last r t (table_loop-FirstTable n (i + 1) last there'))
    where
      decide :
          (n i : ℕ) (last : Outcome (Option ℕ)) (r : Order)
          → Test m 4 (table_at m hhdm rsdt i) signature r
          → FirstTable m hhdm rsdt signature
              (i + 1)
              n
              last
              (table_loop n m hhdm rsdt signature (i + 1) last)
          → FirstTable m hhdm rsdt signature i (suc n) last (
              if is_equal r
              then done (some (table_at m hhdm rsdt i))
              else table_loop n m hhdm rsdt signature (i + 1) last)
      decide n i last r (same e s) rest =
          let here : i ≡ i + 0 = omega arith in
          rw e (
            hit 0 (ap (λ (j : ℕ). done (some (table_at m hhdm rsdt j))) here) (omega arith)
              (rw here at s) (λ j h. absurd (omega arith)))
      decide n i last r (other e no_table) rest = rw e (table_loop-step n i last _ no_table rest)

leb-cases : (n k : ℕ) → ((leb n k ≡ true) × (n ≤ k)) ⊎ ((leb n k ≡ false) × (k < n))
leb-cases n k = elim (Bool-cases (leb n k)) [
  | inl yes_le ↦ inl (yes_le, ground arith)
  | inr no_le ↦ inr (no_le, ground arith)
]

-- With none of the tables at address 0 and at most 256 of them, `acpiFindTable` returns the first table that
-- begins with the four bytes of the signature, and null when none does. When the length says more than 256
-- tables, it returns the first such among 256, and when there is none it reads past the end of the array
-- of their addresses.
pub acpi_find_table-FirstTable :
    (m : Memory) (hhdm rsdt signature : ℕ)
    → signature ≢ 0
    → ((i : ℕ) → i < rounds m rsdt → table_at m hhdm rsdt (0 + i) ≢ 0)
    → ((table_count m rsdt ≤ max_tables)
        × FirstTable m hhdm rsdt signature 0
            (table_count m rsdt)
            (done none)
            (acpi_find_table m hhdm rsdt signature))
      ⊎ ((max_tables < table_count m rsdt)
          × FirstTable m hhdm rsdt signature 0 max_tables fault
              (acpi_find_table m hhdm rsdt signature))
unfolding acpi_find_table
acpi_find_table-FirstTable m hhdm rsdt signature named there =
    let all =
      table_loop-FirstTable m hhdm rsdt signature named (rounds m rsdt) 0 (after_rounds m rsdt)
        there in
    elim (leb-cases (table_count m rsdt) max_tables) [
      | inl (test, few) ↦ inl (few, rw test (rw test at all))
      | inr (test, many) ↦ inr (many, rw test (rw test at all))
    ]

-- A header whose length is less than its own size makes the number of tables wrap.
pub short_header :
    (m : Memory) (rsdt : ℕ) → sdt_length m rsdt < sdt_size → max_tables < table_count m rsdt
short_header m rsdt short = omega (arith, short)
