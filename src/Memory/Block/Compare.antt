-- ===== src/Memory/Block/Compare.antt =====
-- `memcmp` finds the first difference.
use spctrx.Common.{
  ℕ, zero, suc, ◌+◌, ◌<◌, ◌≡◌, ◌≢◌, inl, inr, done, arith, ltb, ◌==◌, Bool-cases, ne→==, lt→ltb,
}
use spctrx.Memory.Block.Defs.{Memory, Order, less, equal, greater, compare_loop, memcmp}

-- The first of the two blocks' bytes that differ, at position `k`, are `x` in the first block and `y`
-- in the second.
pub record Differs (m : Memory) (a b n x y : ℕ) : Type 0 where
  pub position : ℕ
  pub within : position < n
  pub same_before : (i : ℕ) → i < position → m (a + i) ≡ m (b + i)
  pub left : m (a + position) ≡ x
  pub right : m (b + position) ≡ y

abbrev pub Compared : Memory → ℕ → ℕ → ℕ → Order → Type 0
Compared m a b n less = (x : ℕ) × (y : ℕ) × (x < y) × Differs m a b n x y
Compared m a b n equal = (i : ℕ) → i < n → m (a + i) ≡ m (b + i)
Compared m a b n greater = (x : ℕ) × (y : ℕ) × (y < x) × Differs m a b n x y

shift : (m : Memory) (a b i : ℕ) → m (a + 1 + i) ≡ m (b + 1 + i) → m (a + suc i) ≡ m (b + suc i)
shift m a b i e =
    let ea : a + suc i ≡ a + 1 + i = omega arith in
    let eb : b + suc i ≡ b + 1 + i = omega arith in rw (ea, eb) e

shift_zero : (m : Memory) (a b : ℕ) → m a ≡ m b → m (a + 0) ≡ m (b + 0)
shift_zero m a b e =
    let ea : a + 0 ≡ a = omega arith in let eb : b + 0 ≡ b = omega arith in rw (ea, eb) e

same_suc :
    (m : Memory) (a b n : ℕ)
    → m a ≡ m b
    → ((i : ℕ) → i < n → m (a + 1 + i) ≡ m (b + 1 + i))
    → (i : ℕ) → i < suc n
    → m (a + i) ≡ m (b + i)
same_suc m a b n e same zero h = shift_zero m a b e
same_suc m a b n e same (suc i) h = shift m a b i (same i (omega arith))

Differs-suc :
    {m : Memory} {a b n x y : ℕ}
    → m a ≡ m b
    → Differs m (a + 1) (b + 1) n x y
    → Differs m a b (suc n) x y
Differs-suc {m} {a} {b} e d =
    let ea : a + suc d.position ≡ a + 1 + d.position = omega arith in
    let eb : b + suc d.position ≡ b + 1 + d.position = omega arith in
    record {
      position = suc d.position;
      within = omega (arith, d.within);
      same_before = same_suc m a b d.position e d.same_before;
      left = rw ea d.left;
      right = rw eb d.right;
    }

Differs-here : (m : Memory) (a b n : ℕ) → Differs m a b (suc n) (m a) (m b)
Differs-here m a b n =
    let ea : a + 0 ≡ a = omega arith in
    let eb : b + 0 ≡ b = omega arith in
    record {
      position = 0;
      within = omega arith;
      same_before = λ i h. absurd (omega arith);
      left = rw ea;
      right = rw eb;
    }

Compared-suc :
    (m : Memory) (a b n : ℕ) (r : Order)
    → m a ≡ m b
    → Compared m (a + 1) (b + 1) n r
    → Compared m a b (suc n) r
Compared-suc m a b n less e (x, y, lt, d) = (x, y, lt, Differs-suc e d)
Compared-suc m a b n equal e same = same_suc m a b n e same
Compared-suc m a b n greater e (x, y, lt, d) = (x, y, lt, Differs-suc e d)

compare_loop-Compared : (n : ℕ) (m : Memory) (a b : ℕ) → Compared m a b n (compare_loop n m a b)
unfolding compare_loop
compare_loop-Compared zero m a b = λ i h. absurd (omega arith)
compare_loop-Compared (suc n) m a b = elim (Bool-cases (m a == m b)) [
  | inl same ↦
      let e : m a ≡ m b = ground arith in
      rw same (Compared-suc m a b n _ e (compare_loop-Compared n m (a + 1) (b + 1)))
  | inr differ ↦ elim (Bool-cases (ltb (m b) (m a))) [
    | inl down ↦ rw (differ, down) (m a, m b, ground arith, Differs-here m a b n)
    | inr up ↦ rw (differ, up) (m a, m b, ground arith, Differs-here m a b n)
  ]
]

-- `memcmp` of a positive number of bytes returns; the result is 0 exactly when the blocks agree, and
-- otherwise tells which block has the smaller byte at the first position where they differ.
pub memcmp-Compared :
    (m : Memory) (a b n : ℕ)
    → a ≢ 0
    → b ≢ 0
    → 0 < n
    → (r : Order) × (memcmp m a b n ≡ done r) × Compared m a b n r
unfolding memcmp
memcmp-Compared m a b n ha hb pos = (
  compare_loop n m a b,
  rw (ne→== a 0 ha, ne→== b 0 hb, lt→ltb 0 n pos),
  compare_loop-Compared n m a b,
)
