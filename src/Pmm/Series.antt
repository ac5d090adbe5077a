-- ===== src/Pmm/Series.antt =====
-- Pages that are allocated one after another.
use spctrx.Common.{
  length-append, ◌≤◌, ◌++◌, ◌∙◌, ◌∙◌, sym, ltb, ◌&&◌, leb, ℕ, suc, ◌+◌, ◌*◌, ◌<◌, ◌≡◌, refl, true,
  false, ◌⊎◌, inl, inr, List, [], ◌∷◌, done, panic, arith, length, Bool-cases,
}
use spctrx.Common.Words.{page_size}
use spctrx.Bitmap.{IsRun}
use spctrx.Pmm.Defs.{Pmm, pmm_alloc}
use spctrx.Pmm.Alloc.{IsValid, in_use, Allocated, pmm_alloc-Allocated}

-- `q` is in the list.
pub data Among (q : ℕ) : List ℕ → Type 0 where
  here : {p : ℕ} {ps : List ℕ} → q ≡ p → Among q (p ∷ ps)
  there : {p : ℕ} {ps : List ℕ} → Among q ps → Among q (p ∷ ps)

-- From the allocator `s₀` on, exactly the pages of the list have become used; they were free.
pub record Held (s₀ : Pmm) (pages : List ℕ) (s : Pmm) : Type 0 where
  pub valid : IsValid s
  pub same_bits : s.pages.bits ≡ s₀.pages.bits
  pub kept : (q : ℕ) → in_use s₀ q ≡ true → in_use s q ≡ true
  pub held : (q : ℕ) → Among q pages → in_use s q ≡ true
  pub only : (q : ℕ) → in_use s q ≡ true → (in_use s₀ q ≡ true) ⊎ Among q pages

-- Every page that was free is among fewer than `n`.
abbrev pub Exhausted : Pmm → ℕ → Type 0
Exhausted s₀ n =
    (pages : List ℕ) × (length pages < n)
    × ((q : ℕ) → q < s₀.pages.bits → in_use s₀ q ≡ false → Among q pages)

pub Held-start : (s : Pmm) → IsValid s → Held s [] s
Held-start s v = record {
  valid = v;
  same_bits = refl;
  kept = λ q h. h;
  held = λ q none_held. elim none_held [ ];
  only = λ q h. inl h;
}

pub Among-left : {q : ℕ} {ps : List ℕ} (qs : List ℕ) → Among q ps → Among q (ps ++ qs)
Among-left qs (here e) = here e
Among-left qs (there m) = there (Among-left qs m)

pub Among-right : {q : ℕ} {qs : List ℕ} (ps : List ℕ) → Among q qs → Among q (ps ++ qs)
Among-right [] m = m
Among-right (p ∷ ps) m = there (Among-right ps m)

Among-cases : {q : ℕ} (ps qs : List ℕ) → Among q (ps ++ qs) → Among q ps ⊎ Among q qs
Among-cases [] qs m = inr m
Among-cases (p ∷ ps) qs (here e) = inl (here e)
Among-cases (p ∷ ps) qs (there m) = elim (Among-cases ps qs m) [
  | inl l ↦ inl (there l)
  | inr r ↦ inr r
]

-- One series of allocations after another.
pub Held-then :
    (s₀ s₁ s₂ : Pmm) (ps qs : List ℕ) → Held s₀ qs s₁ → Held s₁ ps s₂ → Held s₀ (ps ++ qs) s₂
Held-then s₀ s₁ s₂ ps qs h g = record {
  valid = g.valid;
  same_bits = g.same_bits ∙ h.same_bits;
  kept = λ q used. g.kept q (h.kept q used);
  held = λ q m. elim (Among-cases ps qs m) [ inl l ↦ g.held q l | inr r ↦ g.kept q (h.held q r) ];
  only = λ q used. elim (g.only q used) [
    | inl first ↦ elim (h.only q first) [ inl start ↦ inl start | inr m ↦ inr (Among-right ps m) ]
    | inr m ↦ inr (Among-left qs m)
  ];
}

-- A page that was taken from such an allocator.
pub record Next (s₀ : Pmm) (pages : List ℕ) (s : Pmm) (addr : ℕ) (s' : Pmm) : Type 0 where
  pub page : ℕ
  pub address : addr ≡ page * page_size
  pub positive : 0 < page
  pub inside : page < s₀.pages.bits
  pub free_before : in_use s₀ page ≡ false
  pub free_now : in_use s page ≡ false
  pub held : Held s₀ (page ∷ pages) s'
  pub still : (q : ℕ) → in_use s q ≡ true → in_use s' q ≡ true

module _ (s₀ : Pmm) (pages : List ℕ) (s : Pmm) (h : Held s₀ pages s) where
  Allocated-Next : (addr : ℕ) (s' : Pmm) → Allocated s 1 addr s' → Next s₀ pages s addr s'
  Allocated-Next addr s' a =
      let still : (q : ℕ) → in_use s q ≡ true → in_use s' q ≡ true =
        λ q used. let reads = a.change.reads q in ground arith in
      let now : in_use s' a.page ≡ true = let reads = a.change.reads a.page in ground arith in
      let origin : (q : ℕ) → in_use s' q ≡ true → (in_use s₀ q ≡ true) ⊎ Among q (a.page ∷ pages) =
        λ q used.
          let reads = a.change.reads q in
          elim (Bool-cases (leb a.page q && ltb q (a.page + 1))) [
            | inl self ↦ let same : q ≡ a.page = ground arith in inr (here same)
            | inr other ↦
                let before : in_use s q ≡ true = sym (rw other at reads) ∙ used in
                elim (h.only q before) [ inl first ↦ inl first | inr m ↦ inr (there m) ]
          ] in
      let free_now : in_use s a.page ≡ false = a.run.free a.page (omega arith) (omega arith) in
      record {
        page = a.page;
        address = a.address;
        positive = a.positive;
        inside = omega (arith, a.run.inside, h.same_bits);
        free_before = elim (Bool-cases (in_use s₀ a.page)) [
          | inl used ↦ let now = h.kept a.page used in cc (now, free_now)
          | inr unused ↦ unused
        ];
        free_now = free_now;
        held = record {
          valid = a.change.valid;
          same_bits = omega (arith, a.change.same_bits, h.same_bits);
          kept = λ q used. still q (h.kept q used);
          held = λ q q_held. elim q_held [ here e ↦ rw e now | there m ↦ still q (h.held q m) ];
          only = λ q used. origin q used;
        };
        still = still;
      }

  stops : ((q : ℕ) → IsRun s.pages 1 q → ⊥) → Exhausted s₀ (suc (length pages))
  stops none_free = (
    pages,
    omega arith,
    λ q inside unused. elim (Bool-cases (in_use s q)) [
      | inl used ↦ elim (h.only q used) [ inl before ↦ cc (before, unused) | inr m ↦ m ]
      | inr free ↦ absurd (
          none_free q (record {
            inside = omega (arith, h.same_bits);
            free = λ p lo hi. let same : p ≡ q = omega arith in rw same free;
          }))
    ],
  )

  pub pmm_alloc-Next :
      ((addr : ℕ) × (s' : Pmm) × (pmm_alloc s 1 ≡ done (addr, s')) × Next s₀ pages s addr s')
      ⊎ ((pmm_alloc s 1 ≡ panic) × Exhausted s₀ (suc (length pages)))
  pmm_alloc-Next = elim (pmm_alloc-Allocated s 1 h.valid (omega arith)) [
    | inl (addr, s', run, a) ↦ inl (addr, s', run, Allocated-Next addr s' a)
    | inr (stop, none_free) ↦ inr (stop, stops none_free)
  ]

-- What is exhausted after a series is exhausted with it.
pub Exhausted-then :
    (s₀ s₁ : Pmm) (qs : List ℕ) (m n : ℕ)
    → Held s₀ qs s₁
    → length qs + m ≤ n
    → Exhausted s₁ m
    → Exhausted s₀ n
Exhausted-then s₀ s₁ qs m n h le (ps, few, all) = (
  ps ++ qs,
  omega (arith, length-append ps qs),
  λ q inside unused. elim (Bool-cases (in_use s₁ q)) [
    | inl used ↦ elim (h.only q used) [
      | inl before ↦ cc (before, unused)
      | inr m ↦ Among-right ps m
    ]
    | inr free ↦ Among-left qs (all q (omega (arith, inside, h.same_bits)) free)
  ],
)
