-- ===== src/LinkedList/Ring.antt =====
-- A ring of heads stands for the list of the nodes between its head and itself.
use spctrx.Common.{ℕ, ◌≡◌, ◌≢◌, refl, sym, List, [], ◌∷◌, done, ne→==, eq→==}
use spctrx.LinkedList.Defs.{Heap, set_next, set_prev, ll_init_head, ll_insert_front}

-- Neighbours in the list point to each other: those of `a ∷ xs ++ e ∷ []`.
abbrev pub Chain : Heap → ℕ → List ℕ → ℕ → Type 0
Chain h a [] e = (h.next a ≡ e) × (h.prev e ≡ a)
Chain h a (x ∷ xs) e = (h.next a ≡ x) × (h.prev x ≡ a) × Chain h x xs e

abbrev pub Apart : ℕ → List ℕ → Type 0
Apart p [] = Unit
Apart p (x ∷ xs) = (p ≢ x) × Apart p xs

abbrev pub AllApart : List ℕ → Type 0
AllApart [] = Unit
AllApart (x ∷ xs) = Apart x xs × AllApart xs

-- The ring at `head` holds exactly the nodes `xs`, front first.
pub record IsRing (h : Heap) (head : ℕ) (xs : List ℕ) : Type 0 where
  pub chain : Chain h head xs head
  pub outside : Apart head xs
  pub distinct : AllApart xs

-- A write to a field that no link of the chain uses.
pub set_next-Chain :
    (h : Heap) (p v a : ℕ) (xs : List ℕ) (e : ℕ)
    → p ≢ a
    → Apart p xs
    → Chain h a xs e
    → Chain (set_next h p v) a xs e
set_next-Chain h p v a [] e ne out c = (rw (ne→== p a ne) c.0, c.1)
set_next-Chain h p v a (x ∷ xs) e ne out c =
    (rw (ne→== p a ne) c.0, c.1, set_next-Chain h p v x xs e out.0 out.1 c.2)

pub set_prev-Chain :
    (h : Heap) (p v a : ℕ) (xs : List ℕ) (e : ℕ)
    → p ≢ e
    → Apart p xs
    → Chain h a xs e
    → Chain (set_prev h p v) a xs e
set_prev-Chain h p v a [] e ne out c = (c.0, rw (ne→== p e ne) c.1)
set_prev-Chain h p v a (x ∷ xs) e ne out c =
    (c.0, rw (ne→== p x out.0) c.1, set_prev-Chain h p v x xs e ne out.1 c.2)

-- Linking `a` to the first of a chain that does not use `a`.
link : (h : Heap) (a e : ℕ) → Chain (set_prev (set_next h a e) e a) a [] e
link h a e = (rw (eq→== a a refl), rw (eq→== e e refl))

-- A ring that is initialised is empty.
pub ll_init_head-IsRing :
    (h : Heap) (head : ℕ)
    → head ≢ 0
    → (h' : Heap) × (ll_init_head h head ≡ done h') × IsRing h' head []
unfolding ll_init_head
ll_init_head-IsRing h head nz = (
  set_next (set_prev h head head) head head,
  rw (ne→== head 0 nz),
  record {
    chain = (rw (eq→== head head refl), rw (eq→== head head refl));
    outside = tt;
    distinct = tt;
  },
)

-- The first node of a list that ends at `e`, and the last of one that begins at `a`.
abbrev pub first : ℕ → List ℕ → ℕ
first e [] = e
first e (x ∷ xs) = x

abbrev pub last : ℕ → List ℕ → ℕ
last a [] = a
last a (x ∷ xs) = last x xs

pub next-first : (h : Heap) (a : ℕ) (xs : List ℕ) (e : ℕ) → Chain h a xs e → h.next a ≡ first e xs
next-first h a [] e c = c.0
next-first h a (x ∷ xs) e c = c.0

-- The four writes of an insertion before `next`.
abbrev inserted : Heap → ℕ → ℕ → ℕ → Heap
inserted h head node next =
    set_prev (set_next (set_prev (set_next h node next) next node) head node) node head

insert-Chain :
    (h : Heap) (head node : ℕ) (xs : List ℕ)
    → IsRing h head xs
    → node ≢ head
    → Apart node xs
    → Chain (inserted h head node (first head xs)) head (node ∷ xs) head
insert-Chain h head node [] r ne out =
    let other : head ≢ node = λ e. ne (sym e) in
    rw (ne→== head node other, ne→== node head ne, eq→== head head refl, eq→== node node refl)
      (refl, refl, (refl, refl))
insert-Chain h head node (x ∷ xs) r ne out =
    let other : head ≢ node = λ e. ne (sym e) in
    let back : x ≢ head = λ e. r.outside.0 (sym e) in
    let h₁ = set_next h node x in
    let h₂ = set_prev h₁ x node in
    let h₃ = set_next h₂ head node in
    let kept₁ : Chain h₁ x xs head = set_next-Chain h node x x xs head out.0 out.1 r.chain.2 in
    let kept₂ : Chain h₂ x xs head = set_prev-Chain h₁ x node x xs head back r.distinct.0 kept₁ in
    let kept₃ : Chain h₃ x xs head =
      set_next-Chain h₂ head node x xs head r.outside.0 r.outside.1 kept₂ in
    let kept : Chain (inserted h head node x) x xs head =
      set_prev-Chain h₃ node head x xs head ne out.1 kept₃ in
    rw
      (
        ne→== head node other,
        ne→== node x out.0,
        eq→== head head refl,
        eq→== node node refl,
        eq→== x x refl,
      )
      (refl, refl, (refl, refl, kept))

-- `llInsertFront` of a node that is neither in the ring nor null, with a head that is not null,
-- returns and puts it in front of the list.
pub ll_insert_front-IsRing :
    (h : Heap) (head node : ℕ) (xs : List ℕ)
    → head ≢ 0
    → node ≢ 0
    → IsRing h head xs
    → node ≢ head
    → Apart node xs
    → (h' : Heap) × (ll_insert_front h head node ≡ done h') × IsRing h' head (node ∷ xs)
unfolding ll_insert_front
ll_insert_front-IsRing h head node xs hz nz r ne out = (
  inserted h head node (first head xs),
  rw (ne→== head 0 hz, ne→== node 0 nz, next-first h head xs head r.chain),
  record {
    chain = insert-Chain h head node xs r ne out;
    outside = ((λ e. ne (sym e)), r.outside);
    distinct = (out, r.distinct);
  },
)
