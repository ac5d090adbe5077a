-- ===== src/LinkedList/Delete.antt =====
-- `llDelete` takes one node out of a ring, wherever it stands.
use spctrx.Common.{ℕ, ◌≡◌, ◌≢◌, refl, sym, List, [], ◌∷◌, ◌++◌, done, ne→==, eq→==}
use spctrx.LinkedList.Defs.{Heap, set_next, set_prev, ll_delete}
use spctrx.LinkedList.Ring.{
  Chain, Apart, AllApart, IsRing, first, last, set_next-Chain, set_prev-Chain, next-first,
}

module _ (p node : ℕ) (vs : List ℕ) where
  Apart-behind : (us : List ℕ) → Apart p (us ++ node ∷ vs) → Apart p vs
  Apart-behind [] h = h.1
  Apart-behind (u ∷ us) h = Apart-behind us h.1

  Apart-node : (us : List ℕ) → Apart p (us ++ node ∷ vs) → p ≢ node
  Apart-node [] h = h.0
  Apart-node (u ∷ us) h = Apart-node us h.1

  Apart-without : (us : List ℕ) → Apart p (us ++ node ∷ vs) → Apart p (us ++ vs)
  Apart-without [] h = h.1
  Apart-without (u ∷ us) h = (h.0, Apart-without us h.1)

  Apart-last : (x : ℕ) (us : List ℕ) → p ≢ x → Apart p (us ++ node ∷ vs) → p ≢ last x us
  Apart-last x [] ne h = ne
  Apart-last x (u ∷ us) ne h = Apart-last u us h.0 h.1

Apart-first : (p e : ℕ) (vs : List ℕ) → p ≢ e → Apart p vs → p ≢ first e vs
Apart-first p e [] ne h = ne
Apart-first p e (v ∷ vs) ne h = h.0

AllApart-without :
    (us : List ℕ) (node : ℕ) (vs : List ℕ) → AllApart (us ++ node ∷ vs) → AllApart (us ++ vs)
AllApart-without [] node vs h = h.1
AllApart-without (u ∷ us) node vs h =
    (Apart-without u node vs us h.0, AllApart-without us node vs h.1)

-- The neighbours that the node has.
neighbours :
    (h : Heap) (a : ℕ) (us : List ℕ) (node : ℕ) (vs : List ℕ) (e : ℕ)
    → Chain h a (us ++ node ∷ vs) e
    → (h.prev node ≡ last a us) × (h.next node ≡ first e vs)
neighbours h a [] node vs e c = (c.1, next-first h node vs e c.2)
neighbours h a (u ∷ us) node vs e c = neighbours h u us node vs e c.2

abbrev joined : Heap → ℕ → ℕ → Heap
joined h p n = set_prev (set_next h p n) n p

join-here :
    (h : Heap) (a node : ℕ) (vs : List ℕ) (e : ℕ)
    → Chain h a (node ∷ vs) e
    → Apart a vs
    → Apart e vs
    → AllApart vs
    → Chain (joined h a (first e vs)) a vs e
join-here h a node [] e c out end distinct = (rw (eq→== a a refl), rw (eq→== e e refl))
join-here h a node (v ∷ vs) e c out end distinct = (
  rw (eq→== a a refl),
  rw (eq→== v v refl),
  set_prev-Chain (set_next h a v) v a v vs e (λ q. end.0 (sym q)) distinct.0
      (set_next-Chain h a v v vs e out.0 out.1 c.2.2),
)

delete-Chain :
    (h : Heap) (a : ℕ) (us : List ℕ) (node : ℕ) (vs : List ℕ) (e : ℕ)
    → Chain h a (us ++ node ∷ vs) e
    → Apart a (us ++ node ∷ vs)
    → Apart e (us ++ node ∷ vs)
    → AllApart (us ++ node ∷ vs)
    → Chain (joined h (last a us) (first e vs)) a (us ++ vs) e
delete-Chain h a [] node vs e c out end distinct = join-here h a node vs e c out.1 end.1 distinct.1
delete-Chain h a (u ∷ us) node vs e c out end distinct =
    let p_ne : last u us ≢ a = λ q. Apart-last a node vs u us out.0 out.1 (sym q) in
    let n_ne : first e vs ≢ u =
      λ q. Apart-first u e vs (λ r. end.0 (sym r)) (Apart-behind u node vs us distinct.0) (sym q) in
    (
      rw (ne→== (last u us) a p_ne) c.0,
      rw (ne→== (first e vs) u n_ne) c.1,
      delete-Chain h u us node vs e c.2 distinct.0 end.1 distinct.1,
    )

-- `llDelete` of a node of the ring that is not null returns, takes it out of the list and leaves
-- the others in order.
pub ll_delete-IsRing :
    (h : Heap) (head : ℕ) (us : List ℕ) (node : ℕ) (vs : List ℕ)
    → node ≢ 0
    → IsRing h head (us ++ node ∷ vs)
    → (h' : Heap) × (ll_delete h node ≡ done h') × IsRing h' head (us ++ vs)
unfolding ll_delete
ll_delete-IsRing h head us node vs nz r =
    let (before, after) = neighbours h head us node vs head r.chain in
    let p_ne : last head us ≢ node =
      last_ne us head r.distinct (Apart-node head node vs us r.outside) in
    (
      joined h (last head us) (first head vs),
      rw (ne→== node 0 nz, before, after, ne→== (last head us) node p_ne),
      record {
        chain = delete-Chain h head us node vs head r.chain r.outside r.outside r.distinct;
        outside = Apart-without head node vs us r.outside;
        distinct = AllApart-without us node vs r.distinct;
      },
    )
  where
    last_ne : (us : List ℕ) (a : ℕ) → AllApart (us ++ node ∷ vs) → a ≢ node → last a us ≢ node
    last_ne [] a distinct ne = ne
    last_ne (u ∷ us) a distinct ne = last_ne us u distinct.1 (Apart-node u node vs us distinct.0)
