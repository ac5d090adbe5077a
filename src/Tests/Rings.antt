-- ===== src/Tests/Rings.antt =====
-- A ring of a head and two nodes.
use spctrx.Common.{◌≡◌, refl, [], ◌∷◌, done, arith, ◌==◌, if◌then◌else◌}
use spctrx.LinkedList.{
  Heap, IsRing, ll_insert_front, ll_delete, ll_insert_front-IsRing, ll_delete-IsRing,
}

abbrev heap : Heap
heap = record {
  next = λ p. if p == 1 then 2 else if p == 2 then 3 else 1;
  prev = λ p. if p == 3 then 2 else if p == 2 then 1 else 3;
}

heap-IsRing : IsRing heap 1 (2 ∷ 3 ∷ [])
heap-IsRing = record {
  chain = (refl, refl, (refl, refl, (refl, refl)));
  outside = (λ e. omega arith, (λ e. omega arith, tt));
  distinct = ((λ e. omega arith, tt), (tt, tt));
}

ll_insert_front-IsRing_example :
    (h' : Heap) × (ll_insert_front heap 1 4 ≡ done h') × IsRing h' 1 (4 ∷ 2 ∷ 3 ∷ [])
ll_insert_front-IsRing_example =
    ll_insert_front-IsRing heap 1 4 (2 ∷ 3 ∷ []) (λ e. omega arith) (λ e. omega arith) heap-IsRing
      (λ e. omega arith) (λ e. omega arith, (λ e. omega arith, tt))

ll_delete-IsRing_example : (h' : Heap) × (ll_delete heap 3 ≡ done h') × IsRing h' 1 (2 ∷ [])
ll_delete-IsRing_example = ll_delete-IsRing heap 1 (2 ∷ []) 3 [] (λ e. omega arith) heap-IsRing
