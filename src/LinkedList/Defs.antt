-- ===== src/LinkedList/Defs.antt =====
-- The functions of ll.c over a heap of heads. A pointer is an address, 0 is null.
use spctrx.Common.{ℕ, Bool, not, Outcome, done, ◌>>◌, assert, ◌==◌, if◌then◌else◌}

-- `LLHead`: the two fields at each address.
pub record Heap : Type 0 where
  pub next : ℕ → ℕ
  pub prev : ℕ → ℕ

abbrev pub update : (ℕ → ℕ) → ℕ → ℕ → ℕ → ℕ
update f p v q = if p == q then v else f q

abbrev pub set_next : Heap → ℕ → ℕ → Heap
set_next h p v = record h { next = update h.next p v }

abbrev pub set_prev : Heap → ℕ → ℕ → Heap
set_prev h p v = record h { prev = update h.prev p v }

unfoldable pub ll_init_head : Heap → ℕ → Outcome Heap
ll_init_head h head = do assert (not (head == 0)); done (set_next (set_prev h head head) head head)

unfoldable pub ll_insert_front : Heap → ℕ → ℕ → Outcome Heap
ll_insert_front h head node = do
  assert (not (head == 0))
  assert (not (node == 0))
  let next = h.next head
  done (set_prev (set_next (set_prev (set_next h node next) next node) head node) node head)

-- `node->prev->next = node->next`, then the other way round, each read from the heap of its moment.
unfoldable pub ll_delete : Heap → ℕ → Outcome Heap
ll_delete h node = do
  assert (not (node == 0))
  let h' = set_next h (h.prev node) (h.next node)
  done (set_prev h' (h'.next node) (h'.prev node))

unfoldable pub ll_empty : Heap → ℕ → Outcome Bool
ll_empty h head = do assert (not (head == 0)); done (h.next head == head)
