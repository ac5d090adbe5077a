-- ===== src/Irq/Defs.antt =====
-- The state and the functions. A handler is known by its address; calling it ends the model of the
-- call, so `irq_handle` returns which one is called.
use spctrx.Common.{
  ℕ, ◌+◌, ◌-◌, true, List, Option, none, some, Outcome, done, panic, fault, ◌>>=◌, ltb, from_some,
  if◌then◌else◌, length, get_elem?, set, replicate,
}
use spctrx.Bitmap.{Bitmap, bitmap_init, bitmap_set, bitmap_find}

abbrev pub irq_handlers : ℕ
irq_handlers = 256 - 32

-- `handlers` and `irqBitmap`; `none` is a null pointer.
pub record Irq : Type 0 where
  pub handlers : List (Option ℕ)
  pub bitmap : Bitmap

-- A call through a null pointer is an invalid access.
unfoldable pub irq_handle : Irq → ℕ → Outcome ℕ
irq_handle s irq = do entry ← from_some (get_elem? s.handlers irq); from_some entry

unfoldable pub irq_alloc_vector : Irq → Outcome (ℕ × Irq)
irq_alloc_vector s = do
  vector ← bitmap_find s.bitmap 1
  bitmap ← bitmap_set s.bitmap vector true
  done (vector + 32, record s { bitmap = bitmap })

-- A vector below 32 gives a negative index.
unfoldable pub irq_install : Irq → ℕ → ℕ → Outcome Irq
irq_install s vector handler =
    if ltb vector 32
    then fault
    else if ltb (vector - 32) (length s.handlers)
    then (do
      bitmap ← bitmap_set s.bitmap (vector - 32) true
      done (record { handlers = set s.handlers (vector - 32) (some handler); bitmap = bitmap }))
    else fault

-- `storage` is the page that holds the bitmap's data, `spurious` the address of `irqHandleSpurious`.
unfoldable pub irq_init : List ℕ → ℕ → Outcome Irq
irq_init storage spurious = do
  bitmap ← bitmap_init irq_handlers storage
  irq_install (record { handlers = replicate irq_handlers none; bitmap = bitmap }) 255 spurious

-- `isrHandler`: exceptions panic, all other vectors go to their handler.
unfoldable pub isr_handler : Irq → ℕ → Outcome ℕ
unfolding irq_handle
isr_handler s int_id = if ltb int_id 32 then panic else irq_handle s (int_id - 32)
