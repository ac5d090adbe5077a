-- ===== src/Console/Defs.antt =====
-- The functions of serial.c, log.c, fb.c and the part of term.c behind the font. What the port answers to
-- reads of its status is a parameter, and so is whether flanterm starts.
use spctrx.Common.{
  ℕ, ◌+◌, bit_and, Bool, true, not, List, [], ◌∷◌, ◌++◌, Option, none, some, Outcome, done, panic,
  from_some, get_elem?, ◌>>=◌, ◌==◌, if◌then◌else◌, poll,
}
use spctrx.Machine.{PortWrite, out8}
use spctrx.Spinlock.{Spinlock, spinlock_acquire, spinlock_drop}

abbrev pub com1 : ℕ
com1 = 0x3f8

-- `serialIsEmpty() != 0` for what the status port answers.
abbrev pub serial_is_empty : ℕ → Bool
serial_is_empty status = not (bit_and status 0x20 == 0)

-- The lock of the port, the outputs so far, and what the terminal was given, each in order; `initialized`
-- is `termInitialized`.
pub record Console : Type 0 where
  pub lock : Spinlock
  pub outputs : List PortWrite
  pub initialized : Bool
  pub shown : List ℕ

unfoldable pub serial_putc : ℕ → (ℕ → ℕ) → ℕ → Console → Outcome Console
serial_putc fuel status ch c = do
  lock ← spinlock_acquire c.lock
  k ← poll fuel (λ k. serial_is_empty (status k)) 0
  done (record c { lock = spinlock_drop lock; outputs = c.outputs ++ out8 com1 ch ∷ [] })

-- `echo` is what the port answers when it is read back.
unfoldable pub serial_init : ℕ → Console → Console
serial_init echo c =
    let set_up =
      out8 (com1 + 1) 0x00
      ∷ out8 (com1 + 3) 0x80
      ∷ out8 (com1 + 0) 0x03
      ∷ out8 (com1 + 1) 0x00
      ∷ out8 (com1 + 3) 0x03
      ∷ out8 (com1 + 2) 0xc7
      ∷ out8 (com1 + 4) 0x0b
      ∷ out8 (com1 + 4) 0x1e
      ∷ out8 (com1 + 0) 0xae
      ∷ [] in
    let normal = if not (echo == 0xae) then [] else out8 (com1 + 4) 0x0f ∷ [] in
    record c { outputs = c.outputs ++ (set_up ++ normal) }

-- A newline is preceded by a carriage return.
unfoldable pub term_putc : ℕ → Console → Console
term_putc ch c =
    if not c.initialized
    then c
    else record c { shown = c.shown ++ ((if ch == b'\n' then 13 ∷ [] else []) ++ ch ∷ []) }

-- `started` tells whether `flanterm_fb_init` returns a context.
unfoldable pub term_init : Bool → Console → Console
term_init started c = if not started then c else record c { initialized = true }

-- `_putchar`.
unfoldable pub putchar : ℕ → (ℕ → ℕ) → ℕ → Console → Outcome Console
unfolding serial_putc term_putc
putchar fuel status ch c = do c' ← serial_putc fuel status ch c; done (term_putc ch c')

-- `fbInit`: the response of the boot loader, if any, has a list of framebuffers, if any.
unfoldable pub fb_init : Option (Option (List ℕ)) → Outcome ℕ
fb_init none = panic
fb_init (some none) = panic
fb_init (some (some framebuffers)) = from_some (get_elem? framebuffers 0)
