-- ===== src/Spinlock/Defs.antt =====
-- The three functions of spinlock.c, as seen by one thread that nothing interrupts. The lock is the
-- atomic flag: `true` while it is held.
use spctrx.Common.{Bool, true, false, Outcome, done, hang, if◌then◌else◌}

abbrev pub Spinlock : Type 0
Spinlock = Bool

-- The loop on test-and-set ends at once on a free lock. On a held one it ends only if another thread
-- releases the lock, and with no other thread it never does.
abbrev pub spinlock_acquire : Spinlock → Outcome Spinlock
spinlock_acquire lock = if lock then hang else done true

abbrev pub spinlock_drop : Spinlock → Spinlock
spinlock_drop lock = false

abbrev pub spinlock_init : Spinlock
spinlock_init = false
