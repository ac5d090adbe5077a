-- ===== src/Spinlock/Threads.antt =====
-- Several processors that take and release one spinlock, their atomic operations in any order.
use spctrx.Common.{ℕ, ◌≡◌, Bool, true, false, refl, arith, ◌==◌, if◌then◌else◌}

-- Where a processor stands: outside, in the loop of `spinlockAcquire`, or between that and
-- `spinlockDrop`.
pub data Place : Type 0 where
  outside : Place
  spinning : Place
  inside : Place

pub record System : Type 0 where
  pub held : Bool
  pub place : ℕ → Place

abbrev pub move : (ℕ → Place) → ℕ → Place → ℕ → Place
move f i p j = if i == j then p else f j

-- `call` begins an acquire; `retry` and `enter` are the two results of test-and-set, which leaves the
-- flag set in both; `drop` clears the flag.
pub data Step (s : System) : System → Type 0 where
  call :
      (i : ℕ)
      → s.place i ≡ outside
      → Step s (record { held = s.held; place = move s.place i spinning })
  retry : (i : ℕ) → s.place i ≡ spinning → s.held ≡ true → Step s s
  enter :
      (i : ℕ)
      → s.place i ≡ spinning
      → s.held ≡ false
      → Step s (record { held = true; place = move s.place i inside })
  drop :
      (i : ℕ)
      → s.place i ≡ inside
      → Step s (record { held = false; place = move s.place i outside })

abbrev pub initial : System
initial = record { held = false; place = λ i. outside }

pub data Reach : System → Type 0 where
  start : Reach initial
  next : {s t : System} → Reach s → Step s t → Reach t

record Inv (s : System) : Type 0 where
  flagged : (i : ℕ) → s.place i ≡ inside → s.held ≡ true
  alone : (i j : ℕ) → s.place i ≡ inside → s.place j ≡ inside → i ≡ j

Step-Inv : {s t : System} → Step s t → Inv s → Inv t
Step-Inv (call i at) v = record {
  flagged = λ j e. ground (arith, v.flagged j);
  alone = λ j k e f. ground (arith, v.alone j k);
}
Step-Inv (retry i at full) v = v
Step-Inv (enter i at free) v = record {
  flagged = λ j e. refl;
  alone = λ j k e f. ground (arith, v.flagged j, v.flagged k);
}
Step-Inv (drop i at) v = record {
  flagged = λ j e. ground (arith, v.alone i j);
  alone = λ j k e f. ground (arith, v.alone j k);
}

Reach-Inv : {s : System} → Reach s → Inv s
Reach-Inv start = record { flagged = λ i e. cc; alone = λ i j e f. cc }
Reach-Inv (next r st) = Step-Inv st (Reach-Inv r)

-- In every reachable state at most one processor is between acquire and drop, and while one is, the
-- flag is set, so that every test-and-set of another one fails.
pub Reach-mutual_exclusion :
    {s : System}
    → Reach s
    → ((i j : ℕ) → s.place i ≡ inside → s.place j ≡ inside → i ≡ j)
      × ((i : ℕ) → s.place i ≡ inside → s.held ≡ true)
Reach-mutual_exclusion r = let v = Reach-Inv r in (v.alone, v.flagged)
