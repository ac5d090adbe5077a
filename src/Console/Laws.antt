-- ===== src/Console/Laws.antt =====
-- A text that is written to the console.
use spctrx.Common.{
  inr, inl, ap, Bool-cases, ℕ, ◌+◌, ◌<◌, ◌≡◌, refl, ◌∙◌, sym, Bool, true, false, List, [], ◌∷◌,
  ◌++◌, Outcome, done, ◌>>=◌, ◌==◌, if◌then◌else◌, poll-first,
}
use mathlib.Core.List.{append-nil, append_assoc}
use spctrx.Machine.{PortWrite, out8}
use spctrx.Console.Defs.{com1, serial_is_empty, Console, serial_putc, term_putc, putchar}

-- The port is ready for the next byte in time.
pub record IsReady (fuel : ℕ) (status : ℕ → ℕ) : Type 0 where
  pub rounds : ℕ
  pub in_time : rounds < fuel
  pub busy_until : (k : ℕ) → k < rounds → serial_is_empty (status k) ≡ false
  pub ready : serial_is_empty (status rounds) ≡ true

-- The calls for the bytes of a text; the port has its own answers for byte `i`.
abbrev pub put_text : ℕ → (ℕ → ℕ → ℕ) → ℕ → List ℕ → Console → Outcome Console
put_text fuel status i [] c = done c
put_text fuel status i (ch ∷ text) c =
    putchar fuel (status i) ch c >>= put_text fuel status (i + 1) text

abbrev pub sent : List ℕ → List PortWrite
sent [] = []
sent (ch ∷ text) = out8 com1 ch ∷ sent text

-- A text with a carriage return before each newline.
abbrev pub with_returns : List ℕ → List ℕ
with_returns [] = []
with_returns (ch ∷ text) = (if ch == b'\n' then 13 ∷ [] else []) ++ (ch ∷ with_returns text)

abbrev pub after_text : Console → List ℕ → Console
after_text c text = record c {
  lock = false;
  outputs = c.outputs ++ sent text;
  shown = c.shown ++ (if c.initialized then with_returns text else []);
}

-- What one byte adds to the screen.
abbrev shown_of : Bool → ℕ → List ℕ
shown_of initialized ch =
    if initialized then (if ch == b'\n' then 13 ∷ [] else []) ++ (ch ∷ []) else []

term_putc_lem :
    (ch : ℕ) (c : Console)
    → term_putc ch c ≡ record c { shown = c.shown ++ shown_of c.initialized ch }
unfolding term_putc
term_putc_lem ch c = elim (Bool-cases c.initialized) [
  | inl on ↦ rw on
  | inr off ↦ rw (off, append-nil c.shown)
]

putchar_lem :
    (fuel : ℕ) (status : ℕ → ℕ) (ch : ℕ) (c : Console)
    → c.lock ≡ false
    → IsReady fuel status
    → putchar fuel status ch c ≡ done (after_text c (ch ∷ []))
unfolding putchar serial_putc
putchar_lem fuel status ch c free r =
    rw
      (
        free,
        poll-first fuel r.rounds (λ k. serial_is_empty (status k)) r.in_time r.busy_until r.ready,
      )
      (ap done
        (term_putc_lem ch (record c { lock = false; outputs = c.outputs ++ out8 com1 ch ∷ [] })))

-- A byte and then a text.
shown-step :
    (initialized : Bool) (before : List ℕ) (ch : ℕ) (text : List ℕ)
    → (before ++ shown_of initialized ch) ++ (if initialized then with_returns text else [])
      ≡ before ++ (if initialized then with_returns (ch ∷ text) else [])
shown-step false before ch text = append-nil (before ++ [])
shown-step true before ch text =
    append_assoc before (shown_of true ch) (with_returns text)
    ∙ ap (λ (rest : List ℕ). before ++ rest)
        (append_assoc (if ch == b'\n' then 13 ∷ [] else []) (ch ∷ []) (with_returns text))

after_text-step :
    (c : Console) (ch : ℕ) (text : List ℕ)
    → after_text (after_text c (ch ∷ [])) text ≡ after_text c (ch ∷ text)
after_text-step c ch text = rw (
  append_assoc c.outputs (out8 com1 ch ∷ []) (sent text),
  shown-step c.initialized c.shown ch text,
)

after_text-nil : (c : Console) → c.lock ≡ false → done c ≡ done (after_text c [])
after_text-nil c free =
    let nothing : c.shown ++ (if c.initialized then [] else []) ≡ c.shown =
      elim (Bool-cases c.initialized) [
        | inl on ↦ rw on (append-nil c.shown)
        | inr off ↦ rw off (append-nil c.shown)
      ] in
    let whole : Console = record {
      lock = c.lock;
      outputs = c.outputs;
      initialized = c.initialized;
      shown = c.shown;
    } in
    let same : done (after_text c []) ≡ done whole = rw (append-nil c.outputs, nothing, free) in
    sym same

put_text-from :
    (fuel : ℕ) (status : ℕ → ℕ → ℕ) (i : ℕ) (text : List ℕ) (c : Console)
    → c.lock ≡ false
    → ((j : ℕ) → IsReady fuel (status j))
    → put_text fuel status i text c ≡ done (after_text c text)
put_text-from fuel status i [] c free ready = after_text-nil c free
put_text-from fuel status i (ch ∷ text) c free ready =
    rw (putchar_lem fuel (status i) ch c free (ready i)) (
      put_text-from fuel status (i + 1) text (after_text c (ch ∷ [])) refl ready
      ∙ ap done (after_text-step c ch text))

-- With a free lock and a serial port that gets ready in time for each byte, the calls of `_putchar` for
-- the bytes of a text all return: the port has got exactly the text, in order, and once the terminal has
-- started it shows the text with a carriage return before each newline. The lock is free again.
pub put_text_lem :
    (fuel : ℕ) (status : ℕ → ℕ → ℕ) (text : List ℕ) (c : Console)
    → c.lock ≡ false
    → ((j : ℕ) → IsReady fuel (status j))
    → put_text fuel status 0 text c ≡ done (after_text c text)
put_text_lem fuel status text c free ready = put_text-from fuel status 0 text c free ready
