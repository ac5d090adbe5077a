-- ===== src/IoApic/Madt.antt =====
-- The MADT as bytes: every entry that a table holds is taken, in order.
use spctrx.Common.{
  panic, fault, Outcome, ◌>>=◌, ◌>>=◌, Outcome, ℕ, zero, suc, ◌+◌, ◌*◌, ◌/◌, ◌%◌, ◌^◌, ◌<◌, ◌≤◌,
  ◌≡◌, ◌≢◌, refl, List, [], ◌∷◌, ◌++◌, some, done, hang, arith, length, drop, drop-append,
  length-append, ne→==,
}
use spctrx.IoApic.Defs.{
  IoApics, IsaOverride, alloc_node, push_override, io_apic_add, parse_entry, parse_apic,
  parse_override, parse_loop, io_apic_parse_madt,
}

-- An entry of the table: an I/O APIC, an override, or a type that the kernel does not use, with the
-- bytes behind its length.
pub data Entry : Type 0 where
  apic : (id reserved addr gsi : ℕ) → Entry
  override : (bus isa_source gsi flags : ℕ) → Entry
  other : (type : ℕ) → List ℕ → Entry

abbrev pub Fits : Entry → Type 0
Fits (apic id reserved addr gsi) = (addr < 2 ^ 32) × (gsi < 2 ^ 32)
Fits (override bus isa_source gsi flags) = (gsi < 2 ^ 32) × (flags < 2 ^ 16)
Fits (other type body) = (type ≢ 1) × (type ≢ 2)

abbrev pub AllFit : List Entry → Type 0
AllFit [] = Unit
AllFit (e ∷ es) = Fits e × AllFit es

abbrev pub bytes32 : ℕ → List ℕ → List ℕ
bytes32 n rest = n % 2 ^ 8 ∷ n / 2 ^ 8 % 2 ^ 8 ∷ n / 2 ^ 16 % 2 ^ 8 ∷ n / 2 ^ 24 ∷ rest

abbrev pub bytes16 : ℕ → List ℕ → List ℕ
bytes16 n rest = n % 2 ^ 8 ∷ n / 2 ^ 8 ∷ rest

-- The bytes of the entries.
abbrev pub encode : List Entry → List ℕ
encode [] = []
encode (apic id reserved addr gsi ∷ es) =
    1 ∷ 12 ∷ id ∷ reserved ∷ bytes32 addr (bytes32 gsi (encode es))
encode (override bus isa_source gsi flags ∷ es) =
    2 ∷ 10 ∷ bus ∷ isa_source ∷ bytes32 gsi (bytes16 flags (encode es))
encode (other type body ∷ es) = type ∷ (length body + 2) ∷ (body ++ encode es)

-- A node from the cache of the overrides is put in front of them.
abbrev pub take_override : ℕ → IsaOverride → IoApics → Outcome IoApics
take_override hhdm o s = alloc_node hhdm s.override_cache s >>= λ r. done (push_override r.0 o r.1)

-- What the kernel makes of an entry, and of all of them.
abbrev pub take_entry : ℕ → Entry → IoApics → Outcome IoApics
take_entry hhdm (apic id reserved addr gsi) s = io_apic_add hhdm id addr gsi s
take_entry hhdm (override bus isa_source gsi flags) s =
    take_override hhdm (record { bus = bus; isa_source = isa_source; gsi = gsi; flags = flags }) s
take_entry hhdm (other type body) s = done s

abbrev pub take_all : ℕ → List Entry → IoApics → Outcome IoApics
take_all hhdm [] s = done s
take_all hhdm (e ∷ es) s = take_entry hhdm e s >>= take_all hhdm es

read32-bytes32 :
    (n : ℕ)
    → n < 2 ^ 32
    → (n % 2 ^ 8 + n / 2 ^ 8 % 2 ^ 8 * 2 ^ 8) + (n / 2 ^ 16 % 2 ^ 8 + n / 2 ^ 24 * 2 ^ 8) * 2 ^ 16
      ≡ n
read32-bytes32 n h = omega arith

read16-bytes16 : (n : ℕ) → n < 2 ^ 16 → n % 2 ^ 8 + n / 2 ^ 8 * 2 ^ 8 ≡ n
read16-bytes16 n h = omega arith

drop-entry :
    (type : ℕ) (body rest : List ℕ)
    → drop (length body + 2) (type ∷ (length body + 2) ∷ (body ++ rest)) ≡ rest
drop-entry type body rest =
    let e : length body + 2 ≡ suc (suc (length body)) = omega arith in
    rw e (drop-append (length body) body rest refl)

-- What follows a call, where both continuations agree.
>>=-same :
    {A : Type 0} (m : Outcome A) {f g : A → Outcome IoApics}
    → ((a : A) → f a ≡ g a)
    → (m >>= f) ≡ (m >>= g)
>>=-same (done s) h = h s
>>=-same panic h = refl
>>=-same fault h = refl
>>=-same hang h = refl

then-same :
    {A : Type 0} (m : Outcome A) {h k : A → Outcome IoApics} {f g : IoApics → Outcome IoApics}
    → ((a : A) → h a ≡ k a)
    → ((s : IoApics) → f s ≡ g s)
    → (m >>= h >>= f) ≡ (m >>= k >>= g)
then-same (done a) {k = k} first same = rw (first a) (>>=-same (k a) same)
then-same panic first same = refl
then-same fault first same = refl
then-same hang first same = refl

parse_override-encode :
    (bus isa_source gsi flags : ℕ) (rest : List ℕ) (hhdm : ℕ) (s : IoApics)
    → (gsi < 2 ^ 32) × (flags < 2 ^ 16)
    → (f g : IoApics → Outcome IoApics) → ((s' : IoApics) → f s' ≡ g s')
    → (parse_override hhdm (2 ∷ 10 ∷ bus ∷ isa_source ∷ bytes32 gsi (bytes16 flags rest)) s >>= f)
      ≡ (take_override hhdm
            (record { bus = bus; isa_source = isa_source; gsi = gsi; flags = flags })
            s
          >>= g)
unfolding parse_override
parse_override-encode bus isa_source gsi flags rest hhdm s fit f g same =
    then-same (alloc_node hhdm s.override_cache s)
      (λ r. rw (read32-bytes32 gsi fit.0, read16-bytes16 flags fit.1)) same

parse_loop-encode :
    (es : List Entry) (fuel hhdm : ℕ) (s : IoApics)
    → AllFit es
    → length es < fuel
    → parse_loop fuel hhdm (encode es) s ≡ take_all hhdm es s
unfolding parse_loop parse_entry parse_apic parse_override
parse_loop-encode es zero hhdm s fit lt = absurd (omega arith)
parse_loop-encode [] (suc fuel) hhdm s fit lt = refl
parse_loop-encode (apic id reserved addr gsi ∷ es) (suc fuel) hhdm s fit lt =
    rw (read32-bytes32 addr fit.0.0, read32-bytes32 gsi fit.0.1)
      (>>=-same (io_apic_add hhdm id addr gsi s)
        (λ s'. parse_loop-encode es fuel hhdm s' fit.1 (omega arith)))
parse_loop-encode (override bus isa_source gsi flags ∷ es) (suc fuel) hhdm s fit lt =
    parse_override-encode bus isa_source gsi flags (encode es) hhdm s fit.0
      (λ s'. parse_loop fuel hhdm (encode es) s') (take_all hhdm es)
      (λ s'. parse_loop-encode es fuel hhdm s' fit.1 (omega arith))
parse_loop-encode (other type body ∷ es) (suc fuel) hhdm s fit lt =
    rw (ne→== type 1 fit.0.0, ne→== type 2 fit.0.1, drop-entry type body (encode es))
      (parse_loop-encode es fuel hhdm s fit.1 (omega arith))

length-encode : (es : List Entry) → length es ≤ length (encode es)
length-encode [] = omega arith
length-encode (apic id reserved addr gsi ∷ es) = omega (arith, length-encode es)
length-encode (override bus isa_source gsi flags ∷ es) = omega (arith, length-encode es)
length-encode (other type body ∷ es) =
    omega (arith, length-encode es, length-append body (encode es))

-- The kernel reads a table of well-formed entries to its end. It adds each I/O APIC and takes each override
-- with the fields that the table has, in order, and skips all others; it ends early only if the addition
-- of an I/O APIC or the node for an override does.
pub io_apic_parse_madt-encode :
    (hhdm : ℕ) (es : List Entry) (s : IoApics)
    → AllFit es
    → io_apic_parse_madt hhdm (some (encode es)) s ≡ take_all hhdm es s
unfolding io_apic_parse_madt
io_apic_parse_madt-encode hhdm es s fit =
    parse_loop-encode es (length (encode es) + 1) hhdm s fit (omega (arith, length-encode es))

-- An entry of neither type 1 nor type 2 whose length is 0 stops the progress: no number of rounds ends the loop.
pub parse_loop-hang :
    (fuel hhdm type : ℕ) (rest : List ℕ) (s : IoApics)
    → type ≢ 1
    → type ≢ 2
    → parse_loop fuel hhdm (type ∷ 0 ∷ rest) s ≡ hang
unfolding parse_loop parse_entry parse_apic parse_override
parse_loop-hang zero hhdm type rest s h k = refl
parse_loop-hang (suc fuel) hhdm type rest s h k =
    rw (ne→== type 1 h, ne→== type 2 k) (parse_loop-hang fuel hhdm type rest s h k)
