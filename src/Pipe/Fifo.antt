-- ===== src/Pipe/Fifo.antt =====
-- The bytes that a pipe of pipe.c holds, and what pipewrite and piperead do to them.
use modified_xv.Base.{
  ℕ, zero, suc, ◌+◌, ◌-◌, ◌%◌, ◌^◌, ◌≤◌, ◌<◌, ◌≡◌, ◌≢◌, ◌↔◌, ◌⊎◌, refl, sym, ap, ◌∙◌, Bool, true,
  false, not, ◌&&◌, ◌||◌, List, [], ◌∷◌, ◌++◌, arith, ◌==◌, update, length, min, Bool-cases, inl,
  inr, ==_iff, add32,
}
use mathlib.Core.Path.{ap₂}
use mathlib.Core.List.{append-nil, append_assoc}
use modified_xv.Pipe.{
  Pipe, pipe_size, init, is_full, is_empty, put, advance, Written, done, broken, waits, write,
  copy_out, ReadEnd, bytes, failed, sleeps, read,
}

-- The number of bytes in the buffer: `nwrite - nread` as a `uint`.
abbrev pub stored : Pipe → ℕ
stored p = (p.nwrite + 2 ^ 32 - p.nread) % 2 ^ 32

pub record IsValid (p : Pipe) : Type 0 where
  pub read_small : p.nread < 2 ^ 32
  pub write_small : p.nwrite < 2 ^ 32
  pub fits : stored p ≤ pipe_size

-- The `n` bytes from the counter value `i` on.
abbrev pub cells : (ℕ → ℕ) → ℕ → ℕ → List ℕ
cells buf i zero = []
cells buf i (suc n) = buf (i % pipe_size) ∷ cells buf (add32 i 1) n

abbrev pub contents : Pipe → List ℕ
contents p = cells p.buf p.nread (stored p)

length-cells : (buf : ℕ → ℕ) (i n : ℕ) → length (cells buf i n) ≡ n
length-cells buf i zero = refl
length-cells buf i (suc n) = ap suc (length-cells buf (add32 i 1) n)

pub length-contents : (p : Pipe) → length (contents p) ≡ stored p
length-contents p = length-cells p.buf p.nread (stored p)

slot_ne :
    (i n j : ℕ)
    → i < 2 ^ 32
    → suc n < pipe_size
    → j ≡ add32 i (suc n) % pipe_size
    → (i % pipe_size == j) ≡ false
slot_ne i n j h k e = ground arith

-- A byte written just past fewer than PIPESIZE others is read after them.
cells-put :
    (buf : ℕ → ℕ) (c j n i : ℕ)
    → i < 2 ^ 32
    → n < pipe_size
    → j ≡ add32 i n % pipe_size
    → cells (update buf j c) i (suc n) ≡ cells buf i n ++ (c ∷ [])
cells-put buf c j zero i hi hn e = ap (λ x. x ∷ []) (ground arith)
cells-put buf c j (suc n) i hi hn e =
    ap₂ ◌∷◌ (rw (slot_ne i n j hi hn e))
      (cells-put buf c j n (add32 i 1) (omega arith) (omega arith) (omega arith))

pub init-IsValid : (page : ℕ → ℕ) → IsValid (init page) × (contents (init page) ≡ [])
unfolding init
init-IsValid page = (omega arith, refl)

module _ (p : Pipe) (v : IsValid p) where
  -- The two tests of the code compare the counters; these are what they mean.
  full-stored : (is_full p ≡ true) ↔ (stored p ≡ pipe_size)
  unfolding is_full
  full-stored = (λ h. omega (arith, (==_iff _ _).0 h), λ h. (==_iff _ _).1 (omega arith))

  empty-stored : (is_empty p ≡ true) ↔ (stored p ≡ 0)
  unfolding is_empty
  empty-stored = (λ h. omega (arith, (==_iff _ _).0 h), λ h. (==_iff _ _).1 (omega arith))

  not_full : is_full p ≡ false → stored p ≢ pipe_size
  not_full h e = cc (h, full-stored.1 e)

  not_empty : is_empty p ≡ false → stored p ≢ 0
  not_empty h e = cc (h, empty-stored.1 e)

  -- A byte put into a pipe that is not full goes behind the others.
  put-append :
      (c : ℕ)
      → is_full p ≡ false
      → IsValid (put p c) × (contents (put p c) ≡ contents p ++ (c ∷ []))
  unfolding put
  put-append c h =
      let room : stored p < pipe_size = omega (arith, v.fits, not_full h) in
      let more : stored (put p c) ≡ suc (stored p) = omega arith in
      (
        record { read_small = v.read_small; write_small = omega arith; fits = omega arith },
        ap (λ n. cells (put p c).buf p.nread n) more
            ∙ cells-put p.buf c (p.nwrite % pipe_size) (stored p) p.nread v.read_small room
                (omega (arith, v.write_small)),
      )

  -- The byte that is read is the oldest.
  advance-cons :
      is_empty p ≡ false
      → IsValid (advance p) × (contents p ≡ p.buf (p.nread % pipe_size) ∷ contents (advance p))
  unfolding advance
  advance-cons h =
      let some : stored p ≡ suc (stored (advance p)) = omega (arith, not_empty h) in
      (
        record {
          read_small = omega arith;
          write_small = v.write_small;
          fits = omega (arith, v.fits);
        },
        ap (cells p.buf p.nread) some,
      )

-- The bytes taken from `cs` before the loop stopped at `rest`, with the pipe full.
pub record Taken (p : Pipe) (cs rest : List ℕ) (p' : Pipe) : Type 0 where
  pub taken : List ℕ
  pub split : cs ≡ taken ++ rest
  pub appended : contents p' ≡ contents p ++ taken
  pub full : stored p' ≡ pipe_size

abbrev pub Wrote : Bool → Pipe → List ℕ → Written × Pipe → Type 0
Wrote killed p cs (done, p') = contents p' ≡ contents p ++ cs
Wrote killed p cs (waits rest, p') = Taken p cs rest p' × (p.readopen ≡ true) × (killed ≡ false)
Wrote killed p cs (broken rest, p') = Taken p cs rest p' × ((p.readopen ≡ false) ⊎ (killed ≡ true))

Taken-here : (p : Pipe) (cs : List ℕ) → stored p ≡ pipe_size → Taken p cs cs p
Taken-here p cs h = record {
  taken = [];
  split = refl;
  appended = sym (append-nil (contents p));
  full = h;
}

module _ (p : Pipe) (c : ℕ) (app : contents (put p c) ≡ contents p ++ (c ∷ [])) where
  Taken-cons :
      (cs rest : List ℕ) (p' : Pipe) → Taken (put p c) cs rest p' → Taken p (c ∷ cs) rest p'
  Taken-cons cs rest p' t = record {
    taken = c ∷ t.taken;
    split = ap (λ xs. c ∷ xs) t.split;
    appended =
        t.appended ∙ ap (λ xs. xs ++ t.taken) app ∙ append_assoc (contents p) (c ∷ []) t.taken;
    full = t.full;
  }

  Wrote-cons :
      (killed : Bool) (cs : List ℕ) (r : Written × Pipe)
      → Wrote killed (put p c) cs r
      → Wrote killed p (c ∷ cs) r
  unfolding put
  Wrote-cons killed cs (done, p') h =
      h ∙ ap (λ xs. xs ++ cs) app ∙ append_assoc (contents p) (c ∷ []) cs
  Wrote-cons killed cs (waits rest, p') h = (Taken-cons cs rest p' h.0, h.1, h.2)
  Wrote-cons killed cs (broken rest, p') h = (Taken-cons cs rest p' h.0, h.1)

-- On a valid pipe, `pipewrite` keeps the pipe valid and appends the bytes in order: all of them,
-- or a first part up to a full buffer, where it fails if the read end is closed or the caller was
-- killed, and sleeps otherwise.
pub write_lem :
    (killed : Bool) (cs : List ℕ) (p : Pipe)
    → IsValid p
    → IsValid (write killed p cs).1 × Wrote killed p cs (write killed p cs)
unfolding write
write_lem killed [] p v = (v, sym (append-nil (contents p)))
write_lem killed (c ∷ cs) p v = elim (Bool-cases (is_full p)) [
  | inl e ↦ elim (Bool-cases (not p.readopen || killed)) [
    | inl b ↦ rw (e, b) (v, (Taken-here p (c ∷ cs) ((full-stored p v).0 e), ground arith))
    | inr b ↦
        rw (e, b) (v, (Taken-here p (c ∷ cs) ((full-stored p v).0 e), ground arith, ground arith))
  ]
  | inr e ↦
      let (v', app) = put-append p v c e in
      let (v'', w) = write_lem killed cs (put p c) v' in
      rw e (v'', Wrote-cons p c app killed cs (write killed (put p c) cs) w)
]

-- What the copying loop takes off the front.
pub copy_out_lem :
    (n : ℕ) (p : Pipe)
    → IsValid p
    → IsValid (copy_out n p).1
      × (contents p ≡ (copy_out n p).0 ++ contents (copy_out n p).1)
      × (length (copy_out n p).0 ≡ min n (stored p))
unfolding copy_out
copy_out_lem zero p v = (v, refl, omega arith)
copy_out_lem (suc n) p v = elim (Bool-cases (is_empty p)) [
  | inl e ↦ rw e (v, refl, omega (arith, (empty-stored p v).0 e))
  | inr e ↦
      let (v', front) = advance-cons p v e in
      let (v'', rest, count) = copy_out_lem n (advance p) v' in
      rw e (
        v'',
        front ∙ ap (λ xs. p.buf (p.nread % pipe_size) ∷ xs) rest,
        omega (arith, count, length-contents p, length-contents (advance p), ap length front),
      )
]

abbrev pub Returned : Bool → Pipe → ℕ → ReadEnd × Pipe → Type 0
Returned killed p n (bytes cs, p') =
    (contents p ≡ cs ++ contents p')
    × (length cs ≡ min n (stored p))
    × ((stored p ≢ 0) ⊎ (p.writeopen ≡ false))
Returned killed p n (failed, p') =
    (p' ≡ p) × (stored p ≡ 0) × (p.writeopen ≡ true) × (killed ≡ true)
Returned killed p n (sleeps, p') =
    (p' ≡ p) × (stored p ≡ 0) × (p.writeopen ≡ true) × (killed ≡ false)

may_read :
    (p : Pipe)
    → IsValid p
    → (is_empty p && p.writeopen) ≡ false
    → (stored p ≢ 0) ⊎ (p.writeopen ≡ false)
may_read p v h = elim (Bool-cases (is_empty p)) [
  | inl e ↦ inr (ground arith)
  | inr e ↦ inl (not_empty p v e)
]

-- On a valid pipe, `piperead` keeps the pipe valid and returns the oldest bytes, as many as were
-- asked for and stored; with none stored and a writer left it takes nothing, and fails if the
-- caller was killed and sleeps otherwise.
pub read_lem :
    (killed : Bool) (n : ℕ) (p : Pipe)
    → IsValid p
    → IsValid (read killed p n).1 × Returned killed p n (read killed p n)
unfolding read
read_lem killed n p v = elim (Bool-cases (is_empty p && p.writeopen)) [
  | inl e ↦
      let none : stored p ≡ 0 = (empty-stored p v).0 (ground arith) in
      elim (Bool-cases killed) [
        | inl d ↦ rw (e, d) (v, (refl, none, ground arith, refl))
        | inr d ↦ rw (e, d) (v, (refl, none, ground arith, refl))
      ]
  | inr e ↦ let (v', rest, count) = copy_out_lem n p v in rw e (v', (rest, count, may_read p v e))
]
