-- ===== src/Pipe/Stream.antt =====
-- Sequences of calls on one pipe of pipe.c, with the bytes put in and handed out.
use modified_xv.Base.{
  ℕ, ◌≡◌, refl, sym, ap, ◌∙◌, Bool, true, false, List, [], ◌∷◌, ◌++◌, arith, ◌-◌, take, length,
  length-append, take-append,
}
use mathlib.Core.List.{append-nil, append_assoc}
use modified_xv.Pipe.{
  Pipe, Written, done, broken, waits, write, ReadEnd, bytes, failed, sleeps, read, close,
}
use modified_xv.Pipe.Fifo.{IsValid, contents, Wrote, Returned, write_lem, read_lem}

-- A call, or the resumption of one that slept. The flag says whether the caller was killed.
pub data Call : Type 0 where
  writing : Bool → List ℕ → Call
  reading : Bool → ℕ → Call
  closing : Bool → Call

-- What a call of `pipewrite` put into the buffer.
pub accepted : List ℕ → Written → List ℕ
accepted cs done = cs
accepted cs (broken rest) = take (length cs - length rest) cs
accepted cs (waits rest) = take (length cs - length rest) cs

pub returned : ReadEnd → List ℕ
returned (bytes cs) = cs
returned failed = []
returned sleeps = []

-- The pipe after the calls, with all bytes put in and all bytes handed out.
unfoldable pub run : Pipe → List Call → Pipe × List ℕ × List ℕ
unfolding accepted returned
run p [] = (p, [], [])
run p (writing killed cs ∷ calls) =
    let (w, p') = write killed p cs in
    let (p'', ins, outs) = run p' calls in (p'', accepted cs w ++ ins, outs)
run p (reading killed n ∷ calls) =
    let (r, p') = read killed p n in
    let (p'', ins, outs) = run p' calls in (p'', ins, returned r ++ outs)
run p (closing writable ∷ calls) = run (close p writable).0 calls

split-taken :
    (cs rest taken : List ℕ) → cs ≡ taken ++ rest → taken ≡ take (length cs - length rest) cs
split-taken cs rest taken e =
    let n : length cs - length rest ≡ length taken =
      omega (arith, ap length e, length-append taken rest) in
    rw (n, e) (sym (take-append taken rest))

accepted_lem :
    (killed : Bool) (p : Pipe) (cs : List ℕ) (r : Written × Pipe)
    → Wrote killed p cs r
    → contents r.1 ≡ contents p ++ accepted cs r.0
unfolding accepted
accepted_lem killed p cs (done, p') w = w
accepted_lem killed p cs (broken rest, p') (t, z) =
    t.appended ∙ ap (λ xs. contents p ++ xs) (split-taken cs rest t.taken t.split)
accepted_lem killed p cs (waits rest, p') (t, y, z) =
    t.appended ∙ ap (λ xs. contents p ++ xs) (split-taken cs rest t.taken t.split)

returned_lem :
    (killed : Bool) (p : Pipe) (n : ℕ) (r : ReadEnd × Pipe)
    → Returned killed p n r
    → contents p ≡ returned r.0 ++ contents r.1
unfolding returned
returned_lem killed p n (bytes cs, p') r = r.0
returned_lem killed p n (failed, p') r = ap contents (sym r.0)
returned_lem killed p n (sleeps, p') r = ap contents (sym r.0)

close-IsValid :
    (p : Pipe) (writable : Bool)
    → IsValid p
    → IsValid (close p writable).0 × (contents (close p writable).0 ≡ contents p)
unfolding close
close-IsValid p true v =
    (record { read_small = v.read_small; write_small = v.write_small; fits = v.fits }, refl)
close-IsValid p false v =
    (record { read_small = v.read_small; write_small = v.write_small; fits = v.fits }, refl)

-- Over any sequence of calls and resumed calls on a valid pipe, the pipe stays valid, and what was
-- stored followed by what was put in is, in order, what was handed out followed by what is stored.
pub run_fifo :
    (calls : List Call) (p : Pipe)
    → IsValid p
    → let (p', ins, outs) = run p calls in IsValid p' × (contents p ++ ins ≡ outs ++ contents p')
unfolding run
run_fifo [] p v = (v, append-nil (contents p))
run_fifo (writing killed cs ∷ calls) p v =
    let (v', w) = write_lem killed cs p v in
    let (v'', e) = run_fifo calls (write killed p cs).1 v' in
    (
      v'',
      sym (append_assoc (contents p) _ _)
          ∙ ap (λ xs. xs ++ (run (write killed p cs).1 calls).1)
              (sym (accepted_lem killed p cs (write killed p cs) w))
          ∙ e,
    )
run_fifo (reading killed n ∷ calls) p v =
    let (v', r) = read_lem killed n p v in
    let (v'', e) = run_fifo calls (read killed p n).1 v' in
    (
      v'',
      ap (λ xs. xs ++ (run (read killed p n).1 calls).1)
            (returned_lem killed p n (read killed p n) r)
          ∙ append_assoc (returned (read killed p n).0) _ _
          ∙ ap (λ xs. returned (read killed p n).0 ++ xs) e
          ∙ sym (append_assoc (returned (read killed p n).0) _ _),
    )
run_fifo (closing writable ∷ calls) p v =
    let (v', same) = close-IsValid p writable v in
    let (v'', e) = run_fifo calls (close p writable).0 v' in
    (v'', ap (λ xs. xs ++ (run (close p writable).0 calls).1) (sym same) ∙ e)
