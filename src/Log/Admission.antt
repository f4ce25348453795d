-- ===== src/Log/Admission.antt =====
-- begin_op, log_write and end_op of log.c: several operations on one log, and what each may still
-- write.
use modified_xv.Base.{
  ℕ, suc, ◌+◌, ◌*◌, ◌≤◌, ◌<◌, ◌≡◌, ◌≢◌, refl, sym, ap, ◌∙◌, Bool, true, false, none, some, List, [],
  ◌∷◌, ◌++◌, length, length-append, arith, slt, add32, sub32, mul32,
}
use modified_xv.Log.{Log, log_size, max_op_blocks, begin_op, end_op, end_commit, log_write}

-- What the operations in progress may still write, one number for each.
abbrev pub State : Type 0
State = Log × List ℕ

-- An operation calls `log_write` at most MAXOPBLOCKS times.
pub data Step : State → State → Type 0 where
  begins :
      (l l' : Log) (ops : List ℕ) → begin_op l ≡ some l' → Step (l, ops) (l', max_op_blocks ∷ ops)
  writes :
      (l l' : Log) (b r : ℕ) (xs ys : List ℕ)
      → log_write b l ≡ some l'
      → Step (l, xs ++ (suc r ∷ ys)) (l', xs ++ (r ∷ ys))
  ends :
      (l l' : Log) (c : Bool) (r : ℕ) (xs ys : List ℕ)
      → end_op l ≡ some (l', c)
      → Step (l, xs ++ (r ∷ ys)) (l', xs ++ ys)
  -- `commit` and the end of the `end_op` that called it.
  commits : (l : Log) (ops : List ℕ) → l.committing ≡ true → Step (l, ops) (end_commit l, ops)

pub data Reach (s : State) : State → Type 0 where
  here : Reach s s
  next : {t u : State} → Reach s t → Step t u → Reach s u

unfoldable pub sum : List ℕ → ℕ
sum [] = 0
sum (x ∷ xs) = x + sum xs

sum-append : (xs ys : List ℕ) → sum (xs ++ ys) ≡ sum xs + sum ys
unfolding sum
sum-append [] ys = omega arith
sum-append (x ∷ xs) ys = omega (arith, sum-append xs ys)

-- No operation has more than MAXOPBLOCKS writes left.
abbrev pub Small : List ℕ → Type 0
Small [] = Unit
Small (x ∷ xs) = (x ≤ max_op_blocks) × Small xs

sum-Small : (xs : List ℕ) → Small xs → sum xs ≤ max_op_blocks * length xs
unfolding sum
sum-Small [] s = omega arith
sum-Small (x ∷ xs) s = omega (arith, sum-Small xs s.1, s.0)

Small-spend : (xs ys : List ℕ) (r : ℕ) → Small (xs ++ (suc r ∷ ys)) → Small (xs ++ (r ∷ ys))
Small-spend [] ys r s = (omega (arith, s.0), s.1)
Small-spend (x ∷ xs) ys r s = (s.0, Small-spend xs ys r s.1)

Small-drop : (xs ys : List ℕ) (r : ℕ) → Small (xs ++ (r ∷ ys)) → Small (xs ++ ys)
Small-drop [] ys r s = s.1
Small-drop (x ∷ xs) ys r s = (s.0, Small-drop xs ys r s.1)

pub record IsValid (size : ℕ) (s : State) : Type 0 where
  pub counted : s.0.outstanding ≡ length s.1
  pub room : s.0.lh.n + sum s.1 ≤ log_size
  pub small : Small s.1
  pub few : length s.1 ≤ 3
  pub quiet : s.0.committing ≡ true → s.1 ≡ []
  pub sized : s.0.size ≡ size

begin_op-some :
    (l l' : Log)
    → begin_op l ≡ some l'
    → (l.committing ≡ false)
      × (slt log_size (add32 l.lh.n (mul32 (add32 l.outstanding 1) max_op_blocks)) ≡ false)
      × (l' ≡ record l { outstanding = add32 l.outstanding 1 })
unfolding begin_op
begin_op-some l l' h = ground arith

log_write-some :
    (b : ℕ) (l l' : Log)
    → log_write b l ≡ some l'
    → (l'.lh.n ≤ l.lh.n + 1)
      × (l'.outstanding ≡ l.outstanding)
      × (l'.committing ≡ l.committing)
      × (l'.size ≡ l.size)
unfolding log_write
log_write-some b l l' h = ground arith

end_op-some :
    (l l' : Log) (c : Bool)
    → end_op l ≡ some (l', c)
    → (l.committing ≡ false)
      × (l'.lh.n ≡ l.lh.n)
      × (l'.outstanding ≡ sub32 l.outstanding 1)
      × (l'.size ≡ l.size)
      × ((l'.committing ≡ true) → l'.outstanding ≡ 0)
unfolding end_op
end_op-some l l' c h = (ground arith, ground arith, ground arith, ground arith, λ z. ground arith)

nil_of_length : (xs : List ℕ) → length xs ≡ 0 → xs ≡ []
nil_of_length [] h = refl
nil_of_length (x ∷ xs) h = absurd (omega arith)

slt_small :
    (n o : ℕ)
    → n ≤ 30
    → o ≤ 3
    → slt log_size (add32 n (mul32 (add32 o 1) max_op_blocks)) ≡ false
    → n + (o + 1) * 10 ≤ 30
slt_small n o hn ho h = ground arith

end_commit-n : (l : Log) → (end_commit l).lh.n ≡ 0
unfolding end_commit
end_commit-n l = refl

-- Every step keeps the reservation: the entries in the log and what may still be written fit.
pub Step-IsValid : {size : ℕ} {s t : State} → Step s t → IsValid size s → IsValid size t
unfolding sum end_commit
Step-IsValid (begins l l' ops e) v =
    let (quiet, room, is) = begin_op-some l l' e in
    let fits : l.lh.n + (l.outstanding + 1) * 10 ≤ 30 = omega (
      arith,
      slt_small (l.lh.n) l.outstanding (omega (arith, v.room)) (omega (arith, v.counted, v.few))
          room,
    ) in
    record {
      counted = rw is (omega (arith, v.counted, v.few));
      small = (omega arith, v.small);
      room = rw is (omega (arith, fits, v.counted, sum-Small ops v.small));
      few = omega (arith, v.counted, fits);
      quiet = λ h. cc (quiet, is, h);
      sized = rw is v.sized;
    }
Step-IsValid (writes l l' b r xs ys e) v =
    let (n, out, same, size) = log_write-some b l l' e in
    record {
      counted =
          omega (arith, out, v.counted, length-append xs (suc r ∷ ys), length-append xs (r ∷ ys));
      small = Small-spend xs ys r v.small;
      room = omega (arith, n, v.room, sum-append xs (suc r ∷ ys), sum-append xs (r ∷ ys));
      few = omega (arith, v.few, length-append xs (suc r ∷ ys), length-append xs (r ∷ ys));
      quiet = λ h.
          absurd (omega (arith, ap length (v.quiet (sym same ∙ h)), length-append xs (suc r ∷ ys)));
      sized = size ∙ v.sized;
    }
Step-IsValid (ends l l' c r xs ys e) v =
    let (quiet, n, out, size, last) = end_op-some l l' c e in
    record {
      counted =
          omega (arith, out, v.counted, v.few, length-append xs (r ∷ ys), length-append xs ys);
      small = Small-drop xs ys r v.small;
      room = omega (arith, n, v.room, sum-append xs (r ∷ ys), sum-append xs ys);
      few = omega (arith, v.few, length-append xs (r ∷ ys), length-append xs ys);
      quiet = λ h. nil_of_length (xs ++ ys) (
          omega
            (arith, last h, out, v.counted, v.few, length-append xs (r ∷ ys), length-append xs ys));
      sized = size ∙ v.sized;
    }
Step-IsValid (commits l ops h) v = record {
  counted = v.counted;
  small = v.small;
  room = omega (arith, end_commit-n l, v.room);
  few = v.few;
  quiet = λ c. v.quiet h;
  sized = v.sized;
}

pub Reach-IsValid : {size : ℕ} {s t : State} → IsValid size s → Reach s t → IsValid size t
Reach-IsValid v here = v
Reach-IsValid v (next r st) = Step-IsValid st (Reach-IsValid v r)

-- With a log of more than LOGSIZE blocks, from a valid state and over any interleaving of
-- operations that write at most MAXOPBLOCKS times each, `log_write` does not panic for an
-- operation with a write left.
pub log_write_admitted :
    {size : ℕ} {s : State} {l : Log} (b r : ℕ) (xs ys : List ℕ)
    → log_size < size
    → IsValid size s
    → Reach s (l, xs ++ (suc r ∷ ys))
    → log_write b l ≢ none
unfolding log_write sum
log_write_admitted {l} b r xs ys big start reach =
    let v = Reach-IsValid start reach in
    let n : l.lh.n < log_size = omega (arith, v.room, sum-append xs (suc r ∷ ys)) in
    let out : l.outstanding ≡ suc (length xs + length ys) =
      omega (arith, v.counted, length-append xs (suc r ∷ ys)) in
    ground (arith, v.few, v.sized, length-append xs (suc r ∷ ys))
