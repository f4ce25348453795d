-- ===== src/Proc/Select/Best.antt =====
-- Which process FCFS and PBS choose.
use modified_xv.Base.{
  ℕ, zero, suc, ◌+◌, ◌≤◌, ◌<◌, ◌≡◌, ◌≢◌, refl, sym, ◌∙◌, Bool, true, false, Option, none, some,
  arith, ◌==◌, Bool-cases, Option-cases, inl, inr, ◌⊎◌, some_inj, ==_iff,
}
use modified_xv.Proc.State.{ProcState, Proc, state_eq, nproc, slt}
use modified_xv.Proc.Select.{is_runnable, keep_best, best, pick_fcfs, pick_pbs}

runnable_of_test :
    (p : Proc) → state_eq p.state ProcState.runnable ≡ true → p.state ≡ ProcState.runnable
runnable_of_test p h = ground arith

-- What the loop needs of its test: it is a strict order, and so is "not better" transitive.
record IsOrder (better : ℕ → ℕ → Bool) : Type 0 where
  irrefl : (a : ℕ) → better a a ≡ false
  asym : (a b : ℕ) → better a b ≡ true → better b a ≡ false
  trans : (a b c : ℕ) → better a b ≡ false → better b c ≡ false → better a c ≡ false

module _ (better : ℕ → ℕ → Bool) (order : IsOrder better) (runs : ℕ → Bool) where
  -- The result of the loop passed the test, or is the best so far, and nothing is better.
  record Best (i left : ℕ) (so_far : Option ℕ) (b : ℕ) : Type 0 where
    found : (so_far ≡ some b) ⊎ ((b < i + left) × (runs b ≡ true))
    tops : (j : ℕ) → i ≤ j → j < i + left → runs j ≡ true → better j b ≡ false
    tops_so_far : (j : ℕ) → so_far ≡ some j → better j b ≡ false

  -- What one round does to the best so far.
  record Kept (i : ℕ) (so_far : Option ℕ) (a : ℕ) : Type 0 where
    from : (so_far ≡ some a) ⊎ (a ≡ i)
    this : better i a ≡ false
    old : (j : ℕ) → so_far ≡ some j → better j a ≡ false

  keep_best-Kept :
      (i : ℕ) (so_far : Option ℕ) → (a : ℕ) × (keep_best better i so_far ≡ some a) × Kept i so_far a
  unfolding keep_best
  keep_best-Kept i none =
      (i, refl, record { from = inr refl; this = order.irrefl i; old = λ j h. cc })
  keep_best-Kept i (some o) = elim (Bool-cases (better i o)) [
    | inl e ↦ (
      i,
      rw e,
      record {
        from = inr refl;
        this = order.irrefl i;
        old = λ j h. let p : o ≡ j = some_inj h in rw (← p) (order.asym i o e);
      },
    )
    | inr e ↦ (
      o,
      rw e,
      record {
        from = inl refl;
        this = e;
        old = λ j h. let p : o ≡ j = some_inj h in rw (← p) (order.irrefl o);
      },
    )
  ]

  best-some :
      (i left : ℕ) (so_far : Option ℕ) (b : ℕ)
      → best better runs i left so_far ≡ some b
      → Best i left so_far b
  unfolding best
  best-some i zero so_far b h = record {
    found = inl h;
    tops = λ j x y r. absurd (omega arith);
    tops_so_far = λ j e. let p : j ≡ b = some_inj (sym e ∙ h) in rw p (order.irrefl b);
  }
  best-some i (suc left) so_far b h = elim (Bool-cases (runs i)) [
    | inl e ↦
        let (a, c, k) = keep_best-Kept i so_far in
        let ih = best-some (suc i) left (some a) b (rw (e, c) at h) in
        let top = ih.tops_so_far a refl in
        record {
          found = elim ih.found [
            | inl x ↦ elim k.from [
              | inl y ↦ inl (y ∙ x)
              | inr y ↦ let z : i ≡ b = sym y ∙ some_inj x in inr (omega arith, rw (← z) e)
            ]
            | inr x ↦ inr (omega (arith, x.0), x.1)
          ];
          tops = λ j x y r. elim (Bool-cases (j == i)) [
            | inl z ↦ rw ((==_iff j i).0 z) (order.trans i a b k.this top)
            | inr z ↦ ih.tops j (ground arith) (omega arith) r
          ];
          tops_so_far = λ j x. order.trans j a b (k.old j x) top;
        }
    | inr e ↦
        let ih = best-some (suc i) left so_far b (rw e at h) in
        record {
          found = elim ih.found [ inl x ↦ inl x | inr x ↦ inr (omega (arith, x.0), x.1) ];
          tops = λ j x y r. elim (Bool-cases (j == i)) [
            | inl z ↦ cc (r, e, (==_iff j i).0 z)
            | inr z ↦ ih.tops j (ground arith) (omega arith) r
          ];
          tops_so_far = ih.tops_so_far;
        }
  ]

  keeps : (i left a : ℕ) → best better runs i left (some a) ≢ none
  unfolding best
  keeps i zero a = λ h. cc
  keeps i (suc left) a = elim (Bool-cases (runs i)) [
    | inl e ↦ let (c, p, k) = keep_best-Kept i (some a) in rw (e, p) (keeps (suc i) left c)
    | inr e ↦ rw e (keeps (suc i) left a)
  ]

  -- The loop finds something where it started with something or one process passes.
  best-ne-none :
      (i left : ℕ) (so_far : Option ℕ) (j : ℕ)
      → i ≤ j
      → j < i + left
      → runs j ≡ true
      → best better runs i left so_far ≢ none
  unfolding best
  best-ne-none i zero so_far j a b r = absurd (omega arith)
  best-ne-none i (suc left) so_far j a b r = elim (Bool-cases (runs i)) [
    | inl e ↦ let (c, p, k) = keep_best-Kept i so_far in rw (e, p) (keeps (suc i) left c)
    | inr e ↦ elim (Bool-cases (j == i)) [
      | inl z ↦ cc (r, e, (==_iff j i).0 z)
      | inr z ↦ rw e (best-ne-none (suc i) left so_far j (ground arith) (omega arith) r)
    ]
  ]

-- The chosen process is RUNNABLE and no RUNNABLE process is better.
abbrev pub Top : (ℕ → ℕ → Bool) → (ℕ → Proc) → ℕ → Type 0
Top better table b =
    (b < nproc)
    × ((table b).state ≡ ProcState.runnable)
    × ((j : ℕ) → j < nproc → (table j).state ≡ ProcState.runnable → better j b ≡ false)

best-Top :
    (better : ℕ → ℕ → Bool) (table : ℕ → Proc) (j : ℕ)
    → IsOrder better
    → j < nproc
    → (table j).state ≡ ProcState.runnable
    → (b : ℕ) × (best better (is_runnable table) 0 nproc none ≡ some b) × Top better table b
best-Top better table j order small r =
    elim (Option-cases (best better (is_runnable table) 0 nproc none)) [
      | inl e ↦ absurd (
          best-ne-none better order (is_runnable table) 0 nproc none j (omega arith) (omega arith)
            (rw r) e)
      | inr (b, e) ↦
          let t = best-some better order (is_runnable table) 0 nproc none b e in
          let f = elim t.found as (λ x. (b < nproc) × ((table b).state ≡ ProcState.runnable)) [
            | inl x ↦ cc
            | inr x ↦ (omega (arith, x.0), runnable_of_test (table b) x.1)
          ] in
          (b, e, (f.0, f.1, λ m h q. t.tops m (omega arith) (omega arith) (rw q)))
    ]

-- Where a process is RUNNABLE, the branch of `scheduler` called FCFS chooses a RUNNABLE process,
-- and no RUNNABLE process has a later creation time.
pub pick_fcfs-latest :
    (table : ℕ → Proc) (j : ℕ)
    → j < nproc
    → (table j).state ≡ ProcState.runnable
    → (b : ℕ) × (pick_fcfs table ≡ some b)
      × Top (λ new old. slt (table old).ctime (table new).ctime) table b
unfolding pick_fcfs
pick_fcfs-latest table j =
    best-Top (λ new old. slt (table old).ctime (table new).ctime) table j
      (record {
        irrefl = λ a. ground arith;
        asym = λ a b. ground arith;
        trans = λ a b c. ground arith;
      })

-- Where a process is RUNNABLE, the branch PBS chooses a RUNNABLE process, and no RUNNABLE process
-- has a smaller priority value.
pub pick_pbs-least :
    (table : ℕ → Proc) (j : ℕ)
    → j < nproc
    → (table j).state ≡ ProcState.runnable
    → (b : ℕ) × (pick_pbs table ≡ some b)
      × Top (λ new old. slt (table new).priority (table old).priority) table b
unfolding pick_pbs
pick_pbs-least table j =
    best-Top (λ new old. slt (table new).priority (table old).priority) table j
      (record {
        irrefl = λ a. ground arith;
        asym = λ a b. ground arith;
        trans = λ a b c. ground arith;
      })
