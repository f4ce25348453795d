-- ===== src/Proc/Mlfq/Choice.antt =====
-- Which process MLFQ chooses.
use modified_xv.Base.{
  ℕ, zero, suc, ◌≤◌, ◌<◌, ◌≡◌, true, some, arith, ltb, has, window, Option-cases, inl, inr, ltb→lt,
  lt→ltb,
}
use modified_xv.Proc.State.{ProcState, Kernel, nproc}
use modified_xv.Proc.Table.Scans.{scan-some, scan-none, First-le}
use modified_xv.Proc.Mlfq.{first_queue, take_head, select}
use modified_xv.Proc.Invariant.{IsValid}
use modified_xv.Proc.Invariant.Schedule.{head-has}

count-pos : (f : ℕ → ℕ) (n i : ℕ) → has i (window f 0 n) ≡ true → 0 < n
count-pos f zero i h = cc
count-pos f (suc n) i h = omega arith

-- A choice of MLFQ that no RUNNABLE process `j` outranks.
pub record Chosen (k : Kernel) (j i : ℕ) : Type 0 where
  pub chosen : select k ≡ some (i, take_head (k.table i).cur_q i k)
  pub ready : (k.table i).state ≡ ProcState.runnable
  pub ranked : (k.table i).cur_q ≤ (k.table j).cur_q

-- In a valid state with a RUNNABLE process `j`, MLFQ chooses a process to run: it is RUNNABLE and
-- its level is at most that of `j`.
pub select-highest :
    (k : Kernel) (j : ℕ)
    → IsValid k
    → j < nproc
    → (k.table j).state ≡ ProcState.runnable
    → (i : ℕ) × Chosen k j i
unfolding select first_queue
select-highest k j v small r = elim (Option-cases (first_queue k.queues)) [
  | inl e ↦ cc (
    used,
    scan-none (λ l. ltb 0 (k.queues l).count) 0 5 e level (omega arith) (omega (arith, low)),
  )
  | inr (l, e) ↦
      let f = scan-some (λ l. ltb 0 (k.queues l).count) 0 5 l e in
      let i = (k.queues l).slots 0 in
      let q = v.member l i (omega (arith, f.below)) (head-has k l (ltb→lt 0 _ f.hit)) in
      (
        i,
        record {
          chosen = rw (e, select, q.ready, q.level);
          ready = q.ready;
          ranked = rw q.level (First-le level f (omega arith) used);
        },
      )
]
  where
    level : ℕ
    level = (k.table j).cur_q

    low : level < 5
    low = v.level j small

    used : ltb 0 (k.queues level).count ≡ true
    used = lt→ltb 0 _ (count-pos _ _ j (v.queued j small (omega arith) r))
