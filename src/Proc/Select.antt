-- ===== src/Proc/Select.antt =====
-- The processes that `scheduler` chooses under RR, FCFS and PBS, and the switch to one of them.
pub mod Best
use modified_xv.Base.{ℕ, zero, suc, Bool, ◌&&◌, Option, none, some, ◌==◌, if◌then◌else◌}
use modified_xv.Proc.State.{ProcState, Proc, Kernel, state_eq, set_proc, nproc, add32, slt}
use modified_xv.Proc.Table.{scan}

abbrev pub is_runnable : (ℕ → Proc) → ℕ → Bool
is_runnable table i = state_eq (table i).state ProcState.runnable

-- `p->n_run++; p->state = RUNNING` before `swtch`.
unfoldable pub dispatch : ℕ → Kernel → Kernel
dispatch i k =
    let p = k.table i in
    set_proc k i (record p { n_run = add32 p.n_run 1; state = ProcState.running })

-- RR: the process that the loop over the table runs next, from index `i` with `left` to go.
unfoldable pub next_rr : (ℕ → Proc) → ℕ → ℕ → Option ℕ
unfolding scan
next_rr table i left = scan (is_runnable table) i left

-- One round of the loop that keeps the best RUNNABLE process so far: `better new old` replaces it.
unfoldable pub keep_best : (ℕ → ℕ → Bool) → ℕ → Option ℕ → Option ℕ
keep_best better i none = some i
keep_best better i (some old) = some (if better i old then i else old)

unfoldable pub best : (ℕ → ℕ → Bool) → (ℕ → Bool) → ℕ → ℕ → Option ℕ → Option ℕ
unfolding keep_best
best better runs i zero so_far = so_far
best better runs i (suc left) so_far =
    best better runs (suc i) left (if runs i then keep_best better i so_far else so_far)

-- FCFS: `if(first_process->ctime < p->ctime) first_process = p`.
unfoldable pub pick_fcfs : (ℕ → Proc) → Option ℕ
unfolding best
pick_fcfs table =
    best (λ new old. slt (table old).ctime (table new).ctime) (is_runnable table) 0 nproc none

-- PBS: `if(high->priority > p->priority) high = p`.
unfoldable pub pick_pbs : (ℕ → Proc) → Option ℕ
unfolding best
pick_pbs table =
    best (λ new old. slt (table new).priority (table old).priority) (is_runnable table) 0 nproc none

-- PBS: one round of the second loop, for process `i` after `high` was chosen.
pub data Round : Type 0 where
  -- A process of higher priority than `high` became runnable: the loop ends.
  stop : Round
  -- `i` does not run.
  pass : Round
  -- `i` runs.
  run : Round

unfoldable pub round_pbs : (ℕ → Proc) → ℕ → ℕ → Round
unfolding scan
round_pbs table high i =
    elim (scan (λ j. is_runnable table j && slt (table j).priority (table high).priority) 0 nproc) [
      | some j ↦ stop
      | none ↦
          if is_runnable table i && ((table i).priority == (table high).priority) then run else pass
    ]
