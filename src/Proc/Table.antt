-- ===== src/Proc/Table.antt =====
-- The scans of proc.c over `ptable.proc`, and the scheduler that the kernel is built with.
pub mod Scans
use modified_xv.Base.{ℕ, zero, suc, Option, none, some, Bool, true, false, if◌then◌else◌}

-- The Makefile's SCHEDULER, which `#ifdef` tests.
pub data Scheduler : Type 0 where
  rr fcfs pbs mlfq : Scheduler

abbrev pub is_mlfq : Scheduler → Bool
is_mlfq Scheduler.mlfq = true
is_mlfq _ = false

abbrev pub is_pbs : Scheduler → Bool
is_pbs Scheduler.pbs = true
is_pbs _ = false

abbrev pub is_fcfs : Scheduler → Bool
is_fcfs Scheduler.fcfs = true
is_fcfs _ = false

-- `for(p = ..; p < &ptable.proc[NPROC]; p++) if(test(p)) break`, from index `i` with `left` to go.
unfoldable pub scan : (ℕ → Bool) → ℕ → ℕ → Option ℕ
scan test i zero = none
scan test i (suc left) = let rest = scan test (suc i) left in if test i then some i else rest

-- `for(..) body(p)`, where every round changes the state.
unfoldable pub each {ℓ} : {S : Type ℓ} → (ℕ → S → S) → ℕ → ℕ → S → S
each body i zero s = s
each body i (suc left) s = each body (suc i) left (body i s)
