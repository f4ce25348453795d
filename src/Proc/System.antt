-- ===== src/Proc/System.antt =====
-- The kernel under MLFQ as a transition system. Each call is one step. fork and exit
-- too are one step each, though fork gives up the table lock between allocproc and the marking as
-- RUNNABLE, and exit takes it only after it closed the files, where begin_op and iput may sleep: what
-- other processes do in between is not in this model.
pub mod Safety
pub mod Capacity
use modified_xv.Base.{ℕ, zero, suc, ◌+◌, ◌<◌, ◌^◌, ◌≡◌, Option, some, Bool, if◌then◌else◌}
use modified_xv.Proc.State.{ProcState, Kernel, nproc}
use modified_xv.Proc.Table.{Scheduler}
use modified_xv.Proc.Services.{Services}
use modified_xv.Proc.Wake.{wakeup1, kill, sleep, awake}
use modified_xv.Proc.Life.{userinit, fork, exit}
use modified_xv.Proc.Wait.{wait}
use modified_xv.Proc.Tick.{timer, yield, preempt, set_priority}
use modified_xv.Proc.Mlfq.{schedule, return_from}

-- Process `cur` is on a CPU.
pub record OnCpu (k : Kernel) (cur : ℕ) : Type 0 where
  pub small : cur < nproc
  pub running : (k.table cur).state ≡ ProcState.running

abbrev pub Config : Services → Type 0
Config S = Kernel × S.World

-- The scheduler's part of a tick, if the process yielded.
unfoldable pub after_preempt : ℕ → Kernel × Bool → Kernel
after_preempt cur (k, yielded) = if yielded then return_from cur k else k

-- Which process runs, and what it or an interrupt does next, is open. `allocproc` counts pids in
-- an `int`: a step of `fork` is one before that count wraps.
pub data Step (S : Services) : Config S → Config S → Type 0 where
  forks :
      (cur : ℕ) (k : Kernel) (w : S.World)
      → k.next_pid + 1 < 2 ^ 32
      → Step S (k, w) (fork S Scheduler.mlfq cur (k, w)).1
  exits :
      (cur : ℕ) (st st' : Config S)
      → OnCpu st.0 cur
      → exit S Scheduler.mlfq cur st ≡ some st'
      → Step S st st'
  waits :
      (cur : ℕ) (k : Kernel) (w : S.World)
      → OnCpu k cur
      → Step S (k, w) ((wait S Scheduler.mlfq cur (k, w)).1, (wait S Scheduler.mlfq cur (k, w)).2)
  kills : (pid : ℕ) (k : Kernel) (w : S.World) → Step S (k, w) ((kill Scheduler.mlfq pid k).0, w)
  wakes : (chan : ℕ) (k : Kernel) (w : S.World) → Step S (k, w) (wakeup1 Scheduler.mlfq chan k, w)
  sleeps :
      (cur chan : ℕ) (k : Kernel) (w : S.World) → OnCpu k cur → Step S (k, w) (sleep cur chan k, w)
  -- The end of `sleep`, when the process runs again.
  awakes : (cur : ℕ) (k : Kernel) (w : S.World) → Step S (k, w) (awake cur k, w)
  -- `yield`, with what the scheduler does next under the same lock.
  yields :
      (cur : ℕ) (k : Kernel) (w : S.World)
      → OnCpu k cur
      → Step S (k, w) (return_from cur (yield cur k), w)
  -- What `trap` does to the running process on a tick.
  preempts :
      (cur : ℕ) (k : Kernel) (w : S.World)
      → OnCpu k cur
      → Step S (k, w) (after_preempt cur (preempt Scheduler.mlfq cur k), w)
  ticks : (k : Kernel) (w : S.World) → Step S (k, w) (timer Scheduler.mlfq k, w)
  prioritises :
      (new pid : ℕ) (k : Kernel) (w : S.World)
      → Step S (k, w) ((set_priority Scheduler.mlfq new pid k).0, w)
  schedules : (k : Kernel) (w : S.World) → Step S (k, w) (schedule k, w)
  -- The rest of the kernel changes its own state.
  works : (k : Kernel) (w w' : S.World) → Step S (k, w) (k, w')

pub data Reach (S : Services) (start : Config S) : Config S → Type 0 where
  here : Reach S start start
  next : {t u : Config S} → Reach S start t → Step S t u → Reach S start u
