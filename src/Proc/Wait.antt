-- ===== src/Proc/Wait.antt =====
-- wait and waitx of proc.c.
use modified_xv.Base.{
  ℕ, zero, suc, Bool, true, false, not, ◌||◌, Option, none, some, ◌==◌, if◌then◌else◌,
}
use modified_xv.Proc.State.{
  ProcState, Proc, Kernel, state_eq, set_proc, set_row, nproc, sub32, proc_ptr,
}
use modified_xv.Proc.Queue.{remove}
use modified_xv.Proc.Table.{Scheduler, is_mlfq}
use modified_xv.Proc.Wake.{sleep}
use modified_xv.Proc.Services.{Services}

-- The loop that looks for exited children, with `havekids` so far: the first zombie found.
unfoldable pub scan_children : (ℕ → Proc) → ℕ → ℕ → ℕ → Bool → Option ℕ × Bool
scan_children table cur i zero havekids = (none, havekids)
scan_children table cur i (suc left) havekids =
    let rest = scan_children table cur (suc i) left havekids in
    let kids = scan_children table cur (suc i) left true in
    if (table i).parent == proc_ptr cur
    then (if state_eq (table i).state ProcState.zombie then (some i, true) else kids)
    else rest

-- A slot after the writes of `wait`.
unfoldable pub freed : Proc → Proc
freed p = record p { kstack = 0; pid = 0; parent = 0; killed = false; state = ProcState.unused }

-- The writes that free the slot of a zombie, and under MLFQ the removal from its queue: that
-- search runs with the pid already set to 0.
unfoldable pub free_slot : Scheduler → ℕ → Kernel → Kernel
unfolding freed remove
free_slot s i k =
    let p = freed (k.table i) in
    let k' = set_proc k i p in
    if is_mlfq s then set_row k' p.cur_q (remove k'.table p.pid (k'.queues p.cur_q)) else k'

-- How one round of the `for(;;)` of `wait` ends.
pub data Outcome : Type 0 where
  -- The child in this slot was reaped; its pid is returned.
  reaped : ℕ → ℕ → Outcome
  -- -1 is returned.
  failed : Outcome
  -- The caller went to sleep on its own address, and looks again when it is woken.
  asleep : Outcome

-- `*rtime` and `*wtime` of `waitx`, read from the slot that was reaped.
unfoldable pub times : Kernel → Outcome → Option (ℕ × ℕ)
times k (Outcome.reaped i pid) =
    let p = k.table i in some (p.rtime, sub32 (sub32 (sub32 p.etime p.ctime) p.rtime) p.iotime)
times k Outcome.failed = none
times k Outcome.asleep = none

module _ (S : Services) (s : Scheduler) where
  open S use {World, kfree, freevm}

  -- What follows the loop, given what it found.
  unfoldable pub wait_found : ℕ → Option ℕ × Bool → Kernel × World → Outcome × Kernel × World
  unfolding free_slot sleep
  wait_found cur (some i, havekids) (k, w) =
      let p = k.table i in
      (Outcome.reaped i p.pid, free_slot s i k, freevm p.pgdir (kfree p.kstack w))
  wait_found cur (none, havekids) (k, w) =
      if not havekids || (k.table cur).killed
      then (Outcome.failed, k, w)
      else (Outcome.asleep, sleep cur (proc_ptr cur) k, w)

  unfoldable pub wait : ℕ → Kernel × World → Outcome × Kernel × World
  wait cur (k, w) = wait_found cur (scan_children k.table cur 0 nproc false) (k, w)

  unfoldable pub waitx : ℕ → Kernel × World → Outcome × Option (ℕ × ℕ) × Kernel × World
  unfolding wait times
  waitx cur st = let (out, k, w) = wait cur st in (out, times k out, k, w)
