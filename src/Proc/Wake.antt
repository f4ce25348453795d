-- ===== src/Proc/Wake.antt =====
-- sleep, wakeup1, wakeup and kill of proc.c. The table lock is held over each of them.
pub mod Woken
use modified_xv.Base.{ℕ, Bool, true, false, ◌&&◌, none, some, ◌==◌, if◌then◌else◌}
use modified_xv.Proc.State.{ProcState, Kernel, state_eq, set_proc, nproc}
use modified_xv.Proc.Queue.{enqueue}
use modified_xv.Proc.Table.{Scheduler, is_mlfq, scan, each}

-- `p->state = RUNNABLE`, and under MLFQ the block that queues the process.
unfoldable pub make_runnable : Scheduler → ℕ → Kernel → Kernel
unfolding enqueue
make_runnable s i k =
    let k' = set_proc k i (record (k.table i) { state = ProcState.runnable }) in
    if is_mlfq s then enqueue i k' else k'

-- `p->qtime = ticks`
unfoldable pub stamp : ℕ → Kernel → Kernel
stamp i k = set_proc k i (record (k.table i) { qtime = k.ticks })

-- One round of the loop of `wakeup1`; under MLFQ it stamps `qtime` in any case.
unfoldable pub wake_one : Scheduler → ℕ → ℕ → Kernel → Kernel
unfolding make_runnable stamp
wake_one s chan i k =
    if state_eq (k.table i).state ProcState.sleeping && ((k.table i).chan == chan)
    then (let k' = make_runnable s i k in if is_mlfq s then stamp i k' else k')
    else k

unfoldable pub wakeup1 : Scheduler → ℕ → Kernel → Kernel
unfolding each wake_one
wakeup1 s chan k = each (wake_one s chan) 0 nproc k

-- The body of `kill`'s loop at the process found.
unfoldable pub kill_found : Scheduler → ℕ → Kernel → Kernel
unfolding make_runnable
kill_found s i k =
    let k' = set_proc k i (record (k.table i) { killed = true }) in
    if state_eq (k.table i).state ProcState.sleeping then make_runnable s i k' else k'

-- The first process with the pid is marked; `true` is the result 0, `false` is -1.
unfoldable pub kill : Scheduler → ℕ → Kernel → Kernel × Bool
unfolding scan kill_found
kill s pid k = elim (scan (λ i. (k.table i).pid == pid) 0 nproc) [
  | none ↦ (k, false)
  | some i ↦ (kill_found s i k, true)
]

-- `sleep` up to its call of `sched`: the caller is on the channel and does not run.
unfoldable pub sleep : ℕ → ℕ → Kernel → Kernel
sleep cur chan k = set_proc k cur (record (k.table cur) { chan = chan; state = ProcState.sleeping })

-- `sleep` after `sched` returns: `p->chan = 0`.
unfoldable pub awake : ℕ → Kernel → Kernel
awake cur k = set_proc k cur (record (k.table cur) { chan = 0 })
