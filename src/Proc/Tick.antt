-- ===== src/Proc/Tick.antt =====
-- The clock tick of trap.c, set_priority and yield of proc.c.
use modified_xv.Base.{
  ℕ, zero, suc, Bool, true, false, ◌&&◌, none, some, ◌==◌, if◌then◌else◌, update, not,
}
use modified_xv.Proc.State.{ProcState, Kernel, state_eq, set_proc, nproc, add32, slt, ticks_chan}
use modified_xv.Proc.Table.{Scheduler, is_mlfq, is_pbs, is_fcfs, scan, each}
use modified_xv.Proc.Wake.{wakeup1}

-- One round of the accounting loop of `trap`.
unfoldable pub account : ℕ → Kernel → Kernel
account i k =
    let p = k.table i in
    if state_eq p.state ProcState.running
    then set_proc k i (record p { rtime = add32 p.rtime 1 })
    else if state_eq p.state ProcState.sleeping
    then set_proc k i (record p { iotime = add32 p.iotime 1 })
    else k

-- The timer interrupt on CPU 0.
unfoldable pub timer : Scheduler → Kernel → Kernel
timer s k = wakeup1 s ticks_chan (each account 0 nproc (record k { ticks = add32 k.ticks 1 }))

-- `max_queue_ticks`
abbrev pub max_queue_ticks : ℕ → ℕ
max_queue_ticks zero = 2
max_queue_ticks (suc zero) = 4
max_queue_ticks (suc (suc zero)) = 8
max_queue_ticks (suc (suc (suc zero))) = 16
max_queue_ticks (suc (suc (suc (suc l)))) = 32

-- `yield` up to its call of `sched`.
unfoldable pub yield : ℕ → Kernel → Kernel
yield cur k = set_proc k cur (record (k.table cur) { state = ProcState.runnable })

-- What `trap` does to the running process on a tick: the new state, and whether it yielded.
unfoldable pub preempt : Scheduler → ℕ → Kernel → Kernel × Bool
unfolding yield
preempt s cur k =
    let p = k.table cur in
    if not (state_eq p.state ProcState.running)
    then (k, false)
    else if is_mlfq s
    then (if slt (p.q p.cur_q) (max_queue_ticks p.cur_q)
        then (set_proc k cur (record p { q = update p.q p.cur_q (add32 (p.q p.cur_q) 1) }), false)
        else (yield cur (set_proc k cur (record p { flg = true })), true))
    else if is_fcfs s
    then (k, false)
    else (yield cur k, true)

-- `set_priority` of the process that calls it: the new state, and whether it yields under PBS.
unfoldable pub set_priority : Scheduler → ℕ → ℕ → Kernel → Kernel × Bool
unfolding scan
set_priority s new pid k = elim (scan (λ i. (k.table i).pid == pid) 0 nproc) [
  | none ↦ (k, false)
  | some i ↦
      let p = k.table i in
      (set_proc k i (record p { priority = new }), is_pbs s && slt new p.priority)
]
