-- ===== src/Proc/System/Safety.antt =====
-- The steps of the system, under the invariant.
use modified_xv.Base.{ℕ, ◌≡◌, refl, some, Option-cases, inl, inr, Bool-cases, ◌==◌, true}
use mathlib.Core.Path.{subst}
use modified_xv.Proc.State.{ProcState, Kernel, nproc, slt, state_eq}
use modified_xv.Proc.Services.{Services}
use modified_xv.Proc.Table.{Scheduler, scan}
use modified_xv.Proc.Wake.{awake}
use modified_xv.Proc.Tick.{set_priority, preempt, max_queue_ticks}
use modified_xv.Proc.Mlfq.{schedule, select, age}
use modified_xv.Proc.System.{
  Step, forks, exits, waits, kills, wakes, sleeps, awakes, yields, preempts, ticks, prioritises,
  schedules, works, Reach, here, next, Config, OnCpu, after_preempt,
}
use modified_xv.Proc.Invariant.{IsValid}
use modified_xv.Proc.Invariant.Steps.{touch, wakeup1-IsValid, kill-IsValid}
use modified_xv.Proc.Invariant.Lifecycle.{fork-IsValid}
use modified_xv.Proc.Invariant.Exit.{
  Runs, Exited, exit-IsValid, sleep-IsValid, yield-IsValid, touch-Runs,
}
use modified_xv.Proc.Invariant.Reap.{wait-IsValid, timer-IsValid}
use modified_xv.Proc.Invariant.Aging.{age-IsValid}
use modified_xv.Proc.Invariant.Schedule.{Selected, select-IsValid}

runs : {k : Kernel} {cur : ℕ} → OnCpu k cur → IsValid k → Runs cur k
runs o v = record { valid = v; small = o.small; on_cpu = o.running }

awake-IsValid : (cur : ℕ) (k : Kernel) → IsValid k → IsValid (awake cur k)
unfolding awake
awake-IsValid cur k v = touch cur _ (record { state = refl; pid = refl; level = refl }) v

set_priority-IsValid :
    (new pid : ℕ) (k : Kernel) → IsValid k → IsValid (set_priority Scheduler.mlfq new pid k).0
unfolding set_priority
set_priority-IsValid new pid k v =
    elim (Option-cases (scan (λ i. (k.table i).pid == pid) 0 nproc)) [
      | inl e ↦ rw (e, set_priority) v
      | inr (i, e) ↦
          rw (e, set_priority) (touch i _ (record { state = refl; pid = refl; level = refl }) v)
    ]

schedule-IsValid : (k : Kernel) → IsValid k → IsValid (schedule k)
unfolding schedule
schedule-IsValid k v = elim (Option-cases (select (age k))) [
  | inl e ↦ rw (e, schedule) (age-IsValid k v)
  | inr ((i, k'), e) ↦
      let s : Selected (age k) (some (i, k')) =
        subst (Selected (age k)) e (select-IsValid (age k) (age-IsValid k v)) in
      rw (e, schedule) s.3
]

preempt-IsValid :
    (cur : ℕ) (k : Kernel) → Runs cur k → IsValid (after_preempt cur (preempt Scheduler.mlfq cur k))
unfolding preempt after_preempt
preempt-IsValid cur k r =
    let p = k.table cur in
    let mark =
      touch-Runs cur (record p { flg = true }) (record { state = refl; pid = refl; level = refl })
        r in
    let on : state_eq p.state ProcState.running ≡ true = rw r.on_cpu in
    rw on (elim (Bool-cases (slt (p.q p.cur_q) (max_queue_ticks p.cur_q))) [
      | inl e ↦ rw e (touch cur _ (record { state = refl; pid = refl; level = refl }) r.valid)
      | inr e ↦ rw e (yield-IsValid cur _ mark)
    ])

-- Every step keeps the invariant.
pub Step-IsValid : {S : Services} {st st' : Config S} → Step S st st' → IsValid st.0 → IsValid st'.0
Step-IsValid {S} (forks cur k w room) v = fork-IsValid S cur k w v room
Step-IsValid {S} (exits cur st st' o e) v =
    (subst (Exited cur S st.0.init_proc) e (exit-IsValid cur S st (runs o v))).1
Step-IsValid {S} (waits cur k w o) v = wait-IsValid S cur k w (runs o v)
Step-IsValid (kills pid k w) v = kill-IsValid pid k v
Step-IsValid (wakes chan k w) v = wakeup1-IsValid chan k v
Step-IsValid (sleeps cur chan k w o) v = sleep-IsValid cur chan k (runs o v)
Step-IsValid (awakes cur k w) v = awake-IsValid cur k v
Step-IsValid (yields cur k w o) v = yield-IsValid cur k (runs o v)
Step-IsValid (preempts cur k w o) v = preempt-IsValid cur k (runs o v)
Step-IsValid (ticks k w) v = timer-IsValid k v
Step-IsValid (prioritises new pid k w) v = set_priority-IsValid new pid k v
Step-IsValid (schedules k w) v = schedule-IsValid k v
Step-IsValid (works k w w') v = v

-- Under MLFQ, every state that is reached from a valid one by steps of fork, exit, wait, kill,
-- wakeup, sleep, yield, clock tick, preemption, set_priority and scheduling is valid: the five
-- queues hold exactly the RUNNABLE processes, each once and in the queue of its level, every level
-- is below 5, and every process in use has a pid above 0, below nextpid and of its own.
pub Reach-IsValid :
    {S : Services} {st st' : Config S} → IsValid st.0 → Reach S st st' → IsValid st'.0
Reach-IsValid v here = v
Reach-IsValid v (next r s) = Step-IsValid s (Reach-IsValid v r)
