-- ===== src/Proc/Invariant/Exit.antt =====
-- The running process leaves the CPU: exit, sleep, yield, and what happens to it meanwhile.
use modified_xv.Base.{
  ℕ, ◌<◌, ◌≡◌, ◌≢◌, refl, ◌∙◌, Option, none, some, List, [], ◌∷◌, arith, ◌==◌, inl, inr, Bool-cases,
  ==_iff, ==_refl,
}
use modified_xv.Proc.State.{ProcState, Proc, Kernel, state_eq, set_proc, nproc, nofile, proc_ptr}
use modified_xv.Proc.Table.{Scheduler, each}
use modified_xv.Proc.Table.Scans.{each_inv}
use modified_xv.Proc.Services.{Services}
use modified_xv.Proc.Wake.{wake_one, wakeup1, sleep}
use modified_xv.Proc.Life.{
  reparent, mark_zombie, become_zombie, wake_all, close_one, drop_cwd, exit,
}
use modified_xv.Proc.Tick.{yield}
use modified_xv.Proc.Mlfq.{return_from}
use modified_xv.Proc.Invariant.{IsValid, lift, write, Same}
use modified_xv.Proc.Invariant.Steps.{touch, wake_one-IsValid}
use modified_xv.Proc.Invariant.Lifecycle.{rewrite-IsValid}
use modified_xv.Proc.Invariant.Schedule.{return_from-IsValid}

-- The invariant with a process that is RUNNING.
pub record Runs (cur : ℕ) (k : Kernel) : Type 0 where
  pub valid : IsValid k
  pub small : cur < nproc
  pub on_cpu : (k.table cur).state ≡ ProcState.running

-- Waking a channel does not touch a RUNNING process.
wake_one-running :
    (chan cur i : ℕ) (k : Kernel)
    → (k.table cur).state ≡ ProcState.running
    → ((wake_one Scheduler.mlfq chan i k).table cur).state ≡ ProcState.running
unfolding wake_one
wake_one-running chan cur i k h = ground arith

wakeup1-Runs : (chan cur : ℕ) (k : Kernel) → Runs cur k → Runs cur (wakeup1 Scheduler.mlfq chan k)
unfolding wakeup1
wakeup1-Runs chan cur k r =
    each_inv (Runs cur) (wake_one Scheduler.mlfq chan) nproc
      (λ i k' small r'. record {
        valid = wake_one-IsValid chan i k' small r'.valid;
        small = r'.small;
        on_cpu = wake_one-running chan cur i k' r'.on_cpu;
      })
      0 nproc k (omega arith) r

wake_all-Runs :
    (cur : ℕ) (chans : List ℕ) (k : Kernel)
    → Runs cur k
    → Runs cur (wake_all Scheduler.mlfq chans k)
unfolding wake_all
wake_all-Runs cur [] k r = r
wake_all-Runs cur (c ∷ cs) k r =
    wake_all-Runs cur cs (wakeup1 Scheduler.mlfq c k) (wakeup1-Runs c cur k r)

-- A write to any process that keeps state, pid and level.
pub touch-Runs :
    {cur : ℕ} {k : Kernel} (i : ℕ) (p : Proc)
    → Same (k.table i) p
    → Runs cur k
    → Runs cur (set_proc k i p)
touch-Runs {cur} {k} i p s r = record {
  valid = touch i p s r.valid;
  small = r.small;
  on_cpu = elim (Bool-cases (cur == i)) [
    | inl e ↦ rw e (s.state ∙ (rw ((==_iff cur i).0 e) at r.on_cpu))
    | inr e ↦ rw e r.on_cpu
  ];
}

module _ (cur : ℕ) where
  reparent-Runs :
      (i : ℕ) (k : Kernel) → i < nproc → Runs cur k → Runs cur (reparent Scheduler.mlfq cur i k)
  unfolding reparent
  reparent-Runs i k small r = elim (Bool-cases ((k.table i).parent == proc_ptr cur)) [
    | inl e ↦ elim (Bool-cases (state_eq (k.table i).state ProcState.zombie)) [
      | inl z ↦
          rw (e, z)
            (wakeup1-Runs k.init_proc cur _
              (touch-Runs i _ (record { state = refl; pid = refl; level = refl }) r))
      | inr z ↦ rw (e, z) (touch-Runs i _ (record { state = refl; pid = refl; level = refl }) r)
    ]
    | inr e ↦ rw e r
  ]

  -- A RUNNING process that changes to a state other than RUNNABLE and UNUSED.
  stop-IsValid :
      {k : Kernel} (p : Proc)
      → Runs cur k
      → p.state ≢ ProcState.runnable
      → p.pid ≡ (k.table cur).pid
      → p.cur_q ≡ (k.table cur).cur_q
      → IsValid (set_proc k cur p)
  stop-IsValid p r out pid level =
      let v = r.valid in
      rewrite-IsValid cur p r.small v (rw r.on_cpu (λ c. cc)) out (rw level (v.level cur r.small))
        (λ _. rw pid (v.pids cur r.small (rw r.on_cpu (λ c. cc))))

  zombie-mark_zombie : (k : Kernel) → ((mark_zombie cur k).table cur).state ≡ ProcState.zombie
  unfolding mark_zombie
  zombie-mark_zombie k = rw (==_refl cur)

  mark_zombie-IsValid : (k : Kernel) → Runs cur k → IsValid (mark_zombie cur k)
  unfolding mark_zombie
  mark_zombie-IsValid k r = stop-IsValid _ r (λ c. cc) refl refl

  become_zombie-IsValid :
      (k : Kernel)
      → Runs cur k
      → IsValid (become_zombie Scheduler.mlfq cur k)
        × (((become_zombie Scheduler.mlfq cur k).table cur).state ≡ ProcState.zombie)
  unfolding become_zombie
  become_zombie-IsValid k r = (
    mark_zombie-IsValid _ (
        each_inv (Runs cur) (reparent Scheduler.mlfq cur) nproc reparent-Runs 0 nproc _
          (omega arith) (wakeup1-Runs (k.table cur).parent cur k r)),
    zombie-mark_zombie _,
  )

  pub sleep-IsValid : (chan : ℕ) (k : Kernel) → Runs cur k → IsValid (sleep cur chan k)
  unfolding sleep
  sleep-IsValid chan k r = stop-IsValid _ r (λ c. cc) refl refl

  -- The process that yields is put back into its queue by the scheduler.
  pub yield-IsValid : (k : Kernel) → Runs cur k → IsValid (return_from cur (yield cur k))
  unfolding yield
  yield-IsValid k r =
      let v = r.valid in
      return_from-IsValid cur _ r.small (
        write cur r.small _ (lift cur r.small v (rw r.on_cpu (λ c. cc))) (v.level cur r.small)
          (λ _. v.pids cur r.small (rw r.on_cpu (λ c. cc))))

  module _ (S : Services) where
    close_one-Runs :
        (fd : ℕ) (st : Kernel × S.World)
        → Runs cur st.0
        → Runs cur (close_one S Scheduler.mlfq cur fd st).0
    unfolding close_one
    close_one-Runs fd (k, w) r = elim (Bool-cases ((k.table cur).ofile fd == 0)) [
      | inl e ↦ rw e r
      | inr e ↦ rw e (
          touch-Runs cur _ (record { state = refl; pid = refl; level = refl })
            (wake_all-Runs cur (S.fileclose ((k.table cur).ofile fd) w).0 k r))
    ]

    abbrev pub Exited : ℕ → Option (Kernel × S.World) → Type 0
    Exited init_proc none = proc_ptr cur ≡ init_proc
    Exited init_proc (some (k, w)) =
        (proc_ptr cur ≢ init_proc) × IsValid k × ((k.table cur).state ≡ ProcState.zombie)

    drop_cwd-Runs :
        (st : Kernel × S.World) → Runs cur st.0 → Runs cur (drop_cwd S Scheduler.mlfq cur st).0
    unfolding drop_cwd
    drop_cwd-Runs (k, w) r =
        touch-Runs cur _ (record { state = refl; pid = refl; level = refl })
          (wake_all-Runs cur (S.iput (k.table cur).cwd w).0 k r)

    -- In a valid state with process `cur` RUNNING, `exit` panics only if it is init; otherwise it
    -- is not init, it becomes a zombie, and the state is valid.
    pub exit-IsValid :
        (st : Kernel × S.World)
        → Runs cur st.0
        → Exited st.0.init_proc (exit S Scheduler.mlfq cur st)
    unfolding exit
    exit-IsValid st r = elim (Bool-cases (proc_ptr cur == st.0.init_proc)) [
      | inl e ↦ rw e ((==_iff (proc_ptr cur) st.0.init_proc).0 e)
      | inr e ↦
          let st' =
            drop_cwd S Scheduler.mlfq cur (each (close_one S Scheduler.mlfq cur) 0 nofile st) in
          let (valid, zombie) = become_zombie-IsValid st'.0 (
            drop_cwd-Runs _ (
              each_inv (λ s. Runs cur s.0) (close_one S Scheduler.mlfq cur) nofile
                (λ fd s h r'. close_one-Runs fd s r') 0 nofile st (omega arith) r)) in
          rw e (λ h. cc (e, (==_iff (proc_ptr cur) st.0.init_proc).1 h), valid, zombie)
    ]
