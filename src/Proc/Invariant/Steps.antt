-- ===== src/Proc/Invariant/Steps.antt =====
-- wakeup1 and kill of proc.c, under the invariant.
use modified_xv.Base.{
  ℕ, ◌<◌, ◌≡◌, ◌≢◌, refl, true, arith, ◌==◌, update, inl, inr, Bool-cases, Option-cases, ==_refl,
}
use modified_xv.Proc.State.{ProcState, Proc, Kernel, state_eq, set_proc, nproc}
use modified_xv.Proc.Table.{Scheduler, scan}
use modified_xv.Proc.Table.Scans.{scan-some, each_inv}
use modified_xv.Proc.Wake.{make_runnable, stamp, wake_one, wakeup1, kill_found, kill}
use modified_xv.Proc.Invariant.{Inv, IsValid, lift, write, frame, Same, Same-set_proc}
use modified_xv.Proc.Invariant.Queues.{enqueue-IsValid}

pub sleeping_of_test :
    (p : Proc) → state_eq p.state ProcState.sleeping ≡ true → p.state ≡ ProcState.sleeping
sleeping_of_test p h = ground arith

-- A write that keeps state, pid and level.
pub touch :
    {e : ℕ} {k : Kernel} (i : ℕ) (p : Proc) → Same (k.table i) p → Inv e k → Inv e (set_proc k i p)
touch {k} i p s v = frame (update k.table i p) (Same-set_proc k i p s) v

-- A process that is neither free nor queued becomes RUNNABLE and is queued.
pub make_runnable-IsValid :
    {k : Kernel} (i : ℕ)
    → i < nproc
    → IsValid k
    → (k.table i).state ≢ ProcState.runnable
    → (k.table i).state ≢ ProcState.unused
    → IsValid (make_runnable Scheduler.mlfq i k)
unfolding make_runnable
make_runnable-IsValid {k} i small v nr nu =
    enqueue-IsValid i
      (write i small (record (k.table i) { state = ProcState.runnable }) (lift i small v nr)
        (v.level i small) (λ _. v.pids i small nu))
      small (rw (==_refl i))

pub stamp-IsValid : {k : Kernel} (i : ℕ) → IsValid k → IsValid (stamp i k)
unfolding stamp
stamp-IsValid i v = touch i _ (record { state = refl; pid = refl; level = refl }) v

pub wake_one-IsValid :
    (chan i : ℕ) (k : Kernel) → i < nproc → IsValid k → IsValid (wake_one Scheduler.mlfq chan i k)
unfolding wake_one
wake_one-IsValid chan i k small v =
    elim (Bool-cases (state_eq (k.table i).state ProcState.sleeping)) [
      | inl e ↦ elim (Bool-cases ((k.table i).chan == chan)) [
        | inl c ↦
            let s = sleeping_of_test (k.table i) e in
            rw (e, c)
              (stamp-IsValid i (make_runnable-IsValid i small v (rw s (λ d. cc)) (rw s (λ d. cc))))
        | inr c ↦ rw (e, c) v
      ]
      | inr e ↦ rw e v
    ]

-- `wakeup1` keeps the invariant on every channel.
pub wakeup1-IsValid : (chan : ℕ) (k : Kernel) → IsValid k → IsValid (wakeup1 Scheduler.mlfq chan k)
unfolding wakeup1
wakeup1-IsValid chan k v =
    each_inv IsValid (wake_one Scheduler.mlfq chan) nproc (wake_one-IsValid chan) 0 nproc k
      (omega arith) v

kill_found-IsValid :
    (i : ℕ) (k : Kernel) → i < nproc → IsValid k → IsValid (kill_found Scheduler.mlfq i k)
unfolding kill_found
kill_found-IsValid i k small v = elim (Bool-cases (state_eq (k.table i).state ProcState.sleeping)) [
  | inl e ↦
      let s = sleeping_of_test (k.table i) e in
      rw e (
        make_runnable-IsValid i small
          (touch i _ (record { state = refl; pid = refl; level = refl }) v)
          (rw (==_refl i, s) (λ d. cc)) (rw (==_refl i, s) (λ d. cc)))
  | inr e ↦ rw e (touch i _ (record { state = refl; pid = refl; level = refl }) v)
]

-- `kill` keeps the invariant, whatever the pid.
pub kill-IsValid : (pid : ℕ) (k : Kernel) → IsValid k → IsValid (kill Scheduler.mlfq pid k).0
unfolding kill
kill-IsValid pid k v = elim (Option-cases (scan (λ i. (k.table i).pid == pid) 0 nproc)) [
  | inl e ↦ rw (e, kill) v
  | inr (i, e) ↦
      rw (e, kill)
        (kill_found-IsValid i k
          (omega (arith, (scan-some (λ x. (k.table x).pid == pid) 0 nproc i e).below)) v)
]
