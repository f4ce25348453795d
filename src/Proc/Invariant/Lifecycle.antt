-- ===== src/Proc/Invariant/Lifecycle.antt =====
-- allocproc, userinit and fork of proc.c, under the invariant.
use modified_xv.Base.{
  ℕ, ◌+◌, ◌<◌, ◌≤◌, ◌^◌, ◌≡◌, ◌≢◌, refl, ◌∙◌, true, Option, none, some, arith, ◌==◌, inl, inr,
  Bool-cases, Option-cases, some_inj, ==_refl,
}
use modified_xv.Proc.State.{ProcState, Proc, Kernel, state_eq, set_proc, nproc, add32, proc_ptr}
use modified_xv.Proc.Table.{Scheduler, scan}
use modified_xv.Proc.Table.Scans.{scan-some}
use modified_xv.Proc.Services.{Services}
use modified_xv.Proc.Life.{
  claim, fresh, drop_slot, use_slot, allocproc, finish_fork, fork_from, fork, init_from, userinit,
}
use modified_xv.Proc.Invariant.{Inv, IsValid, FitsPid, lift, settle, write}
use modified_xv.Proc.Invariant.Steps.{touch, make_runnable-IsValid}

unused_of_test : (p : Proc) → state_eq p.state ProcState.unused ≡ true → p.state ≡ ProcState.unused
unused_of_test p h = ground arith

grow : {e : ℕ} {k : Kernel} (n : ℕ) → k.next_pid ≤ n → Inv e k → Inv e (record k { next_pid = n })
grow n h v = record {
  member = v.member;
  nodup = v.nodup;
  queued = v.queued;
  level = v.level;
  started = omega (arith, v.started);
  pids = λ i small u.
      let f = v.pids i small u in
      record { positive = f.positive; given = omega (arith, f.given); unique = f.unique };
}

-- A free slot takes the next pid, which no other process has.
claim-IsValid :
    (i : ℕ) (k : Kernel)
    → i < nproc
    → IsValid k
    → (k.table i).state ≡ ProcState.unused
    → k.next_pid + 1 < 2 ^ 32
    → IsValid (claim i k)
unfolding claim
claim-IsValid i k small v free room =
    let p = record (k.table i) { state = ProcState.embryo; pid = k.next_pid } in
    let n = add32 k.next_pid 1 in
    let w = lift i small v (rw free (λ c. cc)) in
    settle i small
      (write i small p (grow n (omega arith) w) (v.level i small) (λ _. record {
        positive = v.started;
        given = omega arith;
        unique = λ j h o u c. absurd (omega (arith, (v.pids j h u).given, c));
      }))
      (rw (==_refl i) (λ c. cc))

-- A write to a process that is not queued and stays so.
pub rewrite-IsValid :
    {k : Kernel} (i : ℕ) (p : Proc)
    → i < nproc
    → IsValid k
    → (k.table i).state ≢ ProcState.runnable
    → p.state ≢ ProcState.runnable
    → p.cur_q < 5
    → (p.state ≢ ProcState.unused → FitsPid k.table k.next_pid i p.pid)
    → IsValid (set_proc k i p)
rewrite-IsValid i p small v out out' low fits =
    settle i small (write i small p (lift i small v out) low fits) (rw (==_refl i) out')

embryo-claim : (i : ℕ) (k : Kernel) → ((claim i k).table i).state ≡ ProcState.embryo
unfolding claim
embryo-claim i k = rw (==_refl i)

drop_slot-IsValid :
    (i : ℕ) (k : Kernel)
    → i < nproc
    → IsValid k
    → (k.table i).state ≢ ProcState.runnable
    → IsValid (drop_slot i k)
unfolding drop_slot
drop_slot-IsValid i k small v out =
    rewrite-IsValid i _ small v out (λ c. cc) (v.level i small) (λ c. absurd (c refl))

fresh-fields :
    (stack now : ℕ) (p : Proc)
    → ((fresh Scheduler.mlfq stack now p).state ≡ p.state)
      × ((fresh Scheduler.mlfq stack now p).pid ≡ p.pid)
      × ((fresh Scheduler.mlfq stack now p).cur_q ≡ 0)
unfolding fresh
fresh-fields stack now p = (refl, refl, refl)

reinit : {k : Kernel} (p : ℕ) → IsValid k → IsValid (record k { init_proc = p })
reinit p v = record {
  member = v.member;
  nodup = v.nodup;
  queued = v.queued;
  level = v.level;
  started = v.started;
  pids = v.pids;
}

module _ (S : Services) where
  -- What `allocproc` returns: no slot, or the index of an EMBRYO.
  abbrev Allocated : Option ℕ × (Kernel × S.World) → Type 0
  Allocated (none, (k, w)) = IsValid k
  Allocated (some i, (k, w)) = IsValid k × (i < nproc) × ((k.table i).state ≡ ProcState.embryo)

  use_slot-IsValid :
      (i : ℕ) (k : Kernel) (w : S.World)
      → i < nproc
      → IsValid k
      → (k.table i).state ≡ ProcState.embryo
      → Allocated (use_slot S Scheduler.mlfq i (k, w))
  unfolding use_slot
  use_slot-IsValid i k w small v e = elim (Bool-cases ((S.kalloc w).0 == 0)) [
    | inl z ↦ rw z (drop_slot-IsValid i k small v (rw e (λ c. cc)))
    | inr z ↦
        let p = fresh Scheduler.mlfq (S.kalloc w).0 k.ticks (k.table i) in
        let f = fresh-fields (S.kalloc w).0 k.ticks (k.table i) in
        let out : p.state ≢ ProcState.runnable = rw (f.0, e) (λ c. cc) in
        rw z (
          rewrite-IsValid i p small v (rw e (λ c. cc)) out (omega (arith, f.2))
              (λ _. rw f.1 (v.pids i small (rw e (λ c. cc)))),
          small,
          rw (==_refl i) (f.0 ∙ e),
        )
  ]

  allocproc-IsValid :
      (k : Kernel) (w : S.World)
      → IsValid k
      → k.next_pid + 1 < 2 ^ 32
      → Allocated (allocproc S Scheduler.mlfq (k, w))
  unfolding allocproc
  allocproc-IsValid k w v room =
      elim (Option-cases (scan (λ i. state_eq (k.table i).state ProcState.unused) 0 nproc)) [
        | inl e ↦ rw (e, allocproc) v
        | inr (i, e) ↦
            let f = scan-some (λ i. state_eq (k.table i).state ProcState.unused) 0 nproc i e in
            let small : i < nproc = omega (arith, f.below) in
            let c = claim-IsValid i k small v (unused_of_test (k.table i) f.hit) room in
            rw (e, allocproc) (use_slot-IsValid i (claim i k) w small c (embryo-claim i k))
      ]

  finish_fork-IsValid :
      (cur i pgdir : ℕ) (k : Kernel) (w : S.World)
      → i < nproc
      → IsValid k
      → (k.table i).state ≡ ProcState.embryo
      → IsValid (finish_fork S Scheduler.mlfq cur i pgdir (k, w)).0
  unfolding finish_fork
  finish_fork-IsValid cur i pgdir k w small v e =
      make_runnable-IsValid i small
        (touch i _ (record { state = refl; pid = refl; level = refl }) v)
        (rw (==_refl i, e) (λ c. cc)) (rw (==_refl i, e) (λ c. cc))

  -- `fork` after `allocproc`.
  fork_alloc-IsValid :
      (cur : ℕ) (r : Option ℕ × (Kernel × S.World))
      → Allocated r
      → IsValid (fork_from S Scheduler.mlfq cur r).1.0
  unfolding fork_from
  fork_alloc-IsValid cur (none, (k, w)) v = v
  fork_alloc-IsValid cur (some i, (k, w)) (v, small, e) =
      elim (Bool-cases ((S.copyuvm (k.table cur).pgdir (k.table cur).sz w).0 == 0)) [
        | inl z ↦ rw z (drop_slot-IsValid i k small v (rw e (λ c. cc)))
        | inr z ↦ rw z (finish_fork-IsValid cur i _ k _ small v e)
      ]

  -- From a valid state in which the pids do not wrap, `fork` gives a valid state on each of its
  -- ways out.
  pub fork-IsValid :
      (cur : ℕ) (k : Kernel) (w : S.World)
      → IsValid k
      → k.next_pid + 1 < 2 ^ 32
      → IsValid (fork S Scheduler.mlfq cur (k, w)).1.0
  unfolding fork
  fork-IsValid cur k w v room =
      fork_alloc-IsValid cur (allocproc S Scheduler.mlfq (k, w)) (allocproc-IsValid k w v room)

  init_from-IsValid :
      (r : Option ℕ × (Kernel × S.World)) {st : Kernel × S.World}
      → Allocated r
      → init_from S Scheduler.mlfq r ≡ some st
      → IsValid st.0
  unfolding init_from
  init_from-IsValid (none, (k, w)) v h = cc
  init_from-IsValid (some i, (k, w)) {st} (v, small, e) h =
      let p = record (k.table i) {
        pgdir = (S.setupkvm w).0;
        sz = 4096;
        cwd = (S.namei_root (S.setupkvm w).1).0;
        cur_q = 0;
      } in
      elim (Bool-cases ((S.setupkvm w).0 == 0)) [
        | inl z ↦ cc (rw z at h)
        | inr z ↦
            let made =
              make_runnable-IsValid {k = record (set_proc k i p) { init_proc = proc_ptr i }} i small
                (reinit (proc_ptr i) (
                  rewrite-IsValid i p small v (rw e (λ c. cc)) (rw e (λ c. cc)) (omega arith)
                    (λ _. v.pids i small (rw e (λ c. cc)))))
                (rw (==_refl i, e) (λ c. cc)) (rw (==_refl i, e) (λ c. cc)) in
            rw (← some_inj (rw z at h)) made
      ]

  -- From a valid state in which the pids do not wrap, `userinit` gives a valid state unless it
  -- panics.
  pub userinit-IsValid :
      (k : Kernel) (w : S.World) {st : Kernel × S.World}
      → IsValid k
      → k.next_pid + 1 < 2 ^ 32
      → userinit S Scheduler.mlfq (k, w) ≡ some st
      → IsValid st.0
  unfolding userinit
  userinit-IsValid k w v room h =
      init_from-IsValid (allocproc S Scheduler.mlfq (k, w)) (allocproc-IsValid k w v room) h
