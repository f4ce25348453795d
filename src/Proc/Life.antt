-- ===== src/Proc/Life.antt =====
-- allocproc, fork, exit and the calls they make of other parts of the kernel.
use modified_xv.Base.{ℕ, false, Option, none, some, List, [], ◌∷◌, ◌==◌, if◌then◌else◌, update}
use modified_xv.Proc.State.{
  ProcState, Proc, Kernel, state_eq, set_proc, nproc, nofile, add32, proc_ptr,
}
use modified_xv.Proc.Table.{Scheduler, is_mlfq, scan, each}
use modified_xv.Proc.Wake.{make_runnable, wakeup1}
use modified_xv.Proc.Services.{Services}

-- The slot found by `allocproc`: EMBRYO, with the next pid.
unfoldable pub claim : ℕ → Kernel → Kernel
claim i k =
    record (set_proc k i (record (k.table i) { state = ProcState.embryo; pid = k.next_pid })) {
      next_pid = add32 k.next_pid 1;
    }

-- What `allocproc` writes once it has a kernel stack.
unfoldable pub fresh : Scheduler → ℕ → ℕ → Proc → Proc
fresh s kstack now p =
    let p' = record p {
      kstack = kstack;
      ctime = now;
      etime = 0;
      rtime = 0;
      iotime = 0;
      n_run = 0;
      priority = 60;
    } in
    if is_mlfq s then record p' { cur_q = 0; q = (λ _. 0); qtime = 0; flg = false } else p'

-- `p->kstack = ..; p->state = UNUSED` on a failure; the pid stays.
unfoldable pub drop_slot : ℕ → Kernel → Kernel
drop_slot i k = set_proc k i (record (k.table i) { kstack = 0; state = ProcState.unused })

-- One round of the loop of `exit` that passes the children to init.
unfoldable pub reparent : Scheduler → ℕ → ℕ → Kernel → Kernel
unfolding wakeup1
reparent s cur i k =
    if (k.table i).parent == proc_ptr cur
    then (let k' = set_proc k i (record (k.table i) { parent = k.init_proc }) in
        if state_eq (k.table i).state ProcState.zombie then wakeup1 s k.init_proc k' else k')
    else k

-- `curproc->state = ZOMBIE; curproc->etime = ticks`
unfoldable pub mark_zombie : ℕ → Kernel → Kernel
mark_zombie cur k =
    set_proc k cur (record (k.table cur) { state = ProcState.zombie; etime = k.ticks })

-- `exit` from `acquire(&ptable.lock)` to its call of `sched`.
unfoldable pub become_zombie : Scheduler → ℕ → Kernel → Kernel
become_zombie s cur k =
    mark_zombie cur (each (reparent s cur) 0 nproc (wakeup1 s (k.table cur).parent k))

-- The wakeups that a service made.
unfoldable pub wake_all : Scheduler → List ℕ → Kernel → Kernel
unfolding wakeup1
wake_all s [] k = k
wake_all s (c ∷ cs) k = wake_all s cs (wakeup1 s c k)

module _ (S : Services) (s : Scheduler) where
  open S use {World, kalloc, kfree, copyuvm, filedup, idup, fileclose, iput, setupkvm, namei_root}

  abbrev pub State : Type 0
  State = Kernel × World

  -- `allocproc` from `kalloc` on, for the slot `i` that it claimed.
  unfoldable pub use_slot : ℕ → State → Option ℕ × State
  unfolding fresh drop_slot
  use_slot i (k, w) =
      let (stack, w') = kalloc w in
      if stack == 0
      then (none, (drop_slot i k, w'))
      else (some i, (set_proc k i (fresh s stack k.ticks (k.table i)), w'))

  -- The index of the process, or `none` for the null pointer.
  unfoldable pub allocproc : State → Option ℕ × State
  unfolding scan claim use_slot
  allocproc (k, w) = elim (scan (λ i. state_eq (k.table i).state ProcState.unused) 0 nproc) [
    | none ↦ (none, (k, w))
    | some i ↦ use_slot i (claim i k, w)
  ]

  -- `userinit` from the result of `allocproc` on; `none` is a fault or the panic of `setupkvm`.
  unfoldable pub init_from : Option ℕ × State → Option State
  unfolding make_runnable
  init_from (none, st) = none
  init_from (some i, (k, w)) =
      let (pgdir, w') = setupkvm w in
      let (root, w'') = namei_root w' in
      let level = if is_mlfq s then 0 else (k.table i).cur_q in
      let p = record (k.table i) { pgdir = pgdir; sz = 4096; cwd = root; cur_q = level } in
      if pgdir == 0
      then none
      else some (make_runnable s i (record (set_proc k i p) { init_proc = proc_ptr i }), w'')

  unfoldable pub userinit : State → Option State
  unfolding allocproc init_from
  userinit st = init_from (allocproc st)

  -- One round of the loop of `fork` over the parent's open files.
  dup_one : (ℕ → ℕ) → ℕ → (ℕ → ℕ) × World → (ℕ → ℕ) × World
  dup_one parent fd (files, w) =
      if parent fd == 0 then (files, w) else (update files fd (parent fd), filedup (parent fd) w)

  -- `fork` after `copyuvm` succeeded, for the child `i`.
  unfoldable pub finish_fork : ℕ → ℕ → ℕ → State → State
  unfolding each dup_one make_runnable
  finish_fork cur i pgdir (k, w) =
      let p = k.table cur in
      let (files, w') = each (dup_one p.ofile) 0 nofile ((k.table i).ofile, w) in
      let child = record (k.table i) {
        pgdir = pgdir;
        sz = p.sz;
        parent = proc_ptr cur;
        ofile = files;
        cwd = p.cwd;
      } in
      (make_runnable s i (set_proc k i child), idup p.cwd w')

  -- `fork` from the result of `allocproc` on.
  unfoldable pub fork_from : ℕ → Option ℕ × State → Option ℕ × State
  unfolding finish_fork drop_slot
  fork_from cur (none, st) = (none, st)
  fork_from cur (some i, (k, w)) =
      let (pgdir, w') = copyuvm (k.table cur).pgdir (k.table cur).sz w in
      if pgdir == 0
      then (none, (drop_slot i k, kfree (k.table i).kstack w'))
      else (some (k.table i).pid, finish_fork cur i pgdir (k, w'))

  -- The child's pid, or `none` for -1.
  unfoldable pub fork : ℕ → State → Option ℕ × State
  unfolding allocproc fork_from
  fork cur st = fork_from cur (allocproc st)

  -- One round of the loop of `exit` over the open files.
  unfoldable pub close_one : ℕ → ℕ → State → State
  unfolding wake_all
  close_one cur fd (k, w) =
      let p = k.table cur in
      if p.ofile fd == 0
      then (k, w)
      else (let (woken, w') = fileclose (p.ofile fd) w in
          let k' = wake_all s woken k in
          (
            set_proc k' cur (record (k'.table cur) { ofile = update (k'.table cur).ofile fd 0 }),
            w',
          ))

  -- `begin_op(); iput(curproc->cwd); end_op(); curproc->cwd = 0`
  unfoldable pub drop_cwd : ℕ → State → State
  drop_cwd cur (k, w) =
      let (woken, w') = iput (k.table cur).cwd w in
      let k' = wake_all s woken k in (set_proc k' cur (record (k'.table cur) { cwd = 0 }), w')

  -- `exit` up to its call of `sched`; `none` is the panic of an exiting init.
  unfoldable pub exit : ℕ → State → Option State
  exit cur st =
      if proc_ptr cur == st.0.init_proc
      then none
      else (let (k, w) = drop_cwd cur (each (close_one cur) 0 nofile st) in
          some (become_zombie s cur k, w))
