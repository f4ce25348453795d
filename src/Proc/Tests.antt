-- ===== src/Proc/Tests.antt =====
-- Runs of the scheduler at concrete tables, and the theorems at concrete inputs.
use modified_xv.Base.{ℕ, ◌+◌, ◌<◌, ◌≤◌, ◌^◌, ◌≡◌, refl, Option, none, some, false, [], ◌∷◌, arith}
use modified_xv.Proc.State.{ProcState, Proc, Row, Kernel, set_proc, nproc}
use modified_xv.Base.{update, ◌==◌, if◌then◌else◌, ◌++◌}
use modified_xv.Proc.State.{slt}
use modified_xv.Proc.Queue.Refine.{contents-append}
use modified_xv.Proc.Select.{pick_fcfs}
use modified_xv.Proc.Select.Best.{Top, pick_fcfs-latest}
use modified_xv.Proc.Mlfq.{Ager}
use modified_xv.Proc.Invariant.Aging.{age-IsValid}
use modified_xv.Proc.Invariant.Exit.{Exited, exit-IsValid}
use modified_xv.Proc.Invariant.Reap.{free_slot-queues}
use modified_xv.Proc.Services.{Services}
use modified_xv.Proc.Queue.{contents, remove, append}
use modified_xv.Proc.Table.{Scheduler}
use modified_xv.Proc.Life.{
  fork, userinit, exit, become_zombie, mark_zombie, reparent, drop_cwd, wake_all, close_one,
}
use modified_xv.Proc.Wait.{wait, wait_found, scan_children, free_slot, freed}
use modified_xv.Proc.Mlfq.{age, select, schedule}
use modified_xv.Proc.Invariant.{Inv, IsValid}
use modified_xv.Proc.Invariant.Lifecycle.{userinit-IsValid}
use modified_xv.Proc.System.{Reach, here, next, forks, exits, waits, schedules, OnCpu, Config}
use modified_xv.Proc.System.Safety.{Step-IsValid, Reach-IsValid}
use modified_xv.Proc.System.Capacity.{Reach-count-le}
use modified_xv.Proc.Wake.{wakeup1}
use modified_xv.Proc.Wake.Woken.{sleeps_on, wakeup1-state}
use modified_xv.Base.{◌≢◌, ◌∙◌, sym, inl, inr, Bool-cases, ==_iff}
use modified_xv.Proc.Mlfq.{return_from}
use modified_xv.Proc.Invariant.Tail.{joined, next_level, return_from-tail}
use modified_xv.Proc.Mlfq.Choice.{Chosen, select-highest}

abbrev blank : Proc
blank = record {
  sz = 0;
  pgdir = 0;
  kstack = 0;
  state = ProcState.unused;
  pid = 0;
  parent = 0;
  chan = 0;
  killed = false;
  ofile = λ _. 0;
  cwd = 0;
  ctime = 0;
  etime = 0;
  rtime = 0;
  iotime = 0;
  priority = 60;
  n_run = 0;
  cur_q = 0;
  q = λ _. 0;
  qtime = 0;
  flg = false;
}

abbrev boot : Kernel
boot = record {
  table = λ _. blank;
  queues = λ _. record { slots = λ _. 0; count = 0 };
  next_pid = 1;
  ticks = 0;
  init_proc = 1;
}

-- Pages are numbers that count up; closing a file wakes nobody.
abbrev services : Services
services = record {
  World = ℕ;
  kalloc = λ w. (w + 4096, w + 4096);
  kfree = λ p w. w;
  copyuvm = λ dir sz w. (w + 4096, w + 4096);
  setupkvm = λ w. (w + 4096, w + 4096);
  namei_root = λ w. (1, w);
  freevm = λ dir w. w;
  filedup = λ f w. w;
  idup = λ ip w. w;
  fileclose = λ f w. ([], w);
  iput = λ ip w. ([], w);
}

boot-IsValid : IsValid boot
boot-IsValid = record {
  member = λ l i low h. cc;
  nodup = λ l low. tt;
  queued = λ i small ne r. cc;
  level = λ i small. omega arith;
  started = omega arith;
  pids = λ i small used. absurd (used refl);
}

or_boot : Option (Config services) → Config services
or_boot none = (boot, 0)
or_boot (some st) = st

-- The state after `userinit`, after the first scheduling, and after a fork by process 0.
booted : Config services
unfolding or_boot
booted = or_boot (userinit services Scheduler.mlfq (boot, 0))

started : userinit services Scheduler.mlfq (boot, 0) ≡ some booted
unfolding userinit booted or_boot
started = refl

booted-IsValid : IsValid booted.0
booted-IsValid = userinit-IsValid services boot 0 boot-IsValid (omega arith) started

first_queued : contents (booted.0.queues 0) ≡ 0 ∷ []
unfolding booted or_boot userinit
first_queued = refl

first_pid : (booted.0.table 0).pid ≡ 1
unfolding booted or_boot userinit
first_pid = refl

pids_left : booted.0.next_pid ≡ 2
unfolding booted or_boot userinit
pids_left = refl

first_ready : (booted.0.table 0).state ≡ ProcState.runnable
unfolding booted or_boot userinit
first_ready = refl

-- `schedule` switches to process 0, which forks and then waits.
abbrev running : Kernel
running = schedule booted.0

abbrev forked : Config services
forked = (fork services Scheduler.mlfq 0 (running, booted.1)).1

running-OnCpu : OnCpu running 0
unfolding booted or_boot userinit schedule select age
running-OnCpu = record { small = omega arith; running = refl }

forked-OnCpu : OnCpu forked.0 0
unfolding booted or_boot userinit schedule fork select age
forked-OnCpu = record { small = omega arith; running = refl }

next_pid_two : running.next_pid ≡ 2
unfolding booted or_boot userinit schedule select age
next_pid_two = refl

room : running.next_pid + 1 < 2 ^ 32
room = omega (arith, next_pid_two)

child_queued : contents (forked.0.queues 0) ≡ 1 ∷ []
unfolding booted or_boot userinit schedule fork select age
child_queued = refl

abbrev waiting : Config services
waiting = (
  (wait services Scheduler.mlfq 0 (forked.0, forked.1)).1,
  (wait services Scheduler.mlfq 0 (forked.0, forked.1)).2,
)

waited : Reach services booted waiting
waited =
    next (next (next here (schedules booted.0 booted.1)) (forks 0 running booted.1 room))
      (waits 0 forked.0 forked.1 forked-OnCpu)

Reach-IsValid_example : IsValid waiting.0
Reach-IsValid_example = Reach-IsValid booted-IsValid waited

Reach-count-le_example : (waiting.0.queues 0).count ≤ nproc
Reach-count-le_example = Reach-count-le 0 (omega arith) booted-IsValid waited

select-highest_example : (i : ℕ) × Chosen booted.0 0 i
select-highest_example = select-highest booted.0 0 booted-IsValid (omega arith) first_ready

forked-IsValid : IsValid forked.0
forked-IsValid =
    Reach-IsValid booted-IsValid
      (next (next here (schedules booted.0 booted.1)) (forks 0 running booted.1 room))

-- The child runs and exits.
abbrev child_runs : Config services
child_runs = (schedule waiting.0, waiting.1)

or_same : Config services → Option (Config services) → Config services
or_same st none = st
or_same st (some st') = st'

gone : Config services
unfolding or_same
gone = or_same child_runs (exit services Scheduler.mlfq 1 child_runs)

child-OnCpu : OnCpu child_runs.0 1
unfolding booted or_boot userinit schedule fork select age wait wait_found scan_children
child-OnCpu = record { small = omega arith; running = refl }

child_exits : exit services Scheduler.mlfq 1 child_runs ≡ some gone
unfolding exit gone or_same booted or_boot userinit schedule fork select age wait wait_found
    scan_children
child_exits = refl

parent_woken : contents (gone.0.queues 0) ≡ 0 ∷ []
unfolding exit gone or_same booted or_boot userinit schedule fork select age wait wait_found
    scan_children become_zombie mark_zombie reparent drop_cwd wake_all close_one
parent_woken = refl

gone-IsValid : IsValid gone.0
gone-IsValid = Reach-IsValid booted-IsValid (
    next (next waited (schedules waiting.0 waiting.1))
      (exits 1 child_runs gone child-OnCpu child_exits))

child_zombie : (gone.0.table 1).state ≡ ProcState.zombie
unfolding exit gone or_same booted or_boot userinit schedule fork select age wait wait_found
    scan_children become_zombie mark_zombie reparent drop_cwd wake_all close_one
child_zombie = refl

free_slot-queues_example :
    free_slot Scheduler.mlfq 1 gone.0 ≡ set_proc gone.0 1 (freed (gone.0.table 1))
free_slot-queues_example = free_slot-queues gone.0 1 (omega arith) gone-IsValid child_zombie

exit-IsValid_example :
    Exited 0 services running.init_proc (exit services Scheduler.mlfq 0 (running, 0))
exit-IsValid_example =
    exit-IsValid 0 services (running, 0)
      (record {
        valid = Step-IsValid {S = services} (schedules booted.0 booted.1) booted-IsValid;
        small = running-OnCpu.small;
        on_cpu = running-OnCpu.running;
      })

age-IsValid_example : IsValid (age forked.0)
age-IsValid_example = age-IsValid forked.0 forked-IsValid

-- Two processes of pid 7 and 8 in a queue of five slots.
abbrev some_table : ℕ → Proc
some_table =
    update
      (update (λ _. blank) 3
        (record blank { pid = 7; ctime = 5; priority = 10; state = ProcState.runnable }))
      4 (record blank { pid = 8; ctime = 9; priority = 70; state = ProcState.runnable })

abbrev some_row : Row
some_row = record { slots = λ j. if j == 0 then 4 else 3; count = 2 }

remove_front : contents (remove some_table 8 some_row) ≡ 3 ∷ []
unfolding remove
remove_front = refl

contents-append_example : contents (append some_row 9) ≡ contents some_row ++ (9 ∷ [])
contents-append_example = contents-append some_row 9

pick_fcfs-latest_example :
    (b : ℕ) × (pick_fcfs some_table ≡ some b)
    × Top (λ new old. slt (some_table old).ctime (some_table new).ctime) some_table b
pick_fcfs-latest_example = pick_fcfs-latest some_table 3 (omega arith) refl

fcfs_takes_latest : pick_fcfs some_table ≡ some 4
unfolding pick_fcfs
fcfs_takes_latest = refl

abbrev ager : Ager
ager = record {
  kernel = record boot { queues = λ _. some_row; table = some_table };
  alread = false;
  ind = 0;
}

boot-Inv : Inv 0 boot
boot-Inv = record {
  member = λ l i low h. cc;
  nodup = λ l low. tt;
  queued = λ i small ne r. cc;
  level = λ i small. omega arith;
  started = omega arith;
  pids = λ i small used. absurd (used refl);
}

wakeup1-state_example :
    ((wakeup1 Scheduler.mlfq 1 waiting.0).table 0).state
    ≡ (if sleeps_on 1 (waiting.0.table 0) then ProcState.runnable else (waiting.0.table 0).state)
wakeup1-state_example = wakeup1-state Scheduler.mlfq 1 0 waiting.0 (omega arith)

parent_asleep : (waiting.0.table 0).state ≡ ProcState.sleeping
unfolding booted or_boot userinit schedule fork select age wait wait_found scan_children
parent_asleep = refl

reached-IsValid : IsValid waiting.0
reached-IsValid = Reach-IsValid booted-IsValid waited

-- Process 0 comes back from its run and has used the slice of queue 0.
abbrev back : Kernel
back = set_proc boot 0 (record blank { state = ProcState.runnable; pid = 1; q = λ _. 2 })

abbrev back_started : Kernel
back_started = record back { next_pid = 2 }

other_unused : (i : ℕ) → i ≢ 0 → (back.table i).state ≡ ProcState.unused
other_unused i ne = ground arith

only_first : (i : ℕ) → (back.table i).state ≢ ProcState.unused → i ≡ 0
only_first i used = elim (Bool-cases (i == 0)) [
  | inl e ↦ (==_iff i 0).0 e
  | inr e ↦ absurd (used (rw e refl))
]

back-Inv : Inv 0 back_started
back-Inv = record {
  member = λ l i low h. cc;
  nodup = λ l low. tt;
  queued = λ i small ne r. cc (other_unused i ne, r);
  level = λ i small. ground arith;
  started = omega arith;
  pids = λ i small used. record {
    positive = ground (arith, only_first i used);
    given = ground (arith, only_first i used);
    unique = λ j h ne u. absurd (ne (only_first j u ∙ sym (only_first i used)));
  };
}

return_from-tail_example :
    contents ((return_from 0 back_started).queues 1)
    ≡ joined back_started 0 (next_level (back_started.table 0)) 1
return_from-tail_example = return_from-tail back_started 0 1 back-Inv (omega arith) refl

demoted_tail : contents ((return_from 0 back_started).queues 1) ≡ 0 ∷ []
unfolding return_from
demoted_tail = refl
