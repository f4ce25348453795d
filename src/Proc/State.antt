-- ===== src/Proc/State.antt =====
-- proc.h and the data of proc.c: the process table, the five run queues, the counters.
-- An `int` or `uint` is its 32-bit pattern, a number below 2 ^ 32. A pointer to a process is 0 for
-- null and i + 1 for `&ptable.proc[i]`.
pub use modified_xv.Base.{add32, sub32, slt}
use modified_xv.Base.{ℕ, suc, Bool, ◌==◌, update}

-- `enum procstate`
pub data ProcState : Type 0 where
  unused embryo sleeping runnable running zombie : ProcState

abbrev pub code : ProcState → ℕ
code ProcState.unused = 0
code ProcState.embryo = 1
code ProcState.sleeping = 2
code ProcState.runnable = 3
code ProcState.running = 4
code ProcState.zombie = 5

abbrev pub state_eq : ProcState → ProcState → Bool
state_eq a b = code a == code b

-- `struct proc`
pub record Proc : Type 0 where
  pub sz : ℕ
  pub pgdir : ℕ
  pub kstack : ℕ
  pub state : ProcState
  pub pid : ℕ
  pub parent : ℕ
  pub chan : ℕ
  pub killed : Bool
  pub ofile : ℕ → ℕ
  pub cwd : ℕ
  pub ctime : ℕ
  pub etime : ℕ
  pub rtime : ℕ
  pub iotime : ℕ
  pub priority : ℕ
  pub n_run : ℕ
  pub cur_q : ℕ
  pub q : ℕ → ℕ
  pub qtime : ℕ
  pub flg : Bool

-- One row of `qu` with `q_index + 1`, the number of entries in use.
pub record Row : Type 0 where
  pub slots : ℕ → ℕ
  pub count : ℕ

-- The globals of proc.c, with `ticks` of trap.c.
pub record Kernel : Type 0 where
  pub table : ℕ → Proc
  pub queues : ℕ → Row
  pub next_pid : ℕ
  pub ticks : ℕ
  pub init_proc : ℕ

abbrev pub nproc : ℕ
nproc = 64

abbrev pub nofile : ℕ
nofile = 16

abbrev pub proc_ptr : ℕ → ℕ
proc_ptr i = suc i

-- The channel `&ticks`, above those of the processes.
abbrev pub ticks_chan : ℕ
ticks_chan = 65

-- A write to one process.
abbrev pub set_proc : Kernel → ℕ → Proc → Kernel
set_proc k i p = record k { table = update k.table i p }

abbrev pub set_row : Kernel → ℕ → Row → Kernel
set_row k l r = record k { queues = update k.queues l r }
