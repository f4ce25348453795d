-- ===== src/Locks.antt =====
-- spinlock.c and sleeplock.c: the nesting of interrupt disabling, and the two kinds of locks.
pub mod Nesting
pub mod Exclusion
mod Tests
use modified_xv.Base.{
  ℕ, zero, suc, ◌+◌, ◌-◌, Bool, true, false, ◌&&◌, not, Option, none, some, ◌==◌, if◌then◌else◌,
  update, add32, sub32, slt,
}

-- The fields of `struct cpu` that count the nesting, with the interrupt flag of EFLAGS.
pub record Cpu : Type 0 where
  pub on : Bool
  pub ncli : ℕ
  pub intena : Bool

pub pushcli : Cpu → Cpu
pushcli c = record {
  on = false;
  ncli = add32 c.ncli 1;
  intena = if c.ncli == 0 then c.on else c.intena;
}

-- `none` is one of the panics.
pub popcli : Cpu → Option Cpu
popcli c =
    let n = sub32 c.ncli 1 in
    if c.on
    then none
    else if slt n 0
    then none
    else some (record c { ncli = n; on = n == 0 && c.intena })

-- `struct spinlock` without its name and call stack: `cpu` is 0 for null and c + 1 for CPU `c`.
pub record Spinlock : Type 0 where
  pub locked : Bool
  pub cpu : ℕ

pub holding : ℕ → Spinlock → Bool
holding c l = l.locked && (l.cpu == suc c)

-- The atomic `xchg(&lk->locked, 1)`: whether the lock was free.
pub xchg : Spinlock → Spinlock × Bool
xchg l = (record l { locked = true }, not l.locked)

-- `lk->cpu = mycpu()`
pub mark : ℕ → Spinlock → Spinlock
mark c l = record l { cpu = suc c }

-- `lk->cpu = 0`
pub unmark : Spinlock → Spinlock
unmark l = record l { cpu = 0 }

-- The store of 0 into `lk->locked`.
pub unlock : Spinlock → Spinlock
unlock l = record l { locked = false }

-- `struct sleeplock`, under its spinlock.
pub record Sleeplock : Type 0 where
  pub locked : Bool
  pub pid : ℕ

-- `acquiresleep` by process `pid`, or `none` where it sleeps.
pub acquiresleep : ℕ → Sleeplock → Option Sleeplock
acquiresleep pid l = if l.locked then none else some (record { locked = true; pid = pid })

pub releasesleep : Sleeplock → Sleeplock
releasesleep l = record { locked = false; pid = 0 }

pub holdingsleep : ℕ → Sleeplock → Bool
holdingsleep pid l = l.locked && (l.pid == pid)
