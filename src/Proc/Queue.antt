-- ===== src/Proc/Queue.antt =====
-- The loops of proc.c over one run queue: the search by pid, the removal by shifting, the append.
pub mod Refine
use modified_xv.Base.{
  ℕ, zero, suc, ◌+◌, ◌-◌, Option, none, some, Bool, ◌==◌, if◌then◌else◌, update, window, List,
}
use modified_xv.Proc.State.{Proc, Row, Kernel, set_proc, set_row}

-- `for(i..; i<=q_index; i++) if(qu[i]->pid==pid) break`, with `left` entries to go: the index.
unfoldable pub search : (ℕ → Proc) → ℕ → (ℕ → ℕ) → ℕ → ℕ → Option ℕ
search table pid slots i zero = none
search table pid slots i (suc left) =
    let rest = search table pid slots (suc i) left in
    if (table (slots i)).pid == pid then some i else rest

-- `for(ii=ind; ii<q_index; ii++) qu[ii] = qu[ii+1]`, with `left` rounds to go.
unfoldable pub shift : (ℕ → ℕ) → ℕ → ℕ → ℕ → ℕ
shift slots i zero = slots
shift slots i (suc left) = shift (update slots i (slots (suc i))) (suc i) left

unfoldable pub find : (ℕ → Proc) → ℕ → Row → Option ℕ
unfolding search
find table pid row = search table pid row.slots 0 row.count

-- The shifting loop, then `q_index--`.
unfoldable pub remove_at : Row → ℕ → Row
unfolding shift
remove_at row ind = record {
  slots = shift row.slots ind (row.count - 1 - ind);
  count = row.count - 1;
}

-- Remove the first entry with this pid, if `alread` was set by the search.
unfoldable pub remove : (ℕ → Proc) → ℕ → Row → Row
unfolding find remove_at
remove table pid row = elim (find table pid row) [ none ↦ row | some ind ↦ remove_at row ind ]

-- `qu[q_index+1]=p; q_index++`
unfoldable pub append : Row → ℕ → Row
append row p = record { slots = update row.slots row.count p; count = row.count + 1 }

-- The block that `userinit`, `fork`, `wakeup1`, `kill` and the scheduler share: search the queue
-- of level `cur_q` for the pid; where it is absent append the process and stamp `qtime`.
unfoldable pub enqueue : ℕ → Kernel → Kernel
unfolding find append
enqueue i k =
    let p = k.table i in
    elim (find k.table p.pid (k.queues p.cur_q)) [
      | some ind ↦ k
      | none ↦
          set_proc (set_row k p.cur_q (append (k.queues p.cur_q) i)) i
            (record p { qtime = k.ticks })
    ]

-- The processes that the row holds, head first.
abbrev pub contents : Row → List ℕ
contents row = window row.slots 0 row.count
