-- ===== src/Proc/Mlfq.antt =====
-- The MLFQ branch of `scheduler`: the aging pass, the choice of a process, and what follows its
-- return from `swtch`.
pub mod Choice
use modified_xv.Base.{
  ℕ, zero, suc, ◌+◌, Bool, true, false, not, ◌||◌, Option, none, some, ltb, if◌then◌else◌, update,
}
use modified_xv.Proc.State.{Proc, Row, Kernel, set_proc, set_row, add32, sub32, slt}
use modified_xv.Proc.Queue.{find, remove_at, remove, append}
use modified_xv.Proc.Queue
use modified_xv.Proc.Table.{scan}
use modified_xv.Proc.Tick.{max_queue_ticks}
use modified_xv.Proc.Select.{is_runnable, dispatch}

-- The kernel with the local variables `alread` and `ind` of `scheduler`.
pub record Ager : Type 0 where
  pub kernel : Kernel
  pub alread : Bool
  pub ind : ℕ

-- `ticks - p->qtime > 25`, of two `int`s.
unfoldable pub is_aged : Kernel → ℕ → Bool
is_aged k i = slt 25 (sub32 k.ticks (k.table i).qtime)

-- The search in queue `l`, and the removal if `alread` is set, now or from before.
unfoldable pub leave : ℕ → ℕ → Ager → Ager
unfolding find remove_at
leave l i a =
    let k = a.kernel in
    let a' : Ager = elim (find k.table (k.table i).pid (k.queues l)) [
      | some ind ↦ record { kernel = k; alread = true; ind = ind }
      | none ↦ a
    ] in
    if a'.alread then record a' { kernel = set_row k l (remove_at (k.queues l) a'.ind) } else a'

-- The search in queue `l`, and the append with its stamps if the process is not there.
unfoldable pub join : ℕ → ℕ → Ager → Ager
unfolding find append
join l i a =
    let k = a.kernel in
    elim (find k.table (k.table i).pid (k.queues l)) [
      | some ind ↦ record a { alread = true }
      | none ↦ record a {
        kernel =
            set_proc (set_row k l (append (k.queues l) i)) i
              (record (k.table i) { cur_q = l; qtime = k.ticks });
        alread = false;
      }
    ]

-- One round of the inner loop at index `j` of queue `l + 1`.
unfoldable pub age_one : ℕ → ℕ → Ager → Ager
unfolding is_aged leave join
age_one l j a =
    let i = (a.kernel.queues (suc l)).slots j in
    if is_aged a.kernel i then join l i (leave (suc l) i a) else a

-- The inner loop: its bound `q_index[l + 1]` is read again in each round.
unfoldable pub age_queue : ℕ → ℕ → ℕ → Ager → Ager
unfolding age_one
age_queue zero l j a = a
age_queue (suc fuel) l j a =
    let rest = age_queue fuel l (suc j) (age_one l j a) in
    if ltb j (a.kernel.queues (suc l)).count then rest else a

-- The outer loop's round for queue `l + 1`: a round of the inner loop adds no entry to the queue
-- that it walks, so the entries at the start bound the rounds.
unfoldable pub age_level : ℕ → Ager → Ager
unfolding age_queue
age_level l a = age_queue (a.kernel.queues (suc l)).count l 0 a

-- The pass over the queues 1 to 4.
unfoldable pub age : Kernel → Kernel
unfolding age_level
age k =
    (age_level 3 (
      age_level 2
        (age_level 1 (age_level 0 (record { kernel = k; alread = false; ind = 0 }))))).kernel

-- The first queue that is not empty.
unfoldable pub first_queue : (ℕ → Row) → Option ℕ
unfolding scan
first_queue queues = scan (λ l. ltb 0 (queues l).count) 0 5

-- `p->q[i]++`, and the mark of a used-up slice.
unfoldable pub charge : ℕ → Proc → Proc
charge l p =
    let n = add32 (p.q l) 1 in
    record p { q = update p.q l n; flg = p.flg || not (slt n (max_queue_ticks l)) }

-- The RUNNABLE head `i` of queue `l` is charged, taken off the queue and made RUNNING.
unfoldable pub take_head : ℕ → ℕ → Kernel → Kernel
unfolding charge remove dispatch
take_head l i k =
    let k' = set_proc k i (charge l (k.table i)) in
    dispatch i (set_row k' l (remove k'.table (k'.table i).pid (k'.queues l)))

-- The process that MLFQ switches to: the head of the first queue that is not empty, if it can run.
unfoldable pub select : Kernel → Option (ℕ × Kernel)
unfolding first_queue take_head
select k = elim (first_queue k.queues) [
  | none ↦ none
  | some l ↦
      let i = (k.queues l).slots 0 in
      if is_runnable k.table i then some (i, take_head l i k) else none
]

-- One pass of the scheduler's loop up to `swtch`: aging, then the choice.
unfoldable pub schedule : Kernel → Kernel
schedule k = elim (select (age k)) [ none ↦ age k | some (i, k') ↦ k' ]

-- The demotion of a process that used up its slice.
unfoldable pub demote : Proc → Proc
demote p =
    if p.flg || not (slt (p.q p.cur_q) (max_queue_ticks p.cur_q))
    then record p { flg = false; cur_q = if ltb p.cur_q 4 then p.cur_q + 1 else p.cur_q }
    else p

-- What `scheduler` does with process `i` when it comes back from `swtch`.
unfoldable pub return_from : ℕ → Kernel → Kernel
unfolding demote Queue.enqueue
return_from i k =
    if is_runnable k.table i then Queue.enqueue i (set_proc k i (demote (k.table i))) else k
