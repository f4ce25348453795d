-- ===== src/Proc/Invariant/Schedule.antt =====
-- The MLFQ branch of scheduler, under the invariant: the choice, and the return from `swtch`.
use modified_xv.Base.{
  ℕ, zero, suc, ◌+◌, ◌<◌, ◌≤◌, ◌≡◌, ◌≢◌, refl, ap, ◌∙◌, true, Option, none, some, arith, ◌==◌, ltb,
  inl, inr, Bool-cases, Option-cases, ==_iff, ==_refl, ltb→lt, has, window,
}
use modified_xv.Proc.State.{ProcState, Proc, Kernel, state_eq, set_proc, set_row, nproc, add32}
use modified_xv.Proc.Table.Scans.{scan-some}
use modified_xv.Proc.Queue.{remove, contents}
use modified_xv.Proc.Select.{is_runnable}
use modified_xv.Proc.Mlfq.{first_queue, charge, take_head, select, demote, return_from}
use modified_xv.Proc.Invariant.{Inv, IsValid, settle, write, Same}
use modified_xv.Proc.Invariant.Queues
use modified_xv.Proc.Invariant.Queues.{contents-remove-erase, enqueue-IsValid, has_pid-contents}
use modified_xv.Proc.Invariant.Steps.{touch}

runnable_of_test :
    (p : Proc) → state_eq p.state ProcState.runnable ≡ true → p.state ≡ ProcState.runnable
runnable_of_test p h = ground arith

-- The head of a queue that is not empty stands in it.
pub has-window : (f : ℕ → ℕ) (i n j : ℕ) → i ≤ j → j < i + n → has (f j) (window f i n) ≡ true
has-window f i zero j a b = absurd (omega arith)
has-window f i (suc n) j a b = elim (Bool-cases (i == j)) [
  | inl e ↦ rw ((==_iff i j).0 e, ==_refl (f j))
  | inr e ↦ ground (arith, has-window f (suc i) n j)
]

pub demote-level : (p : Proc) → p.cur_q < 5 → (demote p).cur_q < 5
unfolding demote
demote-level p h = ground arith

pub demote-state : (p : Proc) → (demote p).state ≡ p.state
unfolding demote
demote-state p = ground arith

pub demote-pid : (p : Proc) → (demote p).pid ≡ p.pid
unfolding demote
demote-pid p = ground arith

-- The code after `swtch` queues a process that yielded, and completes the invariant.
pub return_from-IsValid : (i : ℕ) (k : Kernel) → i < nproc → Inv i k → IsValid (return_from i k)
unfolding return_from
return_from-IsValid i k small v = elim (Bool-cases (is_runnable k.table i)) [
  | inl e ↦
      let r = runnable_of_test (k.table i) e in
      rw e (
        enqueue-IsValid i
          (write i small (demote (k.table i)) v (demote-level (k.table i) (v.level i small))
            (λ _. rw (demote-pid (k.table i)) (v.pids i small (rw r (λ c. cc)))))
          small (rw (==_refl i) (demote-state (k.table i) ∙ r)))
  | inr e ↦ rw e (settle i small v (λ c. cc (e, ap (λ s. state_eq s ProcState.runnable) c)))
]

charge-Same : (l : ℕ) (p : Proc) → Same p (charge l p)
unfolding charge
charge-Same l p = record { state = refl; pid = refl; level = refl }

take_head-IsValid :
    (l i : ℕ) (k : Kernel)
    → l < 5
    → IsValid k
    → has i (contents (k.queues l)) ≡ true
    → IsValid (take_head l i k)
unfolding take_head
take_head-IsValid l i k low v m =
    let q = v.member l i low m in
    let k' = set_proc k i (charge l (k.table i)) in
    let v' : IsValid k' = touch i (charge l (k.table i)) (charge-Same l (k.table i)) v in
    let r : (k'.table i).state ≡ ProcState.runnable =
      rw (==_refl i) ((charge-Same l (k.table i)).state ∙ q.ready) in
    let u : (k'.table i).state ≢ ProcState.unused = (λ c. cc (r, c)) in
    let row = remove k'.table (k'.table i).pid (k'.queues l) in
    let w = Queues.exit i l row low v' q.small (contents-remove-erase i q.small u v' l low) m in
    let p' = record (k'.table i) {
      n_run = add32 (k'.table i).n_run 1;
      state = ProcState.running;
    } in
    let w' : Inv i (set_proc (set_row k' l row) i p') =
      write i q.small p' w (v'.level i q.small) (λ _. v'.pids i q.small u) in
    settle i q.small w' (rw (==_refl i) (λ c. cc))

take_head-running : (l i : ℕ) (k : Kernel) → ((take_head l i k).table i).state ≡ ProcState.running
unfolding take_head
take_head-running l i k = rw (==_refl i)

pub head-has :
    (k : Kernel) (l : ℕ)
    → 0 < (k.queues l).count
    → has ((k.queues l).slots 0) (contents (k.queues l)) ≡ true
head-has k l h = has-window (k.queues l).slots 0 (k.queues l).count 0 (omega arith) (omega arith)

abbrev pub Selected : Kernel → Option (ℕ × Kernel) → Type 0
Selected k none = Unit
Selected k (some (i, k')) =
    (i < nproc)
    × ((k.table i).state ≡ ProcState.runnable)
    × ((k'.table i).state ≡ ProcState.running)
    × IsValid k'

-- What is selected was RUNNABLE and is RUNNING, and the invariant holds after the choice.
pub select-IsValid : (k : Kernel) → IsValid k → Selected k (select k)
unfolding select first_queue
select-IsValid k v = elim (Option-cases (first_queue k.queues)) [
  | inl e ↦ rw (e, select) tt
  | inr (l, e) ↦
      let f = scan-some (λ l. ltb 0 (k.queues l).count) 0 5 l e in
      let m = head-has k l (ltb→lt 0 _ f.hit) in
      let i = (k.queues l).slots 0 in
      elim (Bool-cases (is_runnable k.table i)) [
        | inl r ↦
            rw (e, select, r)
              (
                (v.member l i (omega (arith, f.below)) m).small,
                runnable_of_test (k.table i) r,
                take_head-running l i k,
                take_head-IsValid l i k (omega (arith, f.below)) v m,
              )
        | inr r ↦ rw (e, select, r) tt
      ]
]
