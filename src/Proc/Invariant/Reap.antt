-- ===== src/Proc/Invariant/Reap.antt =====
-- wait and the clock tick, under the invariant.
use modified_xv.Base.{
  ℕ, zero, suc, ◌+◌, ◌<◌, ◌≤◌, ◌≡◌, ◌≢◌, refl, ap, Bool, true, false, not, ◌||◌, Option, none, some,
  List, [], ◌∷◌, arith, ◌==◌, update, inl, inr, Bool-cases, Option-cases, ==_iff, has,
}
use mathlib.Core.Path.{fun_ext, subst}
use modified_xv.Proc.State.{
  ProcState, Proc, Row, Kernel, state_eq, set_proc, nproc, add32, proc_ptr, ticks_chan,
}
use modified_xv.Proc.Queue.{find, remove, contents}
use modified_xv.Proc.Queue.Refine.{has_pid, find-some}
use modified_xv.Proc.Table.{Scheduler}
use modified_xv.Proc.Table.Scans.{each_inv}
use modified_xv.Proc.Services.{Services}
use modified_xv.Proc.Wait.{scan_children, freed, free_slot, wait_found, wait}
use modified_xv.Proc.Tick.{account, timer}
use modified_xv.Proc.Invariant.{IsValid, ne→false}
use modified_xv.Proc.Invariant.Steps.{touch, wakeup1-IsValid}
use modified_xv.Proc.Invariant.Lifecycle.{rewrite-IsValid}
use modified_xv.Proc.Invariant.Exit.{Runs, sleep-IsValid}

-- No entry of a list has pid 0.
no_pid_zero :
    (table : ℕ → Proc) (xs : List ℕ)
    → ((y : ℕ) → has y xs ≡ true → 0 < (table y).pid)
    → has_pid table 0 xs ≡ false
no_pid_zero table [] h = refl
no_pid_zero table (x ∷ xs) h =
    let here : 0 < (table x).pid = h x (ground arith) in
    let rest = no_pid_zero table xs (λ y m. h y (ground arith)) in ground (arith, rest)

remove-absent :
    (table : ℕ → Proc) (pid : ℕ) (row : Row)
    → has_pid table pid (contents row) ≡ false
    → remove table pid row ≡ row
unfolding remove
remove-absent table pid row h = elim (Option-cases (find table pid row)) [
  | inl e ↦ rw (e, remove)
  | inr (j, e) ↦ cc (h, (find-some table pid row j e).0)
]

update_same {ℓ} : {A : Type ℓ} (f : ℕ → A) (i : ℕ) → update f i (f i) ≡ f
update_same f i =
    fun_ext λ j. elim (Bool-cases (j == i)) [ inl e ↦ rw (e, (==_iff j i).0 e) | inr e ↦ rw e ]

-- In a valid state, freeing the slot of a zombie under MLFQ changes this slot only: the search for
-- pid 0 finds no entry, and nothing leaves a queue.
pub free_slot-queues :
    (k : Kernel) (i : ℕ)
    → i < nproc
    → IsValid k
    → (k.table i).state ≡ ProcState.zombie
    → free_slot Scheduler.mlfq i k ≡ set_proc k i (freed (k.table i))
unfolding free_slot
free_slot-queues k i small v z =
    let p = freed (k.table i) in
    let l = (k.table i).cur_q in
    let out : (y : ℕ) → has y (contents (k.queues l)) ≡ true → 0 < (update k.table i p y).pid =
      (λ y m.
        let q = v.member l y (v.level i small) m in
        let ne : y ≢ i = (λ c. cc (q.ready, z, c)) in
        rw (ne→false ne) (v.pids y q.small (rw q.ready (λ c. cc))).positive) in
    let same =
      remove-absent (update k.table i p) 0 (k.queues l)
        (no_pid_zero (update k.table i p) (contents (k.queues l)) out) in
    ap (λ queues. record k { table = update k.table i p; queues = queues })
      (rw same (update_same k.queues l))

pub free_slot-IsValid :
    (k : Kernel) (i : ℕ)
    → i < nproc
    → IsValid k
    → (k.table i).state ≡ ProcState.zombie
    → IsValid (free_slot Scheduler.mlfq i k)
unfolding freed
free_slot-IsValid k i small v z = rw (free_slot-queues k i small v z) (
    rewrite-IsValid i (freed (k.table i)) small v (rw z (λ c. cc)) (λ c. cc) (v.level i small)
      (λ c. absurd (c refl)))

record Child (table : ℕ → Proc) (cur i : ℕ) (left : ℕ) (j : ℕ) : Type 0 where
  from : i ≤ j
  below : j < i + left
  child : (table j).parent ≡ proc_ptr cur
  dead : (table j).state ≡ ProcState.zombie

Child-next :
    (table : ℕ → Proc) (cur i left j : ℕ)
    → Child table cur (suc i) left j
    → Child table cur i (suc left) j
Child-next table cur i left j c = record {
  from = omega (arith, c.from);
  below = omega (arith, c.below);
  child = c.child;
  dead = c.dead;
}

zombie_of_test : (p : Proc) → state_eq p.state ProcState.zombie ≡ true → p.state ≡ ProcState.zombie
zombie_of_test p h = ground arith

retick : {k : Kernel} (t : ℕ) → IsValid k → IsValid (record k { ticks = t })
retick t v = record {
  member = v.member;
  nodup = v.nodup;
  queued = v.queued;
  level = v.level;
  started = v.started;
  pids = v.pids;
}

-- The zombie that the loop of `wait` finds is a child of the caller.
scan_children-some :
    (table : ℕ → Proc) (cur i left : ℕ) (kids : Bool) (j : ℕ)
    → (scan_children table cur i left kids).0 ≡ some j
    → Child table cur i left j
unfolding scan_children
scan_children-some table cur i zero kids j h = cc
scan_children-some table cur i (suc left) kids j h =
    elim (Bool-cases ((table i).parent == proc_ptr cur)) [
      | inl e ↦ elim (Bool-cases (state_eq (table i).state ProcState.zombie)) [
        | inl z ↦
            let p : i ≡ j = ground arith in
            subst (Child table cur i (suc left)) p (record {
              from = omega arith;
              below = omega arith;
              child = (==_iff _ _).0 e;
              dead = zombie_of_test (table i) z;
            })
        | inr z ↦
            Child-next table cur i left j
              (scan_children-some table cur (suc i) left true j (rw (e, z) at h))
      ]
      | inr e ↦
          Child-next table cur i left j
            (scan_children-some table cur (suc i) left kids j (rw e at h))
    ]

module _ (S : Services) where
  wait_found-IsValid :
      (cur : ℕ) (found : Option ℕ × Bool) (k : Kernel) (w : S.World)
      → Runs cur k
      → ((j : ℕ) → found.0 ≡ some j → Child k.table cur 0 nproc j)
      → IsValid (wait_found S Scheduler.mlfq cur found (k, w)).1
  unfolding wait_found
  wait_found-IsValid cur (some i, kids) k w r c =
      let d = c i refl in free_slot-IsValid k i (omega (arith, d.below)) r.valid d.dead
  wait_found-IsValid cur (none, kids) k w r c =
      elim (Bool-cases (not kids || (k.table cur).killed)) [
        | inl e ↦ rw e r.valid
        | inr e ↦ rw e (sleep-IsValid cur (proc_ptr cur) k r)
      ]

  -- `wait` keeps the invariant, whether it reaps, fails or sleeps.
  pub wait-IsValid :
      (cur : ℕ) (k : Kernel) (w : S.World)
      → Runs cur k
      → IsValid (wait S Scheduler.mlfq cur (k, w)).1
  unfolding wait
  wait-IsValid cur k w r =
      wait_found-IsValid cur (scan_children k.table cur 0 nproc false) k w r
        (scan_children-some k.table cur 0 nproc false)

account-IsValid : (i : ℕ) (k : Kernel) → i < nproc → IsValid k → IsValid (account i k)
unfolding account
account-IsValid i k small v = elim (Bool-cases (state_eq (k.table i).state ProcState.running)) [
  | inl e ↦ rw e (touch i _ (record { state = refl; pid = refl; level = refl }) v)
  | inr e ↦ elim (Bool-cases (state_eq (k.table i).state ProcState.sleeping)) [
    | inl d ↦ rw (e, d) (touch i _ (record { state = refl; pid = refl; level = refl }) v)
    | inr d ↦ rw (e, d) v
  ]
]

-- The clock tick keeps the invariant.
pub timer-IsValid : (k : Kernel) → IsValid k → IsValid (timer Scheduler.mlfq k)
unfolding timer
timer-IsValid k v = wakeup1-IsValid ticks_chan _ (
    each_inv IsValid account nproc account-IsValid 0 nproc _ (omega arith)
      (retick (add32 k.ticks 1) v))
