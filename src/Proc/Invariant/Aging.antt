-- ===== src/Proc/Invariant/Aging.antt =====
-- The aging pass of the MLFQ branch of scheduler, under the invariant.
use modified_xv.Base.{
  ℕ, zero, suc, ◌+◌, ◌<◌, ◌≤◌, ◌≡◌, ◌≢◌, refl, true, false, arith, ltb, inl, inr, Bool-cases,
  Option-cases, ==_refl, ltb→lt, has,
}
use modified_xv.Proc.State.{ProcState, Kernel, nproc}
use modified_xv.Proc.Queue.{find, remove, remove_at, append, contents}
use modified_xv.Proc.Queue.Refine.{find-none, contents-append}
use modified_xv.Proc.Mlfq.{Ager, is_aged, leave, join, age_one, age_queue, age_level, age}
use modified_xv.Proc.Invariant.{Inv, IsValid, write}
use modified_xv.Proc.Invariant.Queues
use modified_xv.Proc.Invariant.Queues.{contents-remove-erase, has_pid-contents, find-absent, absent}
use modified_xv.Proc.Invariant.Schedule.{has-window}

module _ (l i : ℕ) (a : Ager) where
  table-leave : (leave l i a).kernel.table ≡ a.kernel.table
  unfolding leave
  table-leave = ground arith

  leave-Inv :
      l < 5
      → IsValid a.kernel
      → has i (contents (a.kernel.queues l)) ≡ true
      → Inv i (leave l i a).kernel
  unfolding leave remove
  leave-Inv low v m =
      let k = a.kernel in
      let q = v.member l i low m in
      let u : (k.table i).state ≢ ProcState.unused = rw q.ready (λ c. cc) in
      let gone = contents-remove-erase i q.small u v l low in
      elim (Option-cases (find k.table (k.table i).pid (k.queues l))) [
        | inl e ↦ cc (
          find-none k.table (k.table i).pid (k.queues l) e,
          has_pid-contents i q.small u v l low,
          m,
        )
        | inr (ind, e) ↦
            rw (e, leave)
              (Queues.exit i l (remove_at (k.queues l) ind) low v q.small (rw (e, remove) at gone)
                m)
      ]

  join-IsValid :
      l < 5
      → i < nproc
      → (a.kernel.table i).state ≡ ProcState.runnable
      → Inv i a.kernel
      → IsValid (join l i a).kernel
  unfolding join
  join-IsValid low small r v =
      let k = a.kernel in
      let u : (k.table i).state ≢ ProcState.unused = rw r (λ c. cc) in
      rw (find-absent i small u v l low (absent i v l low), join)
        (Queues.enter i l (append (k.queues l) i) low
          (write i small (record (k.table i) { cur_q = l; qtime = k.ticks }) v low
            (λ _. v.pids i small u))
          small (rw (==_refl i) r) (rw (==_refl i)) (contents-append (k.queues l) i))

-- One round keeps the invariant, at an index in use of one of the queues 1 to 4.
age_one-IsValid :
    (l j : ℕ) (a : Ager)
    → l < 4
    → j < (a.kernel.queues (suc l)).count
    → IsValid a.kernel
    → IsValid (age_one l j a).kernel
unfolding age_one
age_one-IsValid l j a low h v =
    let row = a.kernel.queues (suc l) in
    let i = row.slots j in
    let m = has-window row.slots 0 row.count j (omega arith) (omega arith) in
    let q = v.member (suc l) i (omega arith) m in
    elim (Bool-cases (is_aged a.kernel i)) [
      | inl e ↦ rw e (
          join-IsValid l i (leave (suc l) i a) (omega arith) q.small
            (rw (table-leave (suc l) i a) q.ready) (leave-Inv (suc l) i a (omega arith) v m))
      | inr e ↦ rw e v
    ]

age_queue-IsValid :
    (fuel l j : ℕ) (a : Ager) → l < 4 → IsValid a.kernel → IsValid (age_queue fuel l j a).kernel
unfolding age_queue
age_queue-IsValid zero l j a low v = v
age_queue-IsValid (suc fuel) l j a low v =
    elim (Bool-cases (ltb j (a.kernel.queues (suc l)).count)) [
      | inl e ↦ rw e (
          age_queue-IsValid fuel l (suc j) (age_one l j a) low
            (age_one-IsValid l j a low (ltb→lt _ _ e) v))
      | inr e ↦ rw e v
    ]

age_level-IsValid : (l : ℕ) (a : Ager) → l < 4 → IsValid a.kernel → IsValid (age_level l a).kernel
unfolding age_level
age_level-IsValid l a low v = age_queue-IsValid (a.kernel.queues (suc l)).count l 0 a low v

-- The aging pass keeps the invariant.
pub age-IsValid : (k : Kernel) → IsValid k → IsValid (age k)
unfolding age
age-IsValid k v =
    let a0 : Ager = record { kernel = k; alread = false; ind = 0 } in
    let a1 = age_level 0 a0 in
    let a2 = age_level 1 a1 in
    let a3 = age_level 2 a2 in
    age_level-IsValid 3 a3 (omega arith) (
      age_level-IsValid 2 a2 (omega arith)
        (age_level-IsValid 1 a1 (omega arith) (age_level-IsValid 0 a0 (omega arith) v)))

ltb-false : (a b : ℕ) → b ≤ a → ltb a b ≡ false
ltb-false a b h = ground arith

count-leave :
    (l i : ℕ) (a : Ager) → ((leave l i a).kernel.queues l).count ≤ (a.kernel.queues l).count
unfolding leave remove_at
count-leave l i a = ground arith

count-join :
    (l i : ℕ) (a : Ager)
    → ((join l i a).kernel.queues (suc l)).count ≡ (a.kernel.queues (suc l)).count
unfolding join
count-join l i a = ground arith

count-age_one :
    (l j : ℕ) (a : Ager)
    → ((age_one l j a).kernel.queues (suc l)).count ≤ (a.kernel.queues (suc l)).count
unfolding age_one
count-age_one l j a =
    let i = (a.kernel.queues (suc l)).slots j in
    ground (arith, count-join l i (leave (suc l) i a), count-leave (suc l) i a)

-- Any two numbers of rounds that reach the end of the queue give the same result: the aging loop
-- ended by its own test.
pub age_queue_fuel :
    (f g l j : ℕ) (a : Ager)
    → (a.kernel.queues (suc l)).count ≤ f + j
    → (a.kernel.queues (suc l)).count ≤ g + j
    → age_queue f l j a ≡ age_queue g l j a
unfolding age_queue
age_queue_fuel zero zero l j a hf hg = refl
age_queue_fuel zero (suc g) l j a hf hg =
    rw (ltb-false j (a.kernel.queues (suc l)).count (omega arith))
age_queue_fuel (suc f) zero l j a hf hg =
    rw (ltb-false j (a.kernel.queues (suc l)).count (omega arith))
age_queue_fuel (suc f) (suc g) l j a hf hg =
    let less = count-age_one l j a in
    rw (age_queue_fuel f g l (suc j) (age_one l j a) (omega arith) (omega arith))
