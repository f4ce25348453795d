-- ===== src/Proc/Invariant.antt =====
-- The invariant of the process table and the MLFQ queues, with one process `e` that is on its way
-- to or from a queue (`e = nproc` for none), and what each kind of write does to it.
pub mod Queues
pub mod Steps
pub mod Tail
pub mod Reap
pub mod Exit
pub mod Lifecycle
pub mod Aging
pub mod Schedule
use modified_xv.Base.{
  ℕ, ◌+◌, ◌<◌, ◌≡◌, ◌≢◌, refl, Bool, true, false, Option, none, some, List, arith, ◌==◌, update,
  has, NoDup, ◌⊎◌, inl, inr, ◌∙◌, Bool-cases, ==_iff, sym,
}
use mathlib.Core.Path.{subst}
use modified_xv.Proc.State.{ProcState, Proc, Row, Kernel, set_proc, set_row, nproc}
use modified_xv.Proc.Queue.{contents}

-- What holds of a process that stands in queue `l`.
pub record Queued (e : ℕ) (table : ℕ → Proc) (l i : ℕ) : Type 0 where
  pub small : i < nproc
  pub other : i ≢ e
  pub ready : (table i).state ≡ ProcState.runnable
  pub level : (table i).cur_q ≡ l

-- A pid that process `i` may carry.
pub record FitsPid (table : ℕ → Proc) (next_pid i pid : ℕ) : Type 0 where
  pub positive : 0 < pid
  pub given : pid < next_pid
  pub unique :
      (j : ℕ) → j < nproc → j ≢ i → (table j).state ≢ ProcState.unused → (table j).pid ≢ pid

pub record Inv (e : ℕ) (k : Kernel) : Type 0 where
  pub member : (l i : ℕ) → l < 5 → has i (contents (k.queues l)) ≡ true → Queued e k.table l i
  pub nodup : (l : ℕ) → l < 5 → NoDup (contents (k.queues l))
  pub queued :
      (i : ℕ)
      → i < nproc
      → i ≢ e
      → (k.table i).state ≡ ProcState.runnable
      → has i (contents (k.queues (k.table i).cur_q)) ≡ true
  pub level : (i : ℕ) → i < nproc → (k.table i).cur_q < 5
  pub started : 0 < k.next_pid
  pub pids :
      (i : ℕ)
      → i < nproc
      → (k.table i).state ≢ ProcState.unused
      → FitsPid k.table k.next_pid i (k.table i).pid

-- Between two steps no process is on its way.
abbrev pub IsValid : Kernel → Type 0
IsValid k = Inv nproc k

ne→false : {i j : ℕ} → j ≢ i → (j == i) ≡ false
ne→false h = ground arith

-- The pids after a write to process `i`.
module _ (k : Kernel) (i : ℕ) (p : Proc) where
  FitsPid-self :
      FitsPid k.table k.next_pid i p.pid → FitsPid (update k.table i p) k.next_pid i p.pid
  FitsPid-self f = record {
    positive = f.positive;
    given = f.given;
    unique = λ m h o u. rw (ne→false o) (f.unique m h o (rw (ne→false o) at u));
  }

  FitsPid-other :
      (j : ℕ)
      → j ≢ i
      → j < nproc
      → (k.table j).state ≢ ProcState.unused
      → (p.state ≢ ProcState.unused → FitsPid k.table k.next_pid i p.pid)
      → FitsPid k.table k.next_pid j (k.table j).pid
      → FitsPid (update k.table i p) k.next_pid j (k.table j).pid
  FitsPid-other j ne h u fits f = record {
    positive = f.positive;
    given = f.given;
    unique = λ m h' o u'. elim (Bool-cases (m == i)) [
      | inl e ↦ rw e (λ c. (fits (rw e at u')).unique j h ne u (sym c))
      | inr e ↦ rw e (f.unique m h' o (rw e at u'))
    ];
  }

module _ {k : Kernel} (i : ℕ) (small : i < nproc) where
  -- A process that is not RUNNABLE stands in no queue, so it may be the exception.
  pub lift : IsValid k → (k.table i).state ≢ ProcState.runnable → Inv i k
  lift v ne = record {
    member = λ l j h m.
        let q = v.member l j h m in
        record {
          small = q.small;
          other = λ e. ne (rw (← e) q.ready);
          ready = q.ready;
          level = q.level;
        };
    nodup = v.nodup;
    queued = λ j h o r. v.queued j h (omega arith) r;
    level = v.level;
    started = v.started;
    pids = v.pids;
  }

  pub settle : Inv i k → (k.table i).state ≢ ProcState.runnable → IsValid k
  settle v ne = record {
    member = λ l j h m.
        let q = v.member l j h m in
        record {
          small = q.small;
          other = omega (arith, q.small);
          ready = q.ready;
          level = q.level;
        };
    nodup = v.nodup;
    queued = λ j h o r. v.queued j h (λ e. ne (rw (← e) r)) r;
    level = v.level;
    started = v.started;
    pids = v.pids;
  }

  -- Any write to the exception that leaves it a fitting pid and level.
  pub write :
      (p : Proc)
      → Inv i k
      → p.cur_q < 5
      → (p.state ≢ ProcState.unused → FitsPid k.table k.next_pid i p.pid)
      → Inv i (set_proc k i p)
  write p v lv fits = record {
    member = λ l j h m.
        let q = v.member l j h m in
        let e = ne→false q.other in
        record { small = q.small; other = q.other; ready = rw e q.ready; level = rw e q.level };
    nodup = v.nodup;
    queued = λ j h o r. let e = ne→false o in rw e (v.queued j h o (rw e at r));
    level = λ j h. ground (arith, v.level j h);
    started = v.started;
    pids = λ j h u. elim (Bool-cases (j == i)) [
      | inl e ↦ rw e (
          subst (λ m. FitsPid (update k.table i p) k.next_pid m p.pid) (sym ((==_iff j i).0 e))
            (FitsPid-self k i p (fits (rw e at u))))
      | inr e ↦ rw e (
          FitsPid-other k i p j (λ c. cc (e, (==_iff j i).1 c)) h (rw e at u) fits
            (v.pids j h (rw e at u)))
    ];
  }

-- Two processes that the invariant does not tell apart.
pub record Same (p p' : Proc) : Type 0 where
  pub state : p'.state ≡ p.state
  pub pid : p'.pid ≡ p.pid
  pub level : p'.cur_q ≡ p.cur_q

abbrev pub with_table : Kernel → (ℕ → Proc) → Kernel
with_table k table = record k { table = table }

-- A change of other fields keeps the invariant.
pub frame :
    {e : ℕ} {k : Kernel} (table : ℕ → Proc)
    → ((i : ℕ) → Same (k.table i) (table i))
    → Inv e k
    → Inv e (with_table k table)
frame {k} table same v = record {
  member = λ l j h m.
      let q = v.member l j h m in
      record {
        small = q.small;
        other = q.other;
        ready = (same j).state ∙ q.ready;
        level = (same j).level ∙ q.level;
      };
  nodup = v.nodup;
  queued = λ j h o r. rw (same j).level (v.queued j h o (sym (same j).state ∙ r));
  started = v.started;
  level = λ j h. rw (same j).level (v.level j h);
  pids = λ j h u.
      let f = v.pids j h (λ c. u ((same j).state ∙ c)) in
      record {
        positive = rw (same j).pid f.positive;
        given = rw (same j).pid f.given;
        unique = λ m h' o u' c.
            f.unique m h' o (λ d. u' ((same m).state ∙ d)) (sym (same m).pid ∙ c ∙ (same j).pid);
      };
}

pub Same-set_proc :
    (k : Kernel) (i : ℕ) (p : Proc)
    → Same (k.table i) p
    → (j : ℕ) → Same (k.table j) (update k.table i p j)
Same-set_proc k i p s j = elim (Bool-cases (j == i)) [
  | inl e ↦ rw (e, (==_iff j i).0 e) s
  | inr e ↦ rw e (record { state = refl; pid = refl; level = refl })
]
