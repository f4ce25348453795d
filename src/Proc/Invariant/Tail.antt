-- ===== src/Proc/Invariant/Tail.antt =====
-- Where a process of proc.c enters the queues when it becomes RUNNABLE.
use modified_xv.Base.{
  ℕ, ◌+◌, ◌<◌, ◌≡◌, ◌≢◌, refl, ap, sym, ◌∙◌, Bool, true, not, ◌||◌, List, [], ◌∷◌, ◌++◌, arith, min,
  ◌==◌, ==_iff, ==_refl, if◌then◌else◌, Bool-cases, inl, inr,
}
use modified_xv.Proc.State.{ProcState, Proc, Kernel, nproc, slt}
use modified_xv.Proc.Table.{Scheduler}
use modified_xv.Proc.Queue.{contents, enqueue}
use modified_xv.Proc.Queue.Refine.{contents-append}
use modified_xv.Proc.Wake.{make_runnable}
use modified_xv.Proc.Select.{is_runnable}
use modified_xv.Proc.Tick.{max_queue_ticks}
use modified_xv.Proc.Mlfq.{demote, return_from}
use modified_xv.Proc.Invariant.{Inv, IsValid, lift, write}
use modified_xv.Proc.Invariant.Queues.{find-absent, absent}
use modified_xv.Proc.Invariant.Schedule.{demote-level, demote-state, demote-pid}

-- The contents of queue `l` once process `i` of level `m` has joined.
abbrev pub joined : Kernel → ℕ → ℕ → ℕ → List ℕ
joined k i m l = if l == m then contents (k.queues l) ++ (i ∷ []) else contents (k.queues l)

enqueue-tail :
    {k : Kernel} (i l : ℕ)
    → Inv i k
    → i < nproc
    → (k.table i).state ≡ ProcState.runnable
    → contents ((enqueue i k).queues l) ≡ joined k i (k.table i).cur_q l
unfolding enqueue
enqueue-tail {k} i l v small r =
    let p = k.table i in
    let low = v.level i small in
    let used : p.state ≢ ProcState.unused = rw r (λ c. cc) in
    rw (find-absent i small used v p.cur_q low (absent i v p.cur_q low), enqueue)
      (elim (Bool-cases (l == p.cur_q)) [
        | inl e ↦ rw e (
            contents-append (k.queues p.cur_q) i
            ∙ ap (λ m. contents (k.queues m) ++ (i ∷ [])) (sym ((==_iff l p.cur_q).0 e)))
        | inr e ↦ rw e refl
      ])

-- In a valid state, a process that is neither RUNNABLE nor UNUSED and is made RUNNABLE under MLFQ
-- is appended to the queue of its level, and the other queues keep their contents.
pub make_runnable-tail :
    (k : Kernel) (i l : ℕ)
    → IsValid k
    → i < nproc
    → (k.table i).state ≢ ProcState.runnable
    → (k.table i).state ≢ ProcState.unused
    → contents ((make_runnable Scheduler.mlfq i k).queues l) ≡ joined k i (k.table i).cur_q l
unfolding make_runnable
make_runnable-tail k i l v small nr nu =
    enqueue-tail i l
      (write i small (record (k.table i) { state = ProcState.runnable }) (lift i small v nr)
        (v.level i small) (λ _. v.pids i small nu))
      small (rw (==_refl i) refl)
    ∙ rw (==_refl i) refl

-- The process was marked, or has used the slice of its level.
abbrev pub used_slice : Proc → Bool
used_slice p = p.flg || not (slt (p.q p.cur_q) (max_queue_ticks p.cur_q))

-- The level that a process returns to.
abbrev pub next_level : Proc → ℕ
next_level p = if used_slice p then min (p.cur_q + 1) 4 else p.cur_q

demoted-level : (p : Proc) → p.cur_q < 5 → (demote p).cur_q ≡ next_level p
unfolding demote
demoted-level p h = elim (Bool-cases (used_slice p)) [
  | inl e ↦ rw e (ground arith)
  | inr e ↦ rw e refl
]

-- Where the invariant holds but for process `i`, which comes back from `swtch` RUNNABLE:
-- `return_from` appends it to the queue of its next level, which is one larger but at most 4 if it
-- was marked or has used the slice of its level, and the same otherwise; the other queues keep
-- their contents.
pub return_from-tail :
    (k : Kernel) (i l : ℕ)
    → Inv i k
    → i < nproc
    → (k.table i).state ≡ ProcState.runnable
    → contents ((return_from i k).queues l) ≡ joined k i (next_level (k.table i)) l
unfolding return_from
return_from-tail k i l v small r =
    let p = k.table i in
    let on : is_runnable k.table i ≡ true = rw r refl in
    rw on (
      enqueue-tail i l
        (write i small (demote p) v (demote-level p (v.level i small))
          (λ _. rw (demote-pid p) (v.pids i small (rw r (λ c. cc)))))
        small (rw (==_refl i) (demote-state p ∙ r))
      ∙ rw (==_refl i, demoted-level p (v.level i small)) refl)
