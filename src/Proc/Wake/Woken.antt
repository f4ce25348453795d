-- ===== src/Proc/Wake/Woken.antt =====
-- Which processes a wakeup makes RUNNABLE, under each scheduler.
use modified_xv.Base.{
  ℕ, zero, suc, ◌+◌, ◌<◌, ◌≡◌, refl, ◌∙◌, Bool, true, false, ◌&&◌, arith, ◌==◌, ltb, leb,
  if◌then◌else◌, Bool-cases, Option-cases, inl, inr, ==_iff,
}
use modified_xv.Proc.State.{ProcState, Proc, Kernel, set_proc, state_eq, nproc}
use modified_xv.Proc.Queue.{find, enqueue}
use modified_xv.Proc.Table.{Scheduler, is_mlfq, each}
use modified_xv.Proc.Wake.{make_runnable, stamp, wake_one, wakeup1}

abbrev pub sleeps_on : ℕ → Proc → Bool
sleeps_on chan p = state_eq p.state ProcState.sleeping && (p.chan == chan)

-- Queueing changes no state and no channel.
enqueue-state :
    (i j : ℕ) (k : Kernel)
    → (((enqueue i k).table j).state ≡ (k.table j).state)
      × (((enqueue i k).table j).chan ≡ (k.table j).chan)
unfolding enqueue
enqueue-state i j k =
    elim (Option-cases (find k.table (k.table i).pid (k.queues (k.table i).cur_q))) [
      | inl e ↦ elim (Bool-cases (j == i)) [
        | inl d ↦ rw (e, enqueue, d, (==_iff j i).0 d) (refl, refl)
        | inr d ↦ rw (e, enqueue, d) (refl, refl)
      ]
      | inr (p, e) ↦ rw (e, enqueue) (refl, refl)
    ]

abbrev pub woken : ℕ → Proc → ProcState
woken chan p = if sleeps_on chan p then ProcState.runnable else p.state

-- What the change of the state alone does.
readied :
    (i j : ℕ) (k : Kernel)
    → let k' = set_proc k i (record (k.table i) { state = ProcState.runnable }) in
      ((k'.table j).state ≡ (if j == i then ProcState.runnable else (k.table j).state))
      × ((k'.table j).chan ≡ (k.table j).chan)
readied i j k = elim (Bool-cases (j == i)) [
  | inl d ↦ rw (d, (==_iff j i).0 d) (refl, refl)
  | inr d ↦ rw d (refl, refl)
]

make_runnable-state :
    (s : Scheduler) (i j : ℕ) (k : Kernel)
    → (((make_runnable s i k).table j).state
        ≡ (if j == i then ProcState.runnable else (k.table j).state))
      × (((make_runnable s i k).table j).chan ≡ (k.table j).chan)
unfolding make_runnable
make_runnable-state Scheduler.rr i j k = readied i j k
make_runnable-state Scheduler.fcfs i j k = readied i j k
make_runnable-state Scheduler.pbs i j k = readied i j k
make_runnable-state Scheduler.mlfq i j k =
    let e = enqueue-state i j (set_proc k i (record (k.table i) { state = ProcState.runnable })) in
    let r = readied i j k in (e.0 ∙ r.0, e.1 ∙ r.1)

stamp-state :
    (i j : ℕ) (k : Kernel)
    → (((stamp i k).table j).state ≡ (k.table j).state)
      × (((stamp i k).table j).chan ≡ (k.table j).chan)
unfolding stamp
stamp-state i j k = elim (Bool-cases (j == i)) [
  | inl d ↦ rw (d, (==_iff j i).0 d) (refl, refl)
  | inr d ↦ rw d (refl, refl)
]

stamped-state :
    (s : Scheduler) (i j : ℕ) (k : Kernel)
    → let k' = if is_mlfq s then stamp i k else k in
      ((k'.table j).state ≡ (k.table j).state) × ((k'.table j).chan ≡ (k.table j).chan)
stamped-state Scheduler.rr i j k = (refl, refl)
stamped-state Scheduler.fcfs i j k = (refl, refl)
stamped-state Scheduler.pbs i j k = (refl, refl)
stamped-state Scheduler.mlfq i j k = stamp-state i j k

wake_one-state :
    (s : Scheduler) (chan i j : ℕ) (k : Kernel)
    → (((wake_one s chan i k).table j).state
        ≡ (if j == i then woken chan (k.table j) else (k.table j).state))
      × (((wake_one s chan i k).table j).chan ≡ (k.table j).chan)
unfolding wake_one
wake_one-state s chan i j k = elim (Bool-cases (sleeps_on chan (k.table i))) [
  | inr e ↦ elim (Bool-cases (j == i)) [
    | inl d ↦ rw (e, d, (==_iff j i).0 d) (rw e refl, refl)
    | inr d ↦ rw (e, d) (refl, refl)
  ]
  | inl e ↦
      let m = make_runnable-state s i j k in
      let t = stamped-state s i j (make_runnable s i k) in
      let target : (if j == i then ProcState.runnable else (k.table j).state)
          ≡ (if j == i then woken chan (k.table j) else (k.table j).state) =
        elim (Bool-cases (j == i)) [
          | inl d ↦ rw (d, (==_iff j i).0 d) (rw e refl)
          | inr d ↦ rw d refl
        ] in
      rw e (t.0 ∙ m.0 ∙ target, t.1 ∙ m.1)
]

-- A sleeper on the channel is awake after its round, and no other process changes.
wakes :
    (s : Scheduler) (chan i left j : ℕ) (k : Kernel)
    → ((each (wake_one s chan) i left k).table j).state
      ≡ (if leb i j && ltb j (i + left) then woken chan (k.table j) else (k.table j).state)
unfolding each
wakes s chan i zero j k = ground arith
wakes s chan i (suc left) j k =
    let (state, same) = wake_one-state s chan i j k in
    let ih = wakes s chan (suc i) left j (wake_one s chan i k) in
    elim (Bool-cases (j == i)) [
      | inl d ↦
          let past : (leb (suc i) j && ltb j (suc i + left)) ≡ false = ground arith in
          let now : (leb i j && ltb j (i + suc left)) ≡ true = ground arith in
          rw now (ih ∙ rw past (state ∙ rw d refl))
      | inr d ↦
          let unmoved : ((wake_one s chan i k).table j).state ≡ (k.table j).state =
            state ∙ rw d refl in
          let later : (leb (suc i) j && ltb j (suc i + left)) ≡ (leb i j && ltb j (i + suc left)) =
            ground arith in
          ih ∙ rw (later, unmoved, same) refl
    ]

-- Under each scheduler, `wakeup1` makes a process of the table that sleeps on the channel
-- RUNNABLE, and leaves the state of every other one as it is.
pub wakeup1-state :
    (s : Scheduler) (chan j : ℕ) (k : Kernel)
    → j < nproc
    → ((wakeup1 s chan k).table j).state
      ≡ (if sleeps_on chan (k.table j) then ProcState.runnable else (k.table j).state)
unfolding wakeup1
wakeup1-state s chan j k small =
    let now : (leb 0 j && ltb j (0 + nproc)) ≡ true = ground arith in
    wakes s chan 0 nproc j k ∙ rw now refl
