-- ===== src/Proc/Invariant/Queues.antt =====
-- The loops over a queue of proc.c, under the invariant.
use modified_xv.Base.{
  ℕ, ◌<◌, ◌≡◌, ◌≢◌, refl, sym, ap, ◌∙◌, true, false, none, List, [], ◌∷◌, ◌++◌, arith, ◌==◌, has,
  erase, ◌⊎◌, inl, inr, Bool-cases, Option-cases, ==_iff, ==_refl, has-append, NoDup-snoc,
  has-erase_ne, has-erase_self, NoDup-erase,
}
use modified_xv.Proc.State.{ProcState, Proc, Row, Kernel, set_row, nproc}
use modified_xv.Proc.Queue.{find, remove, append, enqueue, contents}
use modified_xv.Proc.Queue.Refine.{has_pid, erase_pid, find-some, contents-remove, contents-append}
use modified_xv.Proc.Invariant.{Inv, IsValid, write, ne→false}

module _ (table : ℕ → Proc) (i : ℕ) where
  abbrev ByPid : List ℕ → Type 0
  ByPid xs = (y : ℕ) → has y xs ≡ true → ((table y).pid == (table i).pid) ≡ (y == i)

  tail-ByPid : (x : ℕ) (xs : List ℕ) → ByPid (x ∷ xs) → ByPid xs
  tail-ByPid x xs h y m = h y (ground arith)

  head-ByPid : (x : ℕ) (xs : List ℕ) → ByPid (x ∷ xs) → ((table x).pid == (table i).pid) ≡ (x == i)
  head-ByPid x xs h = h x (ground arith)

  has_pid-has : (xs : List ℕ) → ByPid xs → has_pid table (table i).pid xs ≡ has i xs
  has_pid-has [] h = refl
  has_pid-has (x ∷ xs) h = rw (head-ByPid x xs h, has_pid-has xs (tail-ByPid x xs h))

  erase_pid-erase : (xs : List ℕ) → ByPid xs → erase_pid table (table i).pid xs ≡ erase i xs
  erase_pid-erase [] h = refl
  erase_pid-erase (x ∷ xs) h = rw (head-ByPid x xs h, erase_pid-erase xs (tail-ByPid x xs h))

module _ {e : ℕ} {k : Kernel} (i : ℕ) (small : i < nproc)
    (used : (k.table i).state ≢ ProcState.unused) where
  eq_pid :
      Inv e k
      → (y : ℕ) → y < nproc
      → (k.table y).state ≢ ProcState.unused
      → ((k.table y).pid == (k.table i).pid) ≡ (y == i)
  eq_pid v y h u = elim (Bool-cases (y == i)) [
    | inl c ↦ rw (c, (==_iff y i).0 c) ((==_iff (k.table i).pid (k.table i).pid).1 refl)
    | inr c ↦ rw c (ne→false ((v.pids i small used).unique y h (λ d. cc (c, (==_iff y i).1 d)) u))
  ]

  ByPid-contents : Inv e k → (l : ℕ) → l < 5 → ByPid k.table i (contents (k.queues l))
  ByPid-contents v l h y m = let q = v.member l y h m in eq_pid v y q.small (rw q.ready (λ c. cc))

  -- The search of queue `l` answers whether the process stands in it.
  pub has_pid-contents :
      Inv e k
      → (l : ℕ) → l < 5
      → has_pid k.table (k.table i).pid (contents (k.queues l)) ≡ has i (contents (k.queues l))
  has_pid-contents v l h = has_pid-has k.table i _ (ByPid-contents v l h)

  pub contents-remove-erase :
      Inv e k
      → (l : ℕ) → l < 5
      → contents (remove k.table (k.table i).pid (k.queues l)) ≡ erase i (contents (k.queues l))
  contents-remove-erase v l h =
      contents-remove k.table (k.table i).pid (k.queues l)
      ∙ erase_pid-erase k.table i _ (ByPid-contents v l h)

  -- A process that queue `l` does not hold is not found there.
  pub find-absent :
      Inv e k
      → (l : ℕ) → l < 5
      → has i (contents (k.queues l)) ≡ false
      → find k.table (k.table i).pid (k.queues l) ≡ none
  find-absent v l h out = elim (Option-cases (find k.table (k.table i).pid (k.queues l))) [
    | inl e ↦ e
    | inr (j, e) ↦
        cc (has_pid-contents v l h, (find-some k.table (k.table i).pid (k.queues l) j e).0)
  ]

-- The process on its way stands in no queue.
pub absent :
    {k : Kernel} (i : ℕ) → Inv i k → (l : ℕ) → l < 5 → has i (contents (k.queues l)) ≡ false
absent {k} i v l h = elim (Bool-cases (has i (contents (k.queues l)))) [
  | inl m ↦ absurd ((v.member l i h m).other refl)
  | inr n ↦ n
]

entered : (j i : ℕ) (xs : List ℕ) → has j (xs ++ (i ∷ [])) ≡ true → (has j xs ≡ true) ⊎ (j ≡ i)
entered j i xs h = ground (arith, has-append j xs (i ∷ []))

has-snoc : (j i : ℕ) (xs : List ℕ) → has j xs ≡ true → has j (xs ++ (i ∷ [])) ≡ true
has-snoc j i xs h = ground (arith, has-append j xs (i ∷ []))

has-snoc_self : (i : ℕ) (xs : List ℕ) → has i (xs ++ (i ∷ [])) ≡ true
has-snoc_self i xs = ground (arith, has-append i xs (i ∷ []))

module _ {k : Kernel} (i l : ℕ) (row : Row) (low : l < 5) where
  -- A row with the process appended takes it in.
  pub enter :
      Inv i k
      → i < nproc
      → (k.table i).state ≡ ProcState.runnable
      → (k.table i).cur_q ≡ l
      → contents row ≡ contents (k.queues l) ++ (i ∷ [])
      → IsValid (set_row k l row)
  enter v small r c ct = record {
    member = λ m j h x. elim (Bool-cases (m == l)) [
      | inl e ↦ elim (entered j i _ (rw (e, ct) at x)) [
        | inl old ↦
            let q = v.member l j low old in
            record {
              small = q.small;
              other = omega (arith, q.small);
              ready = q.ready;
              level = q.level ∙ sym ((==_iff m l).0 e);
            }
        | inr new ↦ record {
          small = rw new small;
          other = omega arith;
          ready = rw new r;
          level = rw new (c ∙ sym ((==_iff m l).0 e));
        }
      ]
      | inr e ↦
          let q = v.member m j h (rw e at x) in
          record {
            small = q.small;
            other = omega (arith, q.small);
            ready = q.ready;
            level = q.level;
          }
    ];
    nodup = λ m h. elim (Bool-cases (m == l)) [
      | inl e ↦ rw (e, ct) (NoDup-snoc i _ (absent i v l low) (v.nodup l low))
      | inr e ↦ rw e (v.nodup m h)
    ];
    queued = λ j h o r'. elim (Bool-cases (j == i)) [
      | inl e ↦ rw ((==_iff j i).0 e, c, (==_iff l l).1 refl, ct) (has-snoc_self i _)
      | inr e ↦
          let old = v.queued j h (λ d. cc (e, (==_iff j i).1 d)) r' in
          elim (Bool-cases ((k.table j).cur_q == l)) [
            | inl d ↦ rw (d, ct) (has-snoc j i _ (rw ((==_iff _ l).0 d) at old))
            | inr d ↦ rw d old
          ]
    ];
    level = v.level;
    started = v.started;
    pids = v.pids;
  }

  -- A row without the process lets it go.
  pub exit :
      IsValid k
      → i < nproc
      → contents row ≡ erase i (contents (k.queues l))
      → has i (contents (k.queues l)) ≡ true
      → Inv i (set_row k l row)
  exit v small ct x = record {
    member = λ m j h y. elim (Bool-cases (m == l)) [
      | inl e ↦
          let z = rw (e, ct) at y in
          let ne : j ≢ i = (λ c. cc (rw c at z, has-erase_self i _ (v.nodup l low))) in
          let q = v.member l j low (sym (has-erase_ne i j _ (ne→false (λ c. ne (sym c)))) ∙ z) in
          record {
            small = q.small;
            other = ne;
            ready = q.ready;
            level = q.level ∙ sym ((==_iff m l).0 e);
          }
      | inr e ↦
          let q = v.member m j h (rw e at y) in
          let p = v.member l i low x in
          record {
            small = q.small;
            other =
                λ c. cc (e, (==_iff m l).1 (sym q.level ∙ ap (λ a. (k.table a).cur_q) c ∙ p.level));
            ready = q.ready;
            level = q.level;
          }
    ];
    nodup = λ m h. elim (Bool-cases (m == l)) [
      | inl e ↦ rw (e, ct) (NoDup-erase i _ (v.nodup l low))
      | inr e ↦ rw e (v.nodup m h)
    ];
    queued = λ j h o r'.
        let old = v.queued j h (omega arith) r' in
        elim (Bool-cases ((k.table j).cur_q == l)) [
          | inl d ↦
              rw (d, ct)
                (has-erase_ne i j _ (ne→false (λ c. o (sym c))) ∙ (rw ((==_iff _ l).0 d) at old))
          | inr d ↦ rw d old
        ];
    level = v.level;
    started = v.started;
    pids = v.pids;
  }

-- The shared block appends a RUNNABLE process that is on its way, and completes the invariant.
pub enqueue-IsValid :
    {k : Kernel} (i : ℕ)
    → Inv i k
    → i < nproc
    → (k.table i).state ≡ ProcState.runnable
    → IsValid (enqueue i k)
unfolding enqueue
enqueue-IsValid {k} i v small r =
    let p = k.table i in
    let low = v.level i small in
    let used : p.state ≢ ProcState.unused = rw r (λ c. cc) in
    rw (find-absent i small used v p.cur_q low (absent i v p.cur_q low), enqueue)
      (enter i p.cur_q (append (k.queues p.cur_q) i) low
        (write i small (record p { qtime = k.ticks }) v low (λ _. v.pids i small used)) small
        (rw (==_refl i) r) (rw (==_refl i)) (contents-append (k.queues p.cur_q) i))
