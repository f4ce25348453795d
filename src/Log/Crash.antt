-- ===== src/Log/Crash.antt =====
-- commit of log.c with the power gone at any disk write, and recoveries after it.
use modified_xv.Base.{
  ℕ, ◌≤◌, ◌<◌, ◌≡◌, ◌≢◌, sym, ◌∙◌, true, false, List, [], ◌∷◌, arith, ◌==◌, ltb, if◌then◌else◌,
  Bool-cases, inl, inr, ==_refl, ltb→lt, lt→ltb,
}
use modified_xv.Log.Blocks.{Layout, Machine, reboot}
use modified_xv.Log.{
  Header, slot, install_from, install_trans, write_from, write_log, write_head, recover_from_log,
  commit,
}
use modified_xv.Log.Writes.{
  write_from_frame, power-write_from, write_from-slot, power-install_from, install_from_dead,
  disk-write_head, mem-write_head, power-write_head, ne_test,
}
use modified_xv.Log.Recovery.{
  Home, Settled, Pending, Recoverable, is_logged, apart, slot_ne_start, clear, finish,
  recover-Recoverable, recover_complete,
}

module _ (L : Layout) (start : ℕ) (lh : Header) where
  open L use {Block, put_head, get_n, get_block, get-put_n, get-put_block}

  module _ (at_home : (b : ℕ) → b < lh.n → Home L start lh (lh.block b)) where
    -- The state before `commit`: the disk has no transaction, and memory differs from it at home
    -- only in logged blocks.
    pub record Clean (m : Machine Block) : Type 0 where
      pub cleared : get_n (m.disk start) ≡ 0
      pub fresh : (x : ℕ) → Home L start lh x → is_logged L start lh x ≡ false → m.mem x ≡ m.disk x

    -- The first two stages of `commit`.
    abbrev sealed : Machine Block → Machine Block
    sealed m = write_head L start lh (write_from L start lh.block 0 lh.n m)

    sealed-Pending :
        (m : Machine Block) → Clean m → lh.n < m.power → Pending L start lh (sealed m).disk m.mem
    sealed-Pending m c h =
        let w = write_from L start lh.block 0 lh.n m in
        let on : (w.power == 0) ≡ false =
          ground (arith, power-write_from L start lh.block 0 lh.n m) in
        let head : (sealed m).disk start ≡ put_head lh.n lh.block (w.mem start) =
          disk-write_head L start lh start w ∙ rw (on, ==_refl start) in
        record {
          count = rw head (get-put_n lh.n lh.block (w.mem start));
          entry = λ j k. rw head (get-put_block lh.n lh.block (w.mem start) j k);
          logged = λ j k.
              disk-write_head L start lh (slot start j) w
              ∙ rw (on, slot_ne_start L start lh at_home j)
                  (write_from-slot L start lh.block j 0 lh.n m (apart L start lh at_home)
                    (omega arith) (omega arith) (omega arith)).1;
          others = λ x k out.
              disk-write_head L start lh x w
              ∙ rw (on, ne_test x start k.not_head)
                  ((write_from_frame L start lh.block x 0 lh.n m
                      (λ j a b. k.not_slot j (omega arith))).1
                    ∙ sym (c.fresh x k out));
        }

    sealed-slots :
        (m : Machine Block)
        → lh.n < m.power
        → (j : ℕ) → j < lh.n
        → (sealed m).mem (slot start j) ≡ m.mem (lh.block j)
    sealed-slots m h j k =
        mem-write_head L start lh (slot start j) (write_from L start lh.block 0 lh.n m)
        ∙ rw (slot_ne_start L start lh at_home j)
            (write_from-slot L start lh.block j 0 lh.n m (apart L start lh at_home) (omega arith)
              (omega arith) (omega arith)).0

    -- With the power gone before the header is written, the disk is as before at home.
    commit-dead :
        (m : Machine Block)
        → Clean m
        → m.power ≤ lh.n
        → Settled L start lh (clear L start lh at_home lh.block (sealed m)).disk m.disk
    commit-dead m c h =
        let w = write_from L start lh.block 0 lh.n m in
        let off : (w.power == 0) ≡ true =
          ground (arith, power-write_from L start lh.block 0 lh.n m) in
        let s = sealed m in
        let dead : s.power ≡ 0 =
          omega
            (arith, power-write_head L start lh w, power-write_from L start lh.block 0 lh.n m) in
        let i = install_from L start lh.block 0 lh.n s in
        let off' : (i.power == 0) ≡ true =
          ground (arith, power-install_from L start lh.block 0 lh.n s) in
        let same : (x : ℕ)
            → ((j : ℕ) → j < lh.n → x ≢ slot start j)
            → (clear L start lh at_home lh.block s).disk x ≡ m.disk x =
          (λ x out.
            disk-write_head L start (record { n = 0; block = lh.block }) x i
            ∙ rw off' (
                install_from_dead L start lh.block x 0 lh.n s dead
                ∙ disk-write_head L start lh x w
                ∙ rw off
                    (write_from_frame L start lh.block x 0 lh.n m
                      (λ j a b. out j (omega arith))).1)) in
        record {
          cleared = rw (same start (λ j k. omega arith)) c.cleared;
          home = λ x k. same x k.not_slot;
        }

    -- `commit`, stopped after any number of disk writes, leaves a disk from which recovery gives
    -- the home blocks of before, if the header was not written, and those in memory otherwise.
    pub commit-Recoverable :
        (m : Machine Block)
        → 0 < lh.n
        → Clean m
        → Recoverable L start lh
            (commit L start lh m).disk
            (if ltb lh.n m.power then m.mem else m.disk)
    unfolding commit write_log install_trans
    commit-Recoverable m full c = rw (lt→ltb 0 lh.n full) (elim (Bool-cases (ltb lh.n m.power)) [
      | inl e ↦ rw e (
          finish L start lh at_home lh.block (sealed m) m.mem (sealed-slots m (ltb→lt _ _ e))
            (sealed-Pending m c (ltb→lt _ _ e)))
      | inr e ↦ rw e (inl (commit-dead m c (ground arith)))
    ])

    -- Recoveries that are cut short after these numbers of writes.
    pub recoveries : List ℕ → Machine Block → Machine Block
    recoveries [] m = m
    recoveries (q ∷ qs) m = recoveries qs (recover_from_log L start (reboot q m))

    recoveries-Recoverable :
        (qs : List ℕ) (m : Machine Block) (v : ℕ → Block)
        → Recoverable L start lh m.disk v
        → Recoverable L start lh (recoveries qs m).disk v
    unfolding recoveries
    recoveries-Recoverable [] m v r = r
    recoveries-Recoverable (q ∷ qs) m v r =
        recoveries-Recoverable qs (recover_from_log L start (reboot q m)) v
          (recover-Recoverable L start lh at_home q m v r)

    -- A transaction is atomic. Where every logged block is a home block, the disk's header is
    -- clear and memory differs from the disk at home only in logged blocks: after a `commit` of at
    -- least one entry that is cut short after any number of disk writes, then any number of
    -- recoveries that are cut short, then a recovery with power for more than `n` writes, every
    -- home block is what it was on disk before if power was there for at most `n` writes, and what
    -- it was in memory otherwise.
    pub commit_atomic :
        (m : Machine Block) (qs : List ℕ) (q x : ℕ)
        → 0 < lh.n
        → Clean m
        → lh.n < q
        → Home L start lh x
        → (recover_from_log L start (reboot q (recoveries qs (commit L start lh m)))).disk x
          ≡ (if ltb lh.n m.power then m.mem else m.disk) x
    commit_atomic m qs q x full c h k =
        (recover_complete L start lh at_home q (recoveries qs (commit L start lh m)) _ h
            (recoveries-Recoverable qs (commit L start lh m) _ (commit-Recoverable m full c))).home
          x k
