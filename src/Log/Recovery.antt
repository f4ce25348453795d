-- ===== src/Log/Recovery.antt =====
-- recover_from_log of log.c, on a disk with or without a committed transaction, with the power
-- gone at any disk write.
use modified_xv.Base.{
  ℕ, zero, suc, ◌+◌, ◌≤◌, ◌<◌, ◌≡◌, ◌≢◌, refl, ap, ◌∙◌, Bool, true, false, arith, ◌==◌, ltb,
  if◌then◌else◌, window, has, Bool-cases, inl, inr, ==_iff, ◌⊎◌, ==_refl, ltb→lt,
}
use mathlib.Core.Path.{subst}
use modified_xv.Log.Blocks.{Layout, Machine, reboot}
use modified_xv.Log.{
  Header, slot, install_from, install_trans, write_head, read_head, recover_from_log,
}
use modified_xv.Log.Writes.{
  install_from_frame, power-install_from, install_from_hit, install_from_congr, disk-write_head,
  ne_test, spared, install_from_none,
}

module _ (L : Layout) (start : ℕ) (lh : Header) where
  open L use {Block, put_head, get_n, get_block, get-put_n, get-put_block}

  -- A block outside the header and the slots in use.
  pub record Home (x : ℕ) : Type 0 where
    pub not_head : x ≢ start
    pub not_slot : (a : ℕ) → a < lh.n → x ≢ slot start a

  abbrev pub is_logged : ℕ → Bool
  is_logged x = has x (window lh.block 0 lh.n)

  -- The disk holds `v` at home, and no transaction.
  pub record Settled (d v : ℕ → Block) : Type 0 where
    pub cleared : get_n (d start) ≡ 0
    pub home : (x : ℕ) → Home x → d x ≡ v x

  -- The disk holds the committed transaction that turns its home blocks into `v`.
  pub record Pending (d v : ℕ → Block) : Type 0 where
    pub count : get_n (d start) ≡ lh.n
    pub entry : (j : ℕ) → j < lh.n → get_block (d start) j ≡ lh.block j
    pub logged : (j : ℕ) → j < lh.n → d (slot start j) ≡ v (lh.block j)
    pub others : (x : ℕ) → Home x → is_logged x ≡ false → d x ≡ v x

  abbrev pub Recoverable : (ℕ → Block) → (ℕ → Block) → Type 0
  Recoverable d v = Settled d v ⊎ Pending d v

  module _ (at_home : (b : ℕ) → b < lh.n → Home (lh.block b)) where
    not_logged :
        (x i left : ℕ) → i + left ≤ lh.n → (Home x → ⊥) → has x (window lh.block i left) ≡ false
    not_logged x i zero h out = refl
    not_logged x i (suc left) h out =
        let rest = not_logged x (suc i) left (omega arith) out in
        elim (Bool-cases (lh.block i == x)) [
          | inl e ↦
              absurd (out (subst Home ((==_iff (lh.block i) x).0 e) (at_home i (omega arith))))
          | inr e ↦ rw (e, rest)
        ]

    head_not_logged : is_logged start ≡ false
    head_not_logged = not_logged start 0 lh.n (omega arith) (λ h. h.not_head refl)

    slot_not_logged : (a : ℕ) → a < lh.n → is_logged (slot start a) ≡ false
    slot_not_logged a h = not_logged (slot start a) 0 lh.n (omega arith) (λ k. k.not_slot a h refl)

    pub apart : (a b : ℕ) → a < 0 + lh.n → b < 0 + lh.n → lh.block b ≢ slot start a
    apart a b g h = (at_home b (omega arith)).not_slot a (omega arith)

    pub slot_ne_start : (j : ℕ) → (slot start j == start) ≡ false
    slot_ne_start j = ground arith

    -- The entries `rest` behind a count of 0 are not looked at.
    abbrev pub clear : (ℕ → ℕ) → Machine Block → Machine Block
    clear rest m =
        write_head L start (record { n = 0; block = rest }) (install_from L start lh.block 0 lh.n m)

    -- Installing a pending transaction and clearing the header, with the power gone before the
    -- header is cleared: the transaction is still pending.
    finish-dead :
        (rest : ℕ → ℕ) (m : Machine Block) (v : ℕ → Block)
        → m.power ≤ lh.n
        → Pending m.disk v
        → Pending (clear rest m).disk v
    finish-dead rest m v low p =
        let m' = install_from L start lh.block 0 lh.n m in
        let off : (m'.power == 0) ≡ true =
          ground (arith, power-install_from L start lh.block 0 lh.n m) in
        let same : (x : ℕ) → is_logged x ≡ false → (clear rest m).disk x ≡ m.disk x = (λ x h.
          disk-write_head L start (record { n = 0; block = rest }) x m'
          ∙ rw off (install_from_frame L start lh.block x 0 lh.n m h).1) in
        let head = same start head_not_logged in
        record {
          count = rw head p.count;
          entry = λ j h. rw head (p.entry j h);
          logged = λ j h. same (slot start j) (slot_not_logged j h) ∙ p.logged j h;
          others = λ x h out. same x out ∙ p.others x h out;
        }

    -- With more power the home blocks are brought to `v` and the header is cleared.
    finish-live :
        (rest : ℕ → ℕ) (m : Machine Block) (v : ℕ → Block)
        → lh.n < m.power
        → ((j : ℕ) → j < lh.n → m.mem (slot start j) ≡ v (lh.block j))
        → Pending m.disk v
        → Settled (clear rest m).disk v
    finish-live rest m v high slots p =
        let m' = install_from L start lh.block 0 lh.n m in
        let on : (m'.power == 0) ≡ false =
          ground (arith, power-install_from L start lh.block 0 lh.n m) in
        record {
          cleared =
              rw
                (
                  disk-write_head L start (record { n = 0; block = rest }) start m',
                  on,
                  ==_refl start,
                )
                (get-put_n 0 rest (m'.mem start));
          home = λ x h.
              let kept : (clear rest m).disk x ≡ m'.disk x =
                disk-write_head L start (record { n = 0; block = rest }) x m'
                ∙ rw (on, ne_test x start h.not_head) in
              elim (Bool-cases (is_logged x)) [
                | inl e ↦
                    kept
                    ∙ (install_from_hit L start lh.block v x 0 lh.n m apart
                        (λ j a b. slots j (omega arith)) e (omega arith)).1
                | inr e ↦
                    kept ∙ (install_from_frame L start lh.block x 0 lh.n m e).1 ∙ p.others x h e
              ];
        }

    pub finish :
        (rest : ℕ → ℕ) (m : Machine Block) (v : ℕ → Block)
        → ((j : ℕ) → j < lh.n → m.mem (slot start j) ≡ v (lh.block j))
        → Pending m.disk v
        → Recoverable (clear rest m).disk v
    finish rest m v slots p = elim (Bool-cases (ltb lh.n m.power)) [
      | inl e ↦ inl (finish-live rest m v (ltb→lt _ _ e) slots p)
      | inr e ↦ inr (finish-dead rest m v (ground arith) p)
    ]

    -- A recovery that starts from a disk with nothing pending writes the header only.
    recover-Settled :
        (q : ℕ) (m : Machine Block) (v : ℕ → Block)
        → Settled m.disk v
        → Settled (recover_from_log L start (reboot q m)).disk v
    unfolding recover_from_log read_head reboot install_trans
    recover-Settled q m v s =
        let b = get_block (m.disk start) in
        let r : Machine Block = reboot q m in
        let m' = install_from L start b 0 (get_n (m.disk start)) r in
        let none : m' ≡ r =
          ap (λ n. install_from L start b 0 n r) s.cleared ∙ install_from_none L start b r in
        let disk : (x : ℕ)
            → (write_head L start (record { n = 0; block = b }) m').disk x ≡ (
                if q == 0
                then m.disk x
                else if x == start
                then put_head 0 b (m.disk start)
                else m.disk x) =
          (λ x.
            ap (λ w. (write_head L start (record { n = 0; block = b }) w).disk x) none
            ∙ disk-write_head L start (record { n = 0; block = b }) x r) in
        record {
          cleared = elim (Bool-cases (q == 0)) [
            | inl e ↦ rw (disk start, e) s.cleared
            | inr e ↦ rw (disk start, e, ==_refl start) (get-put_n 0 b (m.disk start))
          ];
          home = λ x h.
              disk x
              ∙ spared (put_head 0 b (m.disk start)) (ne_test x start h.not_head) (q == 0)
              ∙ s.home x h;
        }

    recover-Pending :
        (q : ℕ) (m : Machine Block) (v : ℕ → Block)
        → Pending m.disk v
        → recover_from_log L start (reboot q m) ≡ clear (get_block (m.disk start)) (reboot q m)
    unfolding recover_from_log read_head reboot install_trans
    recover-Pending q m v p =
        let b = get_block (m.disk start) in
        let r : Machine Block = reboot q m in
        ap (write_head L start (record { n = 0; block = b })) (
          ap (λ n. install_from L start b 0 n r) p.count
          ∙ install_from_congr L start b lh.block 0 lh.n r (λ j x y. p.entry j (omega arith)))

    -- A recovery keeps what the next one needs, wherever the power goes.
    pub recover-Recoverable :
        (q : ℕ) (m : Machine Block) (v : ℕ → Block)
        → Recoverable m.disk v
        → Recoverable (recover_from_log L start (reboot q m)).disk v
    unfolding reboot
    recover-Recoverable q m v (inl s) = inl (recover-Settled q m v s)
    recover-Recoverable q m v (inr p) =
        rw (recover-Pending q m v p) (finish (get_block (m.disk start)) (reboot q m) v p.logged p)

    -- Where the disk is settled at `v` or holds a committed transaction that leads to `v`, a
    -- recovery with power for more than `n` writes ends with the home blocks at `v` and the header
    -- clear.
    pub recover_complete :
        (q : ℕ) (m : Machine Block) (v : ℕ → Block)
        → lh.n < q
        → Recoverable m.disk v
        → Settled (recover_from_log L start (reboot q m)).disk v
    unfolding reboot
    recover_complete q m v h (inl s) = recover-Settled q m v s
    recover_complete q m v h (inr p) =
        rw (recover-Pending q m v p)
          (finish-live (get_block (m.disk start)) (reboot q m) v h p.logged p)
