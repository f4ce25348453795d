-- ===== src/Fs/Inode/Itrunc.antt =====
-- itrunc of fs.c as a whole.
use modified_xv.Base.{
  ℕ, ◌+◌, ◌-◌, ◌/◌, ◌≤◌, ◌<◌, ◌≡◌, ◌≢◌, refl, sym, ap, ◌∙◌, true, false, some, ◌==◌, ==_iff, ltb,
  arith, Bool-cases, inl, inr, ◌⊎◌, update, if_ind,
}
use modified_xv.Fs.Blocks.{Fs, bfree}
use modified_xv.Fs.Blocks.Bitmap.{used}
use modified_xv.Fs.Inode.{
  Inode, ndirect, nindirect, maxfile, entry, free_direct, free_entries, itrunc, iupdate, iblock,
}
use modified_xv.Fs.Inode.Slots.{slot, IsHeld, IsForeign, IsSound}
use modified_xv.Fs.Inode.Sweep.{IsSwept, IsSwept-trans, IsSwept-map, bfree-held}
use modified_xv.Fs.Inode.Store.{
  iupdate-IsSound, used-iupdate, slot-iupdate, iupdate-IsForeign, block-iupdate, size-iupdate,
  inodes-iupdate, resized, resized-IsSound, resized-IsForeign,
}
use modified_xv.Fs.Inode.Trunc.{Named, IsOwned, free_direct_lem, free_entries_lem}

-- The blocks of an inode.
abbrev Owns : Inode → Fs → ℕ → Type 0
Owns ip s a = (k : ℕ) × (k ≤ maxfile) × (slot ip s k ≡ a) × (a ≢ 0)

-- An inode without blocks, after the freeing of those that it had.
pub record IsEmptied (ip : Inode) (s : Fs) (ip' : Inode) (s' : Fs) : Type 0 where
  pub sound : IsSound ip' s'
  pub empty : (k : ℕ) → k ≤ maxfile → slot ip' s' k ≡ 0
  pub size : ip'.size ≡ 0
  pub blocks_kept : s'.size ≡ s.size
  pub inum_kept : ip'.inum ≡ ip.inum
  pub same_home : iblock s' ip'.inum ≡ iblock s ip.inum
  pub home_kept : IsForeign ip' s' (iblock s' ip'.inum)
  pub freed : (k : ℕ) → k ≤ maxfile → slot ip s k ≢ 0 → used s' (slot ip s k) ≡ false
  pub foreign_kept :
      (c : ℕ)
      → IsForeign ip s c
      → c ≢ iblock s ip.inum
      → IsForeign ip' s' c × (s'.block c ≡ s.block c)

module _ (ip : Inode) (s : Fs) (ok : IsSound ip s) where
  slot_direct : (k : ℕ) → k < ndirect → slot ip s k ≡ ip.addrs k
  slot_direct k lt = let e : ltb k ndirect ≡ true = ground arith in rw e refl

  slot_entry :
      (k : ℕ)
      → k < nindirect
      → ip.addrs ndirect ≢ 0
      → slot ip s (k + ndirect) ≡ entry (s.block (ip.addrs ndirect)) k
  slot_entry k lt nz =
      let p : ltb (k + ndirect) ndirect ≡ false = ground arith in
      let q : (k + ndirect == maxfile) ≡ false = ground (arith, lt) in
      let z : (ip.addrs ndirect == 0) ≡ false = ground (arith, nz) in
      let w : k + ndirect - ndirect ≡ k = omega arith in rw (p, q, z, w) refl

  direct-IsOwned : IsOwned s ip.addrs 0 ndirect
  direct-IsOwned = record {
    held = λ k a b nz.
        let e = slot_direct k (omega (arith, b)) in
        let h = ok.held k (omega (arith, b)) (λ z. nz (sym e ∙ z)) in rw e at h;
    distinct = λ j k a b c d nz e.
        let p = slot_direct j (omega (arith, b)) in
        let q = slot_direct k (omega (arith, d)) in
        ok.distinct j k (omega (arith, b)) (omega (arith, d)) (λ z. nz (sym p ∙ z)) (p ∙ e ∙ sym q);
  }

  -- The swept file system with an inode that has no numbers any more.
  module _ (ip1 : Inode) (s1 : Fs) (w : IsSwept (Owns ip s) s s1)
      (zeros : (k : ℕ) → k ≤ ndirect → ip1.addrs k ≡ 0)
      (fields : ip1 ≡ record ip { addrs = ip1.addrs })
      (home : IsForeign ip s (iblock s ip.inum)) where
    slot_zero : (k : ℕ) → slot ip1 s1 k ≡ 0
    slot_zero k =
        let z = zeros ndirect (omega arith) in
        elim (Bool-cases (ltb k ndirect)) [
          | inl e ↦ rw e (zeros k (ground (arith, e)))
          | inr e ↦ rw (e, z) (if_ind (λ v. v ≡ 0) (k == maxfile) 0 0 (λ h. refl) (λ h. refl))
        ]

    foreign1 : (c : ℕ) → IsForeign ip s c → IsForeign ip1 s1 c × (s1.block c ≡ s.block c)
    foreign1 c h =
        let (h1, e1) = w.others c h.held (λ (k, le, e, n). h.other k le e) in
        (record { held = h1; real = h.real; other = λ k le e. h.real (sym e ∙ slot_zero k) }, e1)

    sound1 : IsSound ip1 s1
    sound1 = record {
      formatted = w.formatted;
      few = rw w.size_kept ok.few;
      boot = (w.others 0 ok.boot (λ (k, a, b, n). n refl)).0;
      held = λ k le nz. absurd (nz (slot_zero k));
      distinct = λ j k a b nz e. absurd (nz (slot_zero j));
    }

    emptied : let ip2 = resized ip1 s1 0 in IsEmptied ip s ip2 (iupdate ip2 s1)
    emptied =
        let ip2 = resized ip1 s1 0 in
        let same : iblock s1 ip1.inum ≡ iblock s ip.inum =
          rw (ap Inode.inum fields, w.inodes_kept) refl in
        let home1 : IsForeign ip1 s1 (iblock s1 ip1.inum) =
          rw same (foreign1 (iblock s ip.inum) home).0 in
        let ok2 = resized-IsSound ip1 s1 0 sound1 in
        let home2 = resized-IsForeign ip1 s1 0 _ home1 in
        record {
          sound = iupdate-IsSound ip2 s1 ok2 home2;
          empty = λ k le. slot-iupdate ip2 s1 ok2 home2 k ∙ slot_zero k;
          size = refl;
          blocks_kept = size-iupdate ip2 s1 ok2 home2 ∙ w.size_kept;
          inum_kept = ap Inode.inum fields;
          same_home = ap (λ v. ip1.inum / 8 + v) (inodes-iupdate ip2 s1 ok2 home2) ∙ same;
          home_kept =
              let p : iblock (iupdate ip2 s1) ip1.inum ≡ iblock s1 ip1.inum =
                ap (λ v. ip1.inum / 8 + v) (inodes-iupdate ip2 s1 ok2 home2) in
              rw p (iupdate-IsForeign ip2 s1 ok2 home2 (iblock s1 ip1.inum) home2);
          freed = λ k le nz.
              used-iupdate ip2 s1 ok2 home2 (slot ip s k)
                (omega (arith, (ok.held k le nz).small, w.size_kept))
              ∙ w.gone (slot ip s k) (k, le, refl, nz);
          foreign_kept = λ c h ne.
              let (h1, e1) = foreign1 c h in
              (
                iupdate-IsForeign ip2 s1 ok2 home2 c (resized-IsForeign ip1 s1 0 c h1),
                block-iupdate ip2 s1 ok2 home2 c (λ z. ne (z ∙ same)) ∙ e1,
              );
        }

  -- An inode without an indirect block has its direct blocks only.
  only_direct :
      (s1 : Fs)
      → ip.addrs ndirect ≡ 0
      → IsSwept (Named ip.addrs 0 ndirect) s s1
      → IsSwept (Owns ip s) s s1
  only_direct s1 z w =
      IsSwept-map (Named ip.addrs 0 ndirect) (Owns ip s) s s1
        (λ a (k, x, y, e, n). (k, omega (arith, y), slot_direct k (omega (arith, y)) ∙ e, n))
        (λ a (k, le, e, n). elim (Bool-cases (ltb k ndirect)) [
          | inl t ↦
              (k, omega arith, ground (arith, t), sym (slot_direct k (ground (arith, t))) ∙ e, n)
          | inr t ↦
              let empty : slot ip s k ≡ 0 =
                rw (t, z) (if_ind (λ v. v ≡ 0) (k == maxfile) 0 0 (λ h. refl) (λ h. refl)) in
              absurd (n (sym e ∙ empty))
        ])
        w

  -- Else there are three sets.
  abbrev entries : ℕ → ℕ
  entries = entry (s.block (ip.addrs ndirect))

  all_three :
      (s1 s2 s3 : Fs)
      → ip.addrs ndirect ≢ 0
      → IsSwept (Named ip.addrs 0 ndirect) s s1
      → IsSwept (Named entries 0 nindirect) s1 s2
      → IsSwept (λ a. a ≡ ip.addrs ndirect) s2 s3
      → IsSwept (Owns ip s) s s3
  all_three s1 s2 s3 nz u v w =
      let A = Named ip.addrs 0 ndirect in
      let B = Named entries 0 nindirect in
      let C : ℕ → Type 0 = λ a. a ≡ ip.addrs ndirect in
      IsSwept-map (λ a. (A a ⊎ B a) ⊎ C a) (Owns ip s) s s3
        (λ a d. elim d [
          | inl (inl (k, x, y, e, n)) ↦
              (k, omega (arith, y), slot_direct k (omega (arith, y)) ∙ e, n)
          | inl (inr (k, x, y, e, n)) ↦
              (k + ndirect, omega (arith, y), slot_entry k (omega (arith, y)) nz ∙ e, n)
          | inr e ↦ (maxfile, omega arith, sym e, λ z. nz (sym e ∙ z))
        ])
        (λ a (k, le, e, n). elim (Bool-cases (ltb k ndirect)) [
          | inl t ↦ inl (
              inl
                (k, omega arith, ground (arith, t), sym (slot_direct k (ground (arith, t))) ∙ e, n))
          | inr t ↦ elim (Bool-cases (k == maxfile)) [
            | inl m ↦ inr (sym e ∙ ap (slot ip s) ((==_iff _ _).0 m))
            | inr m ↦
                let j = k - ndirect in
                let q : j + ndirect ≡ k = ground (arith, t) in
                let lt : j < nindirect = ground (arith, t, m, le) in
                inl (
                  inr (
                    j,
                    omega arith,
                    omega (arith, lt),
                    sym (slot_entry j lt nz) ∙ ap (slot ip s) q ∙ e,
                    n,
                  ))
          ]
        ])
        (IsSwept-trans (λ a. A a ⊎ B a) C s s2 s3 (IsSwept-trans A B s s1 s2 u v) w)

  -- After the direct blocks are freed, the indirect one and its entries are as they were.
  module _ (s1 : Fs) (w : IsSwept (Named ip.addrs 0 ndirect) s s1) (nz : ip.addrs ndirect ≢ 0) where
    not_direct :
        (k : ℕ)
        → ndirect ≤ k
        → k ≤ maxfile
        → slot ip s k ≢ 0
        → Named ip.addrs 0 ndirect (slot ip s k)
        → ⊥
    not_direct k ge le real (j, x, y, e, n) =
        let q =
          ok.distinct j k (omega (arith, y)) le
            (λ z. n (sym e ∙ sym (slot_direct j (omega (arith, y))) ∙ z))
            (slot_direct j (omega (arith, y)) ∙ e) in
        absurd (omega (arith, q, y, ge))

    stays :
        (k : ℕ)
        → ndirect ≤ k
        → k ≤ maxfile
        → slot ip s k ≢ 0
        → IsHeld s1 (slot ip s k) × (s1.block (slot ip s k) ≡ s.block (slot ip s k))
    stays k ge le real = w.others (slot ip s k) (ok.held k le real) (not_direct k ge le real)

    entries-IsOwned : IsOwned s1 entries 0 nindirect
    entries-IsOwned = record {
      held = λ k a b real.
          let e = slot_entry k (omega (arith, b)) nz in
          let h =
            (stays (k + ndirect) (omega arith) (omega (arith, b)) (λ z. real (sym e ∙ z))).0 in
          rw e at h;
      distinct = λ j k a b c d real e.
          let p = slot_entry j (omega (arith, b)) nz in
          let q = slot_entry k (omega (arith, d)) nz in
          let r =
            ok.distinct (j + ndirect) (k + ndirect) (omega (arith, b)) (omega (arith, d))
              (λ z. real (sym p ∙ z)) (p ∙ e ∙ sym q) in
          omega (arith, r);
    }

    entries_apart : (k : ℕ) → 0 ≤ k → k < 0 + nindirect → entries k ≢ ip.addrs ndirect
    entries_apart k a b e =
        let p = slot_entry k (omega (arith, b)) nz in
        let r =
          ok.distinct (k + ndirect) maxfile (omega (arith, b)) (omega arith)
            (λ z. nz (sym e ∙ sym p ∙ z)) (p ∙ e) in
        absurd (omega (arith, r, b))

-- What follows the first loop of `itrunc`.
after_direct :
    (ip : Inode) (s : Fs) (ok : IsSound ip s)
    → IsForeign ip s (iblock s ip.inum)
    → (ip1 : Inode) (s1 : Fs) → free_direct ndirect 0 ip s ≡ some (ip1, s1)
    → IsSwept (Named ip.addrs 0 ndirect) s s1
    → ip1 ≡ record ip { addrs = ip1.addrs }
    → ((k : ℕ) → k < ndirect → ip1.addrs k ≡ 0)
    → ip1.addrs ndirect ≡ ip.addrs ndirect
    → (ip' : Inode) × (s' : Fs) × (itrunc ip s ≡ some (ip', s')) × IsEmptied ip s ip' s'
unfolding itrunc
after_direct ip s ok home ip1 s1 p w fields zeros last =
    elim (Bool-cases (ip1.addrs ndirect == 0)) [
      | inl e ↦
          let z : ip1.addrs ndirect ≡ 0 = (==_iff _ _).0 e in
          let all : (k : ℕ) → k ≤ ndirect → ip1.addrs k ≡ 0 = λ k le.
            elim (Bool-cases (ltb k ndirect)) [
              | inl t ↦ zeros k (ground (arith, t))
              | inr t ↦ let q : k ≡ ndirect = ground (arith, t) in ap ip1.addrs q ∙ z
            ] in
          let ip2 = resized ip1 s1 0 in
          (
            ip2,
            iupdate ip2 s1,
            rw (p, e) refl,
            emptied ip s ok ip1 s1 (only_direct ip s ok s1 (sym last ∙ z) w) all fields home,
          )
      | inr e ↦
          let ind = ip.addrs ndirect in
          let nz : ind ≢ 0 = λ z. cc ((==_iff _ _).1 (last ∙ z), e) in
          let (h1, b1) = stays ip s ok s1 w nz maxfile (omega arith) (omega arith) nz in
          let (s2, p2, w2) =
            free_entries_lem (entries ip s ok) ind nindirect 0 s1 w.formatted h1
              (λ k. ap (λ f. entry f k) b1) (entries_apart ip s ok s1 w nz)
              (entries-IsOwned ip s ok s1 w nz) in
          let (h2, b2) =
            w2.others ind h1 (λ (k, x, y, g, n). entries_apart ip s ok s1 w nz k x y g) in
          let (s3, p3, w3) = bfree-held s2 ind w2.formatted h2 in
          let ip3 = record ip1 { addrs = update ip1.addrs ndirect 0 } in
          let all : (k : ℕ) → k ≤ ndirect → ip3.addrs k ≡ 0 = λ k le.
            elim (Bool-cases (k == ndirect)) [
              | inl t ↦ rw t refl
              | inr t ↦ rw t (zeros k (ground (arith, t)))
            ] in
          let same : ip3 ≡ record ip { addrs = ip3.addrs } =
            ap {A = Inode} {B = Inode} (λ x. record x { addrs = ip3.addrs }) fields in
          let ip4 = resized ip3 s3 0 in
          let eq2 : free_entries nindirect 0 (ip1.addrs ndirect) s1 ≡ some s2 =
            ap (λ v. free_entries nindirect 0 v s1) last ∙ p2 in
          let eq3 : bfree (ip1.addrs ndirect) s2 ≡ some s3 = ap (λ v. bfree v s2) last ∙ p3 in
          (
            ip4,
            iupdate ip4 s3,
            rw (p, e, eq2, eq3) refl,
            emptied ip s ok ip3 s3 (all_three ip s ok s1 s2 s3 nz w w2 w3) all same home,
          )
    ]

-- For a sound inode whose own block is none of its blocks, `itrunc` does not panic: it frees every
-- block of the inode, leaves an inode of size 0 with no blocks, and the blocks of others are as
-- they were, but that of the inodes.
pub itrunc_lem :
    (ip : Inode) (s : Fs)
    → IsSound ip s
    → IsForeign ip s (iblock s ip.inum)
    → (ip' : Inode) × (s' : Fs) × (itrunc ip s ≡ some (ip', s')) × IsEmptied ip s ip' s'
itrunc_lem ip s ok home =
    let (ip1, s1, p, w, fields, zeros, rest) =
      free_direct_lem ip.addrs ndirect 0 ip s ok.formatted (λ k a. refl) (direct-IsOwned ip s ok) in
    after_direct ip s ok home ip1 s1 p w fields (λ k lt. zeros k (omega arith) (omega (arith, lt)))
      (rest ndirect (inr (omega arith)))
