-- ===== src/Fs/Inode/Bmap.antt =====
-- The results of bmap of fs.c.
use modified_xv.Base.{
  ℕ, ◌+◌, ◌-◌, ◌≤◌, ◌<◌, ◌≡◌, ◌≢◌, refl, sym, ◌∙◌, true, false, Option, none, some, ◌==◌, ==_iff,
  ltb, ltb→lt, arith, Bool-cases, if_ind, inl, inr, Option-cases, ◌>>=◌, update,
}
use modified_xv.Fs.Blocks.{Fs, balloc}
use modified_xv.Fs.Blocks.Free.{free_blocks, free_blocks-full}
use modified_xv.Fs.Blocks.Bitmap.{used, Given}
use modified_xv.Fs.Blocks.Alloc.{balloc_lem}
use modified_xv.Fs.Inode.{Inode, ndirect, maxfile, entry, load_addr, load_entry, bmap}
use modified_xv.Fs.Inode.Slots.{
  slot, IsSound, IsGrown, IsLoaded, grown-IsLoaded, present-IsLoaded, IsLoaded-trans,
}
use modified_xv.Fs.Inode.Mapping.{IsGrown-addr, direct_slots, indirect_slots, IsGrown-entry}

-- The result of a load of entry `k` that takes `cost` blocks at most: a panic needs fewer free
-- blocks than that, and an entry that is there changes nothing.
abbrev pub Loads : ℕ → Inode → Fs → ℕ → Option (ℕ × Inode × Fs) → Type 0
Loads cost ip s k none = (free_blocks s < cost) × (slot ip s k ≡ 0)
Loads cost ip s k (some (a, ip', s')) =
    IsLoaded cost ip s k a ip' s' × (slot ip s k ≢ 0 → (ip' ≡ ip) × (s' ≡ s))

Loads-weaken :
    (ip : Inode) (s : Fs) (k : ℕ) (r : Option (ℕ × Inode × Fs))
    → Loads 1 ip s k r
    → Loads 2 ip s k r
Loads-weaken ip s k none (h, z) = (omega arith, z)
Loads-weaken ip s k (some (a, ip', s')) (h, z) = (
  record {
    spent = omega (arith, h.spent);
    sound = h.sound;
    address = h.address;
    real = h.real;
    slots_kept = h.slots_kept;
    no_others = h.no_others;
    content_kept = h.content_kept;
    foreign_kept = h.foreign_kept;
    size_kept = h.size_kept;
    inodes_kept = h.inodes_kept;
    fields_kept = h.fields_kept;
  },
  z,
)

module _ (ip : Inode) (s : Fs) (ok : IsSound ip s) where
  load_addr_lem :
      (i k : ℕ)
      → k ≤ maxfile
      → slot ip s k ≡ ip.addrs i
      → ((b : ℕ) (s1 : Fs)
          → Given s b s1
          → ip.addrs i ≡ 0
          → IsGrown ip s k b s1 (record ip { addrs = update ip.addrs i b }) s1)
      → Loads 1 ip s k (load_addr ip i s)
  unfolding load_addr
  load_addr_lem i k le eq grow = elim (Bool-cases (ip.addrs i == 0)) [
    | inr e ↦
        let nz : ip.addrs i ≢ 0 = ground (arith, e) in
        rw e (present-IsLoaded 1 ip s k (ip.addrs i) ok eq nz, λ h. (refl, refl))
    | inl e ↦
        let z : ip.addrs i ≡ 0 = (==_iff _ _).0 e in
        let searched = balloc_lem s ok.formatted in
        elim (Option-cases (balloc s)) [
          | inl n ↦
              let all : (a : ℕ) → a < s.size → used s a ≡ true = rw n at searched in
              rw (e, n) (rw (free_blocks-full s all) (omega arith), eq ∙ z)
          | inr ((b, s1), p) ↦
              let g : Given s b s1 = rw p at searched in
              rw (e, p)
                (grown-IsLoaded ip s k b s1 _ s1 ok (grow b s1 g z), λ nz. absurd (nz (eq ∙ z)))
        ]
  ]

  -- An entry of the indirect block, after the load of that block.
  load_entry_lem :
      (k : ℕ)
      → k < 128
      → ip.addrs ndirect ≢ 0
      → Loads 1 ip s (k + ndirect) (elim (load_entry (ip.addrs ndirect) k s) [
        | none ↦ none
        | some (a, s1) ↦ some (a, ip, s1)
      ])
  unfolding load_entry
  load_entry_lem k lt nz =
      let p : ltb (k + ndirect) ndirect ≡ false = ground arith in
      let q : (k + ndirect == maxfile) ≡ false = ground (arith, lt) in
      let z : (ip.addrs ndirect == 0) ≡ false = ground (arith, nz) in
      let w : k + ndirect - ndirect ≡ k = omega arith in
      let eq : slot ip s (k + ndirect) ≡ entry (s.block (ip.addrs ndirect)) k =
        rw (p, q, z, w) refl in
      elim (Bool-cases (entry (s.block (ip.addrs ndirect)) k == 0)) [
        | inr e ↦
            let real : entry (s.block (ip.addrs ndirect)) k ≢ 0 = ground (arith, e) in
            rw e (present-IsLoaded 1 ip s (k + ndirect) _ ok eq real, λ h. (refl, refl))
        | inl e ↦
            let empty : entry (s.block (ip.addrs ndirect)) k ≡ 0 = (==_iff _ _).0 e in
            let searched = balloc_lem s ok.formatted in
            elim (Option-cases (balloc s)) [
              | inl n ↦
                  let all : (a : ℕ) → a < s.size → used s a ≡ true = rw n at searched in
                  rw (e, n) (rw (free_blocks-full s all) (omega arith), eq ∙ empty)
              | inr ((b, s1), y) ↦
                  let g : Given s b s1 = rw y at searched in
                  rw (e, y)
                    (
                      grown-IsLoaded ip s (k + ndirect) b s1 ip _ ok
                          (IsGrown-entry ip s ok b s1 g k lt nz empty),
                      λ h. absurd (h (eq ∙ empty)),
                    )
            ]
      ]

  -- A file has an entry of the indirect block only where it has that block.
  needs_indirect : (bn : ℕ) → ltb bn ndirect ≡ false → ip.addrs ndirect ≡ 0 → slot ip s bn ≡ 0
  needs_indirect bn e z =
      rw (e, z) (if_ind (λ v. v ≡ 0) (bn == maxfile) 0 0 (λ h. refl) (λ h. refl))

  -- A load of the indirect block.
  load_indirect : Loads 1 ip s maxfile (load_addr ip ndirect s)
  load_indirect = load_addr_lem ndirect maxfile (omega arith) refl λ b s1 g z.
      IsGrown-addr ip s ok b s1 g ndirect maxfile (omega arith) z
        (λ j. indirect_slots ip s ok b s1 g j z)

-- The load of an entry after that of the indirect block.
after_indirect :
    (ip : Inode) (s : Fs)
    → IsSound ip s
    → (bn ind : ℕ) (ip1 : Inode) (s1 : Fs) → ltb bn ndirect ≡ false
    → bn < maxfile
    → IsLoaded 1 ip s maxfile ind ip1 s1
    → (ip.addrs ndirect ≢ 0 → (ip1 ≡ ip) × (s1 ≡ s))
    → Loads 2 ip s bn (load_entry ind (bn - ndirect) s1 >>= (λ r. some (r.0, ip1, r.1)))
after_indirect ip s ok bn ind ip1 s1 e lt l same =
    let k = bn - ndirect in
    let q : bn - ndirect + ndirect ≡ bn = ground arith in
    let i : ip1.addrs ndirect ≡ ind = l.address in
    let nz : ip1.addrs ndirect ≢ 0 = λ z. l.real (sym i ∙ z) in
    let h = load_entry_lem ip1 s1 l.sound k (omega (arith, lt)) nz in
    elim (Option-cases (load_entry ind k s1)) [
      | inl n ↦
          let h' : (free_blocks s1 < 1) × (slot ip1 s1 bn ≡ 0) = rw (i, n, q) at h in
          let empty : slot ip s bn ≡ 0 = elim (Bool-cases (slot ip s bn == 0)) [
            | inl z ↦ (==_iff _ _).0 z
            | inr z ↦
                let x : slot ip s bn ≢ 0 = ground (arith, z) in
                absurd (x (sym (l.slots_kept bn (omega (arith, lt)) x) ∙ h'.1))
          ] in
          rw n (omega (arith, l.spent, h'.0), empty)
      | inr ((a, s2), y) ↦
          let (h1, h2) : IsLoaded 1 ip1 s1 bn a ip1 s2
              × (slot ip1 s1 bn ≢ 0 → (ip1 ≡ ip1) × (s2 ≡ s1)) =
            rw (i, y, q) at h in
          rw y (
            IsLoaded-trans 1 1 ip s bn ind a ip1 s1 ip1 s2 l h1,
            λ there.
                let (x, z) = same (λ w. there (needs_indirect ip s ok bn e w)) in
                (x, (h2 (λ w. there (sym (l.slots_kept bn (omega (arith, lt)) there) ∙ w))).1 ∙ z),
          )
    ]

-- For an inode whose blocks are distinct, used and outside the bitmap, and an entry below MAXFILE,
-- `bmap` returns the block of the entry, keeps these conditions, the bytes of the file, the blocks
-- of others and the entries that were there, and takes at most two free blocks; where the entry
-- was there it changes nothing. It panics only where the entry was missing and fewer than two
-- blocks were free.
pub bmap_lem :
    (ip : Inode) (s : Fs) (bn : ℕ) → IsSound ip s → bn < maxfile → Loads 2 ip s bn (bmap ip bn s)
unfolding bmap
bmap_lem ip s bn ok lt = elim (Bool-cases (ltb bn ndirect)) [
  | inl e ↦
      let small : bn < ndirect = ltb→lt _ _ e in
      let here : slot ip s bn ≡ ip.addrs bn = rw e refl in
      let h = load_addr_lem ip s ok bn bn (omega (arith, lt)) here λ b s1 g z.
        IsGrown-addr ip s ok b s1 g bn bn (omega (arith, lt)) (here ∙ z)
          (λ j. direct_slots ip s ok b s1 g bn j small) in
      rw e (Loads-weaken ip s bn _ h)
  | inr e ↦
      let h = load_indirect ip s ok in
      let m : ltb (bn - ndirect) 128 ≡ true = ground (arith, lt) in
      elim (Option-cases (load_addr ip ndirect s)) [
        | inl n ↦
            let h' : (free_blocks s < 1) × (ip.addrs ndirect ≡ 0) = rw n at h in
            rw (e, m, n) (omega (arith, h'.0), needs_indirect ip s ok bn e h'.1)
        | inr ((ind, ip1, s1), y) ↦
            let (l, same) : IsLoaded 1 ip s maxfile ind ip1 s1
                × (ip.addrs ndirect ≢ 0 → (ip1 ≡ ip) × (s1 ≡ s)) =
              rw y at h in
            rw (e, m, y) (after_indirect ip s ok bn ind ip1 s1 e lt l same)
      ]
]
