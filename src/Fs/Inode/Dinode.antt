-- ===== src/Fs/Inode/Dinode.antt =====
-- The storing of an inode in its block by iupdate in fs.c, and the loading by ilock.
use modified_xv.Base.{
  ℕ, zero, suc, ◌+◌, ◌*◌, ◌^◌, ◌≤◌, ◌<◌, ◌≡◌, refl, sym, ap, ◌∙◌, some, none, ◌==◌, ==_refl, ltb,
  ltb→lt, arith, Bool-cases, inl, inr, ◌⊎◌, if◌then◌else◌,
}
use mathlib.Core.Path.{fun_ext}
use modified_xv.Fs.Blocks.{Fs}
use modified_xv.Fs.Bytes.{
  get_le, put_le, put_le-outside, put_le-bytes, get_le-put_le, get_le-put_le_other, get_le-congr,
}
use modified_xv.Fs.Inode.{Inode, put_addrs, put_dinode, iupdate, load_inode, iblock, dinode_at}

put_addrs-outside :
    (left i off : ℕ) (addrs f : ℕ → ℕ) (o : ℕ)
    → (o < off + 4 * i) ⊎ (off + 4 * (i + left) ≤ o)
    → put_addrs left i off addrs f o ≡ f o
unfolding put_addrs
put_addrs-outside zero i off addrs f o h = refl
put_addrs-outside (suc left) i off addrs f o h =
    put_addrs-outside left (suc i) off addrs (put_le 4 f (off + 4 * i) (addrs i)) o
      (elim h [ inl x ↦ inl (omega (arith, x)) | inr x ↦ inr (omega (arith, x)) ])
    ∙ put_le-outside 4 f (off + 4 * i) (addrs i) o
        (elim h [ inl x ↦ inl (omega (arith, x)) | inr x ↦ inr (omega (arith, x)) ])

put_addrs-bytes :
    (left i off : ℕ) (addrs f : ℕ → ℕ)
    → ((o : ℕ) → f o < 256)
    → (o : ℕ) → put_addrs left i off addrs f o < 256
unfolding put_addrs
put_addrs-bytes zero i off addrs f small o = small o
put_addrs-bytes (suc left) i off addrs f small o =
    put_addrs-bytes left (suc i) off addrs (put_le 4 f (off + 4 * i) (addrs i))
      (put_le-bytes 4 f (off + 4 * i) (addrs i) small) o

get_le-put_addrs :
    (left i off : ℕ) (addrs f : ℕ → ℕ) (k : ℕ)
    → i ≤ k
    → k < i + left
    → addrs k < 2 ^ 32
    → get_le 4 (put_addrs left i off addrs f) (off + 4 * k) ≡ addrs k
unfolding put_addrs
get_le-put_addrs zero i off addrs f k a b small = absurd (omega arith)
get_le-put_addrs (suc left) i off addrs f k a b small = elim (Bool-cases (k == i)) [
  | inr e ↦ get_le-put_addrs left (suc i) off addrs _ k (ground arith) (omega arith) small
  | inl e ↦
      let q : k ≡ i = ground arith in
      let g = put_le 4 f (off + 4 * i) (addrs i) in
      get_le-congr 4 (put_addrs left (suc i) off addrs g) g (off + 4 * k)
        (λ o x y. put_addrs-outside left (suc i) off addrs g o (inl (omega (arith, q, y))))
      ∙ ap (λ v. get_le 4 (put_le 4 f (off + 4 * v) (addrs v)) (off + 4 * k)) (sym q)
      ∙ get_le-put_le 4 f (off + 4 * k) (addrs k) small
]

-- A part of a block that the stores of the addresses leave.
get_le-before_addrs :
    (w left off : ℕ) (addrs f : ℕ → ℕ) (at : ℕ)
    → at + w ≤ off
    → get_le w (put_addrs left 0 off addrs f) at ≡ get_le w f at
get_le-before_addrs w left off addrs f at h =
    get_le-congr w (put_addrs left 0 off addrs f) f at
      λ o a b. put_addrs-outside left 0 off addrs f o (inl (omega (arith, a, b, h)))

module _ (ip : Inode) (off : ℕ) (f : ℕ → ℕ) where
  pub put_dinode-bytes : ((o : ℕ) → f o < 256) → (o : ℕ) → put_dinode ip off f o < 256
  unfolding put_dinode
  put_dinode-bytes small = put_addrs-bytes 13 0 (off + 12) ip.addrs _ (
      put_le-bytes 4 _ _ _ (
        put_le-bytes 2 _ _ _
          (put_le-bytes 2 _ _ _ (put_le-bytes 2 _ _ _ (put_le-bytes 2 f off ip.kind small)))))

  pub put_dinode-outside : (o : ℕ) → (o < off) ⊎ (off + 64 ≤ o) → put_dinode ip off f o ≡ f o
  unfolding put_dinode
  put_dinode-outside o h =
      let far : (p w : ℕ) → off ≤ p → p + w ≤ off + 64 → (o < p) ⊎ (p + w ≤ o) = λ p w a b. elim h [
        | inl x ↦ inl (omega (arith, x, a))
        | inr x ↦ inr (omega (arith, x, b))
      ] in
      put_addrs-outside 13 0 (off + 12) ip.addrs _ o
        (elim h [ inl x ↦ inl (omega (arith, x)) | inr x ↦ inr (omega (arith, x)) ])
      ∙ put_le-outside 4 _ _ _ o (far (off + 8) 4 (omega arith) (omega arith))
      ∙ put_le-outside 2 _ _ _ o (far (off + 6) 2 (omega arith) (omega arith))
      ∙ put_le-outside 2 _ _ _ o (far (off + 4) 2 (omega arith) (omega arith))
      ∙ put_le-outside 2 _ _ _ o (far (off + 2) 2 (omega arith) (omega arith))
      ∙ put_le-outside 2 f off ip.kind o (far off 2 (omega arith) (omega arith))

-- The fields fit in the structure.
pub record IsStorable (ip : Inode) : Type 0 where
  pub kind_small : ip.kind < 2 ^ 16
  pub major_small : ip.major < 2 ^ 16
  pub minor_small : ip.minor < 2 ^ 16
  pub nlink_small : ip.nlink < 2 ^ 16
  pub size_small : ip.size < 2 ^ 32
  pub addrs_small : (i : ℕ) → i < 13 → ip.addrs i < 2 ^ 32

pub get_kind :
    (ip : Inode) (off : ℕ) (f : ℕ → ℕ)
    → ip.kind < 2 ^ 16
    → get_le 2 (put_dinode ip off f) off ≡ ip.kind
unfolding put_dinode
get_kind ip off f small =
    get_le-before_addrs 2 13 (off + 12) ip.addrs _ off (omega arith)
    ∙ get_le-put_le_other 4 2 _ (off + 8) _ off (inl (omega arith))
    ∙ get_le-put_le_other 2 2 _ (off + 6) _ off (inl (omega arith))
    ∙ get_le-put_le_other 2 2 _ (off + 4) _ off (inl (omega arith))
    ∙ get_le-put_le_other 2 2 _ (off + 2) _ off (inl (omega arith))
    ∙ get_le-put_le 2 f off ip.kind small

module _ (ip : Inode) (off : ℕ) (f : ℕ → ℕ) (ok : IsStorable ip) where
  abbrev stored : ℕ → ℕ
  stored = put_dinode ip off f

  get_major : get_le 2 stored (off + 2) ≡ ip.major
  unfolding put_dinode
  get_major =
      get_le-before_addrs 2 13 (off + 12) ip.addrs _ (off + 2) (omega arith)
      ∙ get_le-put_le_other 4 2 _ (off + 8) _ (off + 2) (inl (omega arith))
      ∙ get_le-put_le_other 2 2 _ (off + 6) _ (off + 2) (inl (omega arith))
      ∙ get_le-put_le_other 2 2 _ (off + 4) _ (off + 2) (inl (omega arith))
      ∙ get_le-put_le 2 _ (off + 2) ip.major ok.major_small

  get_minor : get_le 2 stored (off + 4) ≡ ip.minor
  unfolding put_dinode
  get_minor =
      get_le-before_addrs 2 13 (off + 12) ip.addrs _ (off + 4) (omega arith)
      ∙ get_le-put_le_other 4 2 _ (off + 8) _ (off + 4) (inl (omega arith))
      ∙ get_le-put_le_other 2 2 _ (off + 6) _ (off + 4) (inl (omega arith))
      ∙ get_le-put_le 2 _ (off + 4) ip.minor ok.minor_small

  get_nlink : get_le 2 stored (off + 6) ≡ ip.nlink
  unfolding put_dinode
  get_nlink =
      get_le-before_addrs 2 13 (off + 12) ip.addrs _ (off + 6) (omega arith)
      ∙ get_le-put_le_other 4 2 _ (off + 8) _ (off + 6) (inl (omega arith))
      ∙ get_le-put_le 2 _ (off + 6) ip.nlink ok.nlink_small

  get_size : get_le 4 stored (off + 8) ≡ ip.size
  unfolding put_dinode
  get_size =
      get_le-before_addrs 4 13 (off + 12) ip.addrs _ (off + 8) (omega arith)
      ∙ get_le-put_le 4 _ (off + 8) ip.size ok.size_small

  get_addr : (k : ℕ) → k < 13 → get_le 4 stored (off + 12 + 4 * k) ≡ ip.addrs k
  unfolding put_dinode
  get_addr k lt =
      get_le-put_addrs 13 0 (off + 12) ip.addrs _ k (omega arith) (omega (arith, lt))
        (ok.addrs_small k lt)

  get_addrs :
      (old : ℕ → ℕ)
      → ◌≡◌ {A = ℕ → ℕ}
          (λ k. if ltb k 13 then get_le 4 stored (off + 12 + 4 * k) else old k)
          (λ k. if ltb k 13 then ip.addrs k else old k)
  get_addrs old = fun_ext λ k. elim (Bool-cases (ltb k 13)) [
    | inl e ↦ rw e (get_addr k (ltb→lt _ _ e))
    | inr e ↦ rw e refl
  ]

-- Where the fields of an inode fit into those of a `struct dinode`, after `iupdate` of it the load
-- in `ilock` of any cached copy with the same number panics if the type is 0, and else gives that
-- inode: the type, major, minor, link count, size and all 13 addresses come from the disk,
-- whatever the copy held.
pub load_inode-iupdate :
    (ip0 ip : Inode) (s : Fs)
    → ip0.inum ≡ ip.inum
    → IsStorable ip
    → load_inode ip0 (iupdate ip s) ≡ (
        if ip.kind == 0
        then none
        else some (record ip { addrs = λ k. if ltb k 13 then ip.addrs k else ip0.addrs k }))
unfolding load_inode iupdate
load_inode-iupdate ip0 ip s same ok =
    let off = dinode_at ip.inum in
    let f = s.block (iblock s ip.inum) in
    rw
      (
        same,
        ==_refl (iblock s ip.inum),
        get_kind ip off f ok.kind_small,
        get_major ip off f ok,
        get_minor ip off f ok,
        get_nlink ip off f ok,
        get_size ip off f ok,
        get_addrs ip off f ok ip0.addrs,
      )
      refl

-- An inode of type 0 is a free one.
pub load_inode-free :
    (ip0 ip : Inode) (s : Fs)
    → ip0.inum ≡ ip.inum
    → ip.kind ≡ 0
    → load_inode ip0 (iupdate ip s) ≡ none
unfolding load_inode iupdate
load_inode-free ip0 ip s same z =
    let e = get_kind ip (dinode_at ip.inum) (s.block (iblock s ip.inum)) (omega (arith, z)) ∙ z in
    rw (same, ==_refl (iblock s ip.inum), e) refl
