-- ===== src/Fs/Inode/Ialloc.antt =====
-- ialloc of fs.c: the search for a free inode on the disk, and its first state.
use modified_xv.Base.{
  ℕ, zero, suc, ◌+◌, ◌-◌, ◌*◌, ◌/◌, ◌%◌, ◌^◌, ◌≤◌, ◌<◌, ◌≡◌, ◌≢◌, ap, refl, sym, ◌∙◌, arith, true,
  false, ◌&&◌, ◌⊎◌, inl, inr, Option, none, some, ◌==◌, ==_refl, ==_iff, ltb, leb, ltb→lt,
  if◌then◌else◌, ◌>>=◌, Bool-cases, Option-cases,
}
use mathlib.Core.Path.{fun_ext}
use modified_xv.Fs.Blocks.{Fs, put_block}
use modified_xv.Fs.Bytes.{
  get_le, put_le, get_le-put_le, get_le-put_le_other, get_le-congr, get_le-zero,
}
use modified_xv.Fs.Inode.{Inode, iblock, dinode_at, load_inode}

-- `dip->type`
abbrev pub kind_on_disk : Fs → ℕ → ℕ
kind_on_disk s inum = get_le 2 (s.block (iblock s inum)) (dinode_at inum)

-- The loop of `ialloc` from `inum`, with `left` inodes to go.
pub find_inode : Fs → ℕ → ℕ → Option ℕ
find_inode s inum zero = none
find_inode s inum (suc left) =
    let rest = find_inode s (suc inum) left in if kind_on_disk s inum == 0 then some inum else rest

-- `memset(dip, 0, sizeof(*dip))`, and the store of the type.
pub clear_dinode : ℕ → ℕ → (ℕ → ℕ) → ℕ → ℕ
clear_dinode kind off f = put_le 2 (λ o. if leb off o && ltb o (off + 64) then 0 else f o) off kind

-- `ialloc` up to its call of `iget`; `none` is the panic.
pub alloc_inode : ℕ → Fs → Option (ℕ × Fs)
alloc_inode kind s = find_inode s 1 (s.ninodes - 1) >>= λ inum.
    let b = iblock s inum in
    some (inum, put_block b (clear_dinode kind (dinode_at inum) (s.block b)) s)

-- The inode is the first free one from `inum` on, below `end`.
abbrev IsFirst : Fs → ℕ → ℕ → ℕ → Type 0
IsFirst s inum end i =
    (inum ≤ i)
    × (i < end)
    × (kind_on_disk s i ≡ 0)
    × ((j : ℕ) → inum ≤ j → j < i → kind_on_disk s j ≢ 0)

abbrev Finds : Fs → ℕ → ℕ → Option ℕ → Type 0
Finds s inum end (some i) = IsFirst s inum end i
Finds s inum end none = (j : ℕ) → inum ≤ j → j < end → kind_on_disk s j ≢ 0

one_more :
    (s : Fs) (inum end : ℕ) (r : Option ℕ)
    → inum < end
    → Finds s (suc inum) end r
    → Finds s inum end (if kind_on_disk s inum == 0 then some inum else r)
one_more s inum end r lt h = elim (Bool-cases (kind_on_disk s inum == 0)) [
  | inl e ↦ rw e (omega arith, lt, (==_iff _ _).0 e, λ j a b. absurd (omega (arith, a, b)))
  | inr e ↦
      let here : kind_on_disk s inum ≢ 0 = ground (arith, e) in
      let step : (i : ℕ)
          → ((j : ℕ) → suc inum ≤ j → j < i → kind_on_disk s j ≢ 0)
          → (j : ℕ) → inum ≤ j
          → j < i
          → kind_on_disk s j ≢ 0 =
        λ i f j a b. elim (Bool-cases (j == inum)) [
          | inl q ↦ λ z. here (rw ((==_iff j inum).0 q) at z)
          | inr q ↦ f j (ground (arith, q, a)) b
        ] in
      rw e (extend r h step)
]
  where
    extend :
        (r : Option ℕ)
        → Finds s (suc inum) end r
        → ((i : ℕ)
            → ((j : ℕ) → suc inum ≤ j → j < i → kind_on_disk s j ≢ 0)
            → (j : ℕ) → inum ≤ j
            → j < i
            → kind_on_disk s j ≢ 0)
        → Finds s inum end r
    extend (some i) (a, b, c, d) step = (omega (arith, a), b, c, step i d)
    extend none f step = step end f

find_inode_lem :
    (s : Fs) (inum left end : ℕ) → inum + left ≡ end → Finds s inum end (find_inode s inum left)
unfolding find_inode
find_inode_lem s inum zero end q = λ j a b. absurd (omega (arith, a, b, q))
find_inode_lem s inum (suc left) end q =
    one_more s inum end (find_inode s (suc inum) left) (omega arith)
      (find_inode_lem s (suc inum) left end (omega (arith, q)))

-- A new inode: its type, and 0 in all other fields.
abbrev pub new_inode : ℕ → Inode → Inode
new_inode kind ip = record ip {
  kind = kind;
  major = 0;
  minor = 0;
  nlink = 0;
  size = 0;
  addrs = λ i. if ltb i 13 then 0 else ip.addrs i;
}

module _ (kind off : ℕ) (f : ℕ → ℕ) where
  clear_dinode-outside :
      (w at : ℕ)
      → (at + w ≤ off) ⊎ (off + 64 ≤ at)
      → get_le w (clear_dinode kind off f) at ≡ get_le w f at
  unfolding clear_dinode
  clear_dinode-outside w at h =
      get_le-put_le_other 2 w _ off kind at
        (elim h [ inl x ↦ inl x | inr x ↦ inr (omega (arith, x)) ])
      ∙ get_le-congr w _ f at λ o a b. elim h [
        | inl x ↦ (let p : leb off o ≡ false = ground (arith, x, a, b) in rw p refl)
        | inr x ↦
            (let p : (leb off o && ltb o (off + 64)) ≡ false = ground (arith, x, a, b) in rw p refl)
      ]

  clear_dinode-zero :
      (w d : ℕ) → 2 ≤ d → d + w ≤ 64 → get_le w (clear_dinode kind off f) (off + d) ≡ 0
  unfolding clear_dinode
  clear_dinode-zero w d a b =
      get_le-put_le_other 2 w _ off kind (off + d) (inr (omega (arith, a)))
      ∙ get_le-congr w _ (λ o. 0) (off + d)
          (λ o x y.
            let p : (leb off o && ltb o (off + 64)) ≡ true = ground (arith, a, b, x, y) in
            rw p refl)
      ∙ get_le-zero w (λ o. 0) (off + d) (λ o. refl)

  clear_dinode-kind : kind < 2 ^ 16 → get_le 2 (clear_dinode kind off f) off ≡ kind
  unfolding clear_dinode
  clear_dinode-kind h = get_le-put_le 2 _ off kind h

-- Two structures in one block do not overlap.
dinodes_apart :
    (a b start w d : ℕ)
    → a / 8 + start ≡ b / 8 + start
    → a ≢ b
    → d + w ≤ 64
    → (dinode_at a + d + w ≤ dinode_at b) ⊎ (dinode_at b + 64 ≤ dinode_at a + d)
dinodes_apart a b start w d q ne h = elim (Bool-cases (ltb (a % 8) (b % 8))) [
  | inl e ↦ inl (omega (arith, ltb→lt (a % 8) (b % 8) e))
  | inr e ↦
      let le : b % 8 ≤ a % 8 = ground (arith, e) in
      let lt : b % 8 < a % 8 = omega (arith, le, q, ne) in inr (omega (arith, lt))
]

clear_dinode-addrs :
    (kind off : ℕ) (f addrs : ℕ → ℕ)
    → ◌≡◌ {A = ℕ → ℕ}
        (λ i. if ltb i 13 then get_le 4 (clear_dinode kind off f) (off + 12 + 4 * i) else addrs i)
        (λ i. if ltb i 13 then 0 else addrs i)
clear_dinode-addrs kind off f addrs = fun_ext λ i. elim (Bool-cases (ltb i 13)) [
  | inl e ↦
      let lt = ltb→lt i 13 e in
      let place : off + 12 + 4 * i ≡ off + (12 + 4 * i) = omega arith in
      rw (e, place, clear_dinode-zero kind off f 4 (12 + 4 * i) (omega arith) (omega (arith, lt)))
        refl
  | inr e ↦ rw e refl
]

-- What `alloc_inode` does where it gives an inode.
pub record IsNew (kind : ℕ) (s : Fs) (inum : ℕ) (s' : Fs) : Type 0 where
  pub in_range : (1 ≤ inum) × (inum < s.ninodes)
  pub was_free : kind_on_disk s inum ≡ 0
  pub first : (j : ℕ) → 1 ≤ j → j < inum → kind_on_disk s j ≢ 0
  pub loaded : (ip : Inode) → ip.inum ≡ inum → load_inode ip s' ≡ some (new_inode kind ip)
  pub others : (ip : Inode) → ip.inum ≢ inum → load_inode ip s' ≡ load_inode ip s
  pub blocks : (b : ℕ) → b ≢ iblock s inum → s'.block b ≡ s.block b

abbrev pub Allocates : ℕ → Fs → Option (ℕ × Fs) → Type 0
Allocates kind s (some (inum, s')) = IsNew kind s inum s'
Allocates kind s none = (j : ℕ) → 1 ≤ j → j < s.ninodes → kind_on_disk s j ≢ 0

module _ (kind : ℕ) (s : Fs) (some_kind : kind ≢ 0) (small : kind < 2 ^ 16) where
  abbrev after : ℕ → Fs
  after inum =
      put_block (iblock s inum) (clear_dinode kind (dinode_at inum) (s.block (iblock s inum))) s

  loads_new :
      (inum : ℕ) (ip : Inode)
      → ip.inum ≡ inum
      → load_inode ip (after inum) ≡ some (new_inode kind ip)
  unfolding load_inode
  loads_new inum ip q =
      let off = dinode_at inum in
      let f = s.block (iblock s inum) in
      let nz : (kind == 0) ≡ false = ground (arith, some_kind) in
      rw
        (
          q,
          ==_refl (iblock s inum),
          clear_dinode-kind kind off f small,
          nz,
          clear_dinode-zero kind off f 2 2 (omega arith) (omega arith),
          clear_dinode-zero kind off f 2 4 (omega arith) (omega arith),
          clear_dinode-zero kind off f 2 6 (omega arith) (omega arith),
          clear_dinode-zero kind off f 4 8 (omega arith) (omega arith),
          clear_dinode-addrs kind off f ip.addrs,
        )
        refl

  other_get :
      (inum w d : ℕ) (ip : Inode)
      → ip.inum ≢ inum
      → d + w ≤ 64
      → get_le w ((after inum).block (iblock s ip.inum)) (dinode_at ip.inum + d)
        ≡ get_le w (s.block (iblock s ip.inum)) (dinode_at ip.inum + d)
  other_get inum w d ip ne h = elim (Bool-cases (iblock s ip.inum == iblock s inum)) [
    | inr e ↦ rw e refl
    | inl e ↦
        let q : iblock s ip.inum ≡ iblock s inum = (==_iff _ _).0 e in
        let far : (dinode_at ip.inum + d + w ≤ dinode_at inum)
            ⊎ (dinode_at inum + 64 ≤ dinode_at ip.inum + d) =
          dinodes_apart ip.inum inum s.inodestart w d q ne h in
        rw e (
          clear_dinode-outside kind (dinode_at inum) (s.block (iblock s inum)) w
            (dinode_at ip.inum + d) far
          ∙ ap (λ b. get_le w (s.block b) (dinode_at ip.inum + d)) (sym q))
  ]

  other_kind :
      (inum : ℕ) (ip : Inode)
      → ip.inum ≢ inum
      → kind_on_disk (after inum) ip.inum ≡ kind_on_disk s ip.inum
  other_kind inum ip ne =
      let place : dinode_at ip.inum + 0 ≡ dinode_at ip.inum = omega arith in
      rw place at (other_get inum 2 0 ip ne (omega arith))

  other_addrs :
      (inum : ℕ) (ip : Inode)
      → ip.inum ≢ inum
      → ◌≡◌ {A = ℕ → ℕ}
          (λ i.
            if ltb i 13
            then get_le 4 ((after inum).block (iblock s ip.inum)) (dinode_at ip.inum + 12 + 4 * i)
            else ip.addrs i)
          (λ i.
            if ltb i 13
            then get_le 4 (s.block (iblock s ip.inum)) (dinode_at ip.inum + 12 + 4 * i)
            else ip.addrs i)
  other_addrs inum ip ne = fun_ext λ i. elim (Bool-cases (ltb i 13)) [
    | inl e ↦
        let lt = ltb→lt i 13 e in
        let place : dinode_at ip.inum + (12 + 4 * i) ≡ dinode_at ip.inum + 12 + 4 * i =
          omega arith in
        rw e (rw place at (other_get inum 4 (12 + 4 * i) ip ne (omega (arith, lt))))
    | inr e ↦ rw e refl
  ]

  loads_other :
      (inum : ℕ) (ip : Inode) → ip.inum ≢ inum → load_inode ip (after inum) ≡ load_inode ip s
  unfolding load_inode
  loads_other inum ip ne =
      rw
        (
          other_kind inum ip ne,
          other_get inum 2 2 ip ne (omega arith),
          other_get inum 2 4 ip ne (omega arith),
          other_get inum 2 6 ip ne (omega arith),
          other_get inum 4 8 ip ne (omega arith),
          other_addrs inum ip ne,
        )
        refl

  allocated : (inum : ℕ) → IsFirst s 1 s.ninodes inum → IsNew kind s inum (after inum)
  allocated inum (low, high, free, first) = record {
    in_range = (low, high);
    was_free = free;
    first = first;
    loaded = loads_new inum;
    others = loads_other inum;
    blocks = λ b ne. let p : (b == iblock s inum) ≡ false = ground (arith, ne) in rw p refl;
  }

  -- For a type other than 0 and below 2 ^ 16, and at least one inode, `alloc_inode` gives the
  -- lowest number from 1 on whose inode has type 0 on the disk. From then on `ilock` loads that
  -- inode with the type and 0 in every other field of the disk, and every other inode as before,
  -- and no other block changes. It panics only where the inodes from 1 on are all in use.
  pub alloc_inode_lem : 1 ≤ s.ninodes → Allocates kind s (alloc_inode kind s)
  unfolding alloc_inode
  alloc_inode_lem some_inodes =
      let found = find_inode_lem s 1 (s.ninodes - 1) s.ninodes (omega (arith, some_inodes)) in
      elim (Option-cases (find_inode s 1 (s.ninodes - 1))) [
        | inl z ↦ rw (alloc_inode, z) (rw z at found)
        | inr (inum, z) ↦ rw (alloc_inode, z) (allocated inum (rw z at found))
      ]
