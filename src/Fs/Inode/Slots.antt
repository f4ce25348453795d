-- ===== src/Fs/Inode/Slots.antt =====
-- The block numbers that an inode holds, and the bytes of its file.
use modified_xv.Base.{
  ℕ, ◌+◌, ◌-◌, ◌/◌, ◌%◌, ◌^◌, ◌≤◌, ◌<◌, ◌≡◌, ◌≢◌, refl, sym, ap, ◌∙◌, true, false, ◌||◌, ◌==◌,
  ==_iff, ==_refl, ltb, arith, Bool-cases, if_ind, inl, inr, if◌then◌else◌,
}
use modified_xv.Fs.Blocks.{Fs, bblock}
use modified_xv.Fs.Blocks.Bitmap.{used, IsFormatted, Given}
use modified_xv.Fs.Blocks.Free.{free_blocks, free_blocks-take}
use modified_xv.Fs.Inode.{Inode, ndirect, maxfile, entry}

-- The number in entry `k`: those of the data blocks, and the indirect block's as the last one.
abbrev pub slot : Inode → Fs → ℕ → ℕ
slot ip s k =
    if ltb k ndirect
    then ip.addrs k
    else if k == maxfile
    then ip.addrs ndirect
    else if ip.addrs ndirect == 0
    then 0
    else entry (s.block (ip.addrs ndirect)) (k - ndirect)

-- Byte `i` of the file. What no block holds is zero.
abbrev pub content : Inode → Fs → ℕ → ℕ
content ip s i = if slot ip s (i / 512) == 0 then 0 else s.block (slot ip s (i / 512)) (i % 512)

-- A block that holds data of an inode, or block numbers.
pub record IsHeld (s : Fs) (b : ℕ) : Type 0 where
  pub small : b < s.size
  pub taken : used s b ≡ true
  pub apart : (a : ℕ) → a < s.size → bblock s a ≢ b

-- A block that something else holds, such as another file.
pub record IsForeign (ip : Inode) (s : Fs) (c : ℕ) : Type 0 where
  pub held : IsHeld s c
  pub real : c ≢ 0
  pub other : (k : ℕ) → k ≤ maxfile → slot ip s k ≢ c

-- The blocks of an inode are distinct and used, none of them is in the bitmap or is block 0.
pub record IsSound (ip : Inode) (s : Fs) : Type 0 where
  pub formatted : IsFormatted s
  pub few : s.size ≤ 2 ^ 32
  pub boot : IsHeld s 0
  pub held : (k : ℕ) → k ≤ maxfile → slot ip s k ≢ 0 → IsHeld s (slot ip s k)
  pub distinct :
      (j k : ℕ) → j ≤ maxfile → k ≤ maxfile → slot ip s j ≢ 0 → slot ip s j ≡ slot ip s k → j ≡ k

-- What a new block for entry `k` changes.
pub record IsGrown (ip : Inode) (s : Fs) (k b : ℕ) (s1 : Fs) (ip' : Inode) (s' : Fs) : Type 0 where
  pub given : Given s b s1
  pub in_range : k ≤ maxfile
  pub was_empty : slot ip s k ≡ 0
  pub slots : (j : ℕ) → j ≤ maxfile → slot ip' s' j ≡ (if j == k then b else slot ip s j)
  pub blocks : (c : ℕ) → c ≢ slot ip' s' maxfile → s'.block c ≡ s1.block c
  pub bits : (a : ℕ) → a < s.size → used s' a ≡ used s1 a
  pub size_kept : s'.size ≡ s1.size
  pub map_kept : s'.bmapstart ≡ s1.bmapstart
  pub inodes_kept : s'.inodestart ≡ s1.inodestart
  pub fields_kept : ip' ≡ record ip { addrs = ip'.addrs }
  pub formatted : IsFormatted s'

module _ (ip : Inode) (s : Fs) (k b : ℕ) (s1 : Fs) (ip' : Inode) (s' : Fs) (ok : IsSound ip s)
    (g : IsGrown ip s k b s1 ip' s') where
  new_used : (a : ℕ) → a < s.size → used s' a ≡ (a == b || used s a)
  new_used a lt = g.bits a lt ∙ g.given.bits a lt

  pub same_size : s'.size ≡ s.size
  same_size = g.size_kept ∙ g.given.size_kept

  same_map : s'.bmapstart ≡ s.bmapstart
  same_map = g.map_kept ∙ g.given.map_kept

  stays_used : (a : ℕ) → a < s.size → used s a ≡ true → used s' a ≡ true
  stays_used a lt u = new_used a lt ∙ ground (arith, u)

  -- A used block is not the new one.
  not_new : (a : ℕ) → used s a ≡ true → (a == b) ≡ false
  not_new a u = elim (Bool-cases (a == b)) [
    | inr e ↦ e
    | inl e ↦ cc (u, ap (used s) ((==_iff a b).0 e), g.given.free)
  ]

  new_held : IsHeld s' b
  new_held = record {
    small = rw same_size g.given.small;
    taken = new_used b g.given.small ∙ rw (==_refl b) refl;
    apart = λ a lt eq.
        let lt' : a < s.size = omega (arith, lt, same_size) in
        let ne = not_new (bblock s a) (ok.formatted.map_used a lt') in
        cc ((==_iff _ _).1 (rw same_map at eq), ne);
  }

  pub old_held : (a : ℕ) → IsHeld s a → IsHeld s' a
  old_held a h = record {
    small = rw same_size h.small;
    taken = stays_used a h.small h.taken;
    apart = λ c lt eq. h.apart c (omega (arith, lt, same_size)) (rw same_map at eq);
  }

  new_slots_held : (j : ℕ) → j ≤ maxfile → slot ip' s' j ≢ 0 → IsHeld s' (slot ip' s' j)
  new_slots_held j le ne = elim (Bool-cases (j == k)) [
    | inl e ↦ let p = g.slots j le in rw (p, e) new_held
    | inr e ↦
        let p : slot ip' s' j ≡ slot ip s j = g.slots j le ∙ rw e refl in
        rw p (old_held (slot ip s j) (ok.held j le λ z. ne (p ∙ z)))
  ]

  not_shared : (l : ℕ) → l ≤ maxfile → slot ip s l ≢ 0 → slot ip s l ≢ b
  not_shared l le ne eq =
      let u = (ok.held l le ne).taken in cc (not_new (slot ip s l) u, (==_iff _ _).1 eq)

  pub new_distinct :
      (i j : ℕ)
      → i ≤ maxfile
      → j ≤ maxfile
      → slot ip' s' i ≢ 0
      → slot ip' s' i ≡ slot ip' s' j
      → i ≡ j
  new_distinct i j a c ne eq =
      let p = g.slots i a in
      let q = g.slots j c in
      elim (Bool-cases (i == k)) [
        | inl e ↦ elim (Bool-cases (j == k)) [
          | inl f ↦ ground (arith, e, f)
          | inr f ↦
              let r : slot ip s j ≡ b = sym (rw f at q) ∙ sym eq ∙ (p ∙ rw e refl) in
              let nz : slot ip s j ≢ 0 = λ z. ne (eq ∙ (rw f at q) ∙ z) in
              absurd (not_shared j c nz r)
        ]
        | inr e ↦
            let p' : slot ip' s' i ≡ slot ip s i = p ∙ rw e refl in
            let nz : slot ip s i ≢ 0 = λ z. ne (p' ∙ z) in
            elim (Bool-cases (j == k)) [
              | inl f ↦ absurd (not_shared i a nz (sym p' ∙ eq ∙ q ∙ rw f refl))
              | inr f ↦ ok.distinct i j a c nz (sym p' ∙ eq ∙ q ∙ rw f refl)
            ]
      ]

  pub grown-IsSound : IsSound ip' s'
  grown-IsSound = record {
    formatted = g.formatted;
    few = rw same_size ok.few;
    boot = old_held 0 ok.boot;
    held = new_slots_held;
    distinct = new_distinct;
  }

  -- A used block that is neither in the bitmap nor the indirect block keeps its bytes.
  pub grown-block : (c : ℕ) → IsHeld s c → c ≢ slot ip' s' maxfile → s'.block c ≡ s.block c
  grown-block c h ne =
      let nb = not_new c h.taken in
      g.blocks c ne
      ∙ g.given.others c (λ eq. cc ((==_iff _ _).1 eq, nb)) (λ eq. h.apart b g.given.small (sym eq))

  pub grown-content : (i : ℕ) → i / 512 < maxfile → content ip' s' i ≡ content ip s i
  grown-content i lt =
      let bn = i / 512 in
      let p = g.slots bn (omega (arith, lt)) in
      elim (Bool-cases (bn == k)) [
        | inl e ↦
            let old : slot ip s bn ≡ 0 = ap (slot ip s) ((==_iff _ _).0 e) ∙ g.was_empty in
            let new : slot ip' s' bn ≡ b = p ∙ rw e refl in
            let nz : b ≢ 0 = λ z. cc (not_new 0 ok.boot.taken, (==_iff _ _).1 (sym z)) in
            let ne : b ≢ slot ip' s' maxfile = λ y.
              let w =
                new_distinct bn maxfile (omega (arith, lt)) (omega arith) (λ v. nz (sym new ∙ v))
                  (new ∙ y) in
              absurd (omega (arith, w, lt)) in
            let z : s'.block b (i % 512) ≡ 0 =
              ap (λ f. f (i % 512)) (g.blocks b ne) ∙ g.given.zeroed (i % 512) in
            rw (new, old, z) (if_ind (λ v. v ≡ 0) (b == 0) 0 0 (λ e. refl) (λ e. refl))
        | inr e ↦
            let p' : slot ip' s' bn ≡ slot ip s bn = p ∙ rw e refl in
            elim (Bool-cases (slot ip s bn == 0)) [
              | inl z ↦ rw (p', z) refl
              | inr z ↦
                  let nz : slot ip s bn ≢ 0 = λ y. cc ((==_iff _ _).1 y, z) in
                  let ne : slot ip s bn ≢ slot ip' s' maxfile = λ y.
                    let w =
                      new_distinct bn maxfile (omega (arith, lt)) (omega arith)
                        (λ v. nz (sym p' ∙ v)) (p' ∙ y) in
                    absurd (omega (arith, w, lt)) in
                  rw (p', z)
                    (ap (λ f. f (i % 512))
                      (grown-block (slot ip s bn) (ok.held bn (omega (arith, lt)) nz) ne))
            ]
      ]

  pub grown-IsForeign : (c : ℕ) → IsForeign ip s c → IsForeign ip' s' c × (s'.block c ≡ s.block c)
  grown-IsForeign c h =
      let nb = not_new c h.held.taken in
      let other : (j : ℕ) → j ≤ maxfile → slot ip' s' j ≢ c = λ j le e. elim (Bool-cases (j == k)) [
        | inl x ↦ cc ((==_iff c b).1 (sym e ∙ g.slots j le ∙ rw x refl), nb)
        | inr x ↦ h.other j le (sym (g.slots j le ∙ rw x refl) ∙ e)
      ] in
      (
        record { held = old_held c h.held; real = h.real; other = other },
        grown-block c h.held (λ e. other maxfile (omega arith) (sym e)),
      )

-- What the loading of entry `k` gives and keeps.
pub record IsLoaded (cost : ℕ) (ip : Inode) (s : Fs) (k a : ℕ) (ip' : Inode) (s' : Fs)
    : Type 0 where
  pub sound : IsSound ip' s'
  pub address : slot ip' s' k ≡ a
  pub real : a ≢ 0
  pub spent : free_blocks s ≤ cost + free_blocks s'
  pub slots_kept : (j : ℕ) → j ≤ maxfile → slot ip s j ≢ 0 → slot ip' s' j ≡ slot ip s j
  pub no_others : (j : ℕ) → j < maxfile → j ≢ k → slot ip s j ≡ 0 → slot ip' s' j ≡ 0
  pub content_kept : (i : ℕ) → i / 512 < maxfile → content ip' s' i ≡ content ip s i
  pub foreign_kept : (c : ℕ) → IsForeign ip s c → IsForeign ip' s' c × (s'.block c ≡ s.block c)
  pub size_kept : s'.size ≡ s.size
  pub inodes_kept : s'.inodestart ≡ s.inodestart
  pub fields_kept : ip' ≡ record ip { addrs = ip'.addrs }

pub grown-IsLoaded :
    (ip : Inode) (s : Fs) (k b : ℕ) (s1 : Fs) (ip' : Inode) (s' : Fs)
    → IsSound ip s
    → IsGrown ip s k b s1 ip' s'
    → IsLoaded 1 ip s k b ip' s'
grown-IsLoaded ip s k b s1 ip' s' ok g = record {
  sound = grown-IsSound ip s k b s1 ip' s' ok g;
  address = g.slots k g.in_range ∙ rw (==_refl k) refl;
  spent =
      let e =
        free_blocks-take s s' b g.given.small (same_size ip s k b s1 ip' s' ok g) g.given.free
          (new_used ip s k b s1 ip' s' ok g) in
      omega (arith, e);
  real = λ z. cc (g.given.free, ap (used s) z, ok.boot.taken);
  slots_kept = λ j le nz.
      let ne : (j == k) ≡ false = elim (Bool-cases (j == k)) [
        | inr e ↦ e
        | inl e ↦ absurd (nz (ap (slot ip s) ((==_iff j k).0 e) ∙ g.was_empty))
      ] in
      g.slots j le ∙ rw ne refl;
  no_others = λ j lt ne z.
      let ne' : (j == k) ≡ false = ground (arith, ne) in g.slots j (omega (arith, lt)) ∙ rw ne' z;
  content_kept = grown-content ip s k b s1 ip' s' ok g;
  foreign_kept = grown-IsForeign ip s k b s1 ip' s' ok g;
  size_kept = same_size ip s k b s1 ip' s' ok g;
  inodes_kept = g.inodes_kept ∙ g.given.inodes_kept;
  fields_kept = g.fields_kept;
}

-- An entry that is there is loaded with no change.
pub present-IsLoaded :
    (cost : ℕ) (ip : Inode) (s : Fs) (k a : ℕ)
    → IsSound ip s
    → slot ip s k ≡ a
    → a ≢ 0
    → IsLoaded cost ip s k a ip s
present-IsLoaded cost ip s k a ok eq nz = record {
  sound = ok;
  address = eq;
  real = nz;
  spent = omega arith;
  slots_kept = λ j le z. refl;
  no_others = λ j lt ne z. z;
  content_kept = λ i lt. refl;
  foreign_kept = λ c h. (h, refl);
  size_kept = refl;
  inodes_kept = refl;
  fields_kept = refl;
}

-- The loading of the indirect block, and of an entry after it.
pub IsLoaded-trans :
    (c d : ℕ) (ip : Inode) (s : Fs) (k ind a : ℕ) (ip1 : Inode) (s1 : Fs) (ip2 : Inode) (s2 : Fs)
    → IsLoaded c ip s maxfile ind ip1 s1
    → IsLoaded d ip1 s1 k a ip2 s2
    → IsLoaded (c + d) ip s k a ip2 s2
IsLoaded-trans c d ip s k ind a ip1 s1 ip2 s2 f g = record {
  sound = g.sound;
  address = g.address;
  real = g.real;
  spent = omega (arith, f.spent, g.spent);
  slots_kept =
      λ j le nz. let p = f.slots_kept j le nz in g.slots_kept j le (λ z. nz (sym p ∙ z)) ∙ p;
  no_others =
      λ j lt ne z. g.no_others j lt ne (f.no_others j lt (λ e. absurd (omega (arith, lt, e))) z);
  content_kept = λ i lt. g.content_kept i lt ∙ f.content_kept i lt;
  foreign_kept = λ c h.
      let (h1, e1) = f.foreign_kept c h in let (h2, e2) = g.foreign_kept c h1 in (h2, e2 ∙ e1);
  size_kept = g.size_kept ∙ f.size_kept;
  inodes_kept = g.inodes_kept ∙ f.inodes_kept;
  fields_kept =
      g.fields_kept
      ∙ ap {A = Inode} {B = Inode} (λ i. record i { addrs = ip2.addrs }) f.fields_kept;
}
