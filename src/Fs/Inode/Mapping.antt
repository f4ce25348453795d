-- ===== src/Fs/Inode/Mapping.antt =====
-- What bmap of fs.c does to the entries of an inode and to its file.
use modified_xv.Base.{
  ℕ, ◌+◌, ◌-◌, ◌*◌, ◌/◌, ◌%◌, ◌≤◌, ◌<◌, ◌≡◌, ◌≢◌, refl, sym, ap, ◌∙◌, false, ◌==◌, ==_iff, ==_refl,
  ltb, arith, Bool-cases, if_ind, inl, inr, if◌then◌else◌, update,
}
use modified_xv.Fs.Blocks.{Fs, put_block, bblock, has_bit, bpb}
use modified_xv.Fs.Blocks.Bitmap.{used, Given}
use modified_xv.Fs.Bytes.{put_le, put_le-bytes, get_le-put_le, get_le-put_le_other, get_le-zero}
use modified_xv.Fs.Inode.{Inode, ndirect, maxfile, entry}
use modified_xv.Fs.Inode.Slots.{slot, IsHeld, IsSound, IsGrown}

-- The file system after an allocation for entry `i` of `addrs`.
module _ (ip : Inode) (s : Fs) (ok : IsSound ip s) (b : ℕ) (s1 : Fs) (g : Given s b s1) where
  -- A block of the inode is not the new one and not the bitmap's.
  kept : (c : ℕ) → IsHeld s c → s1.block c ≡ s.block c
  kept c h = g.others c (λ e. cc (h.taken, ap (used s) e, g.free)) (λ e. h.apart b g.small (sym e))

  entry_kept :
      (k : ℕ)
      → ip.addrs ndirect ≢ 0
      → entry (s1.block (ip.addrs ndirect)) k ≡ entry (s.block (ip.addrs ndirect)) k
  entry_kept k nz = ap (λ f. entry f k) (kept (ip.addrs ndirect) (ok.held maxfile (omega arith) nz))

  -- A direct entry.
  pub direct_slots :
      (k j : ℕ)
      → k < ndirect
      → slot (record ip { addrs = update ip.addrs k b }) s1 j ≡ (if j == k then b else slot ip s j)
  direct_slots k j lt =
      let other : (ndirect == k) ≡ false = ground (arith, lt) in
      elim (Bool-cases (ltb j ndirect)) [
        | inl e ↦ rw e refl
        | inr e ↦
            let jk : (j == k) ≡ false = ground (arith, lt) in
            elim (Bool-cases (j == maxfile)) [
              | inl f ↦ rw (e, f, jk, other) refl
              | inr f ↦ elim (Bool-cases (ip.addrs ndirect == 0)) [
                | inl z ↦ rw (e, f, jk, other, z) refl
                | inr z ↦
                    rw (e, f, jk, other, z)
                      (entry_kept (j - ndirect) (λ y. cc ((==_iff _ _).1 y, z)))
              ]
            ]
      ]

  -- The entry of the indirect block.
  pub indirect_slots :
      (j : ℕ)
      → ip.addrs ndirect ≡ 0
      → slot (record ip { addrs = update ip.addrs ndirect b }) s1 j
        ≡ (if j == maxfile then b else slot ip s j)
  indirect_slots j z = elim (Bool-cases (ltb j ndirect)) [
    | inl e ↦
        let p : (j == maxfile) ≡ false = ground arith in
        let q : (j == ndirect) ≡ false = ground arith in rw (e, p, q) refl
    | inr e ↦ elim (Bool-cases (j == maxfile)) [
      | inl f ↦ rw (e, f) refl
      | inr f ↦
          let empty = get_le-zero 4 (s1.block b) (4 * (j - ndirect)) g.zeroed in
          rw (e, f, empty, z) (if_ind (λ v. v ≡ 0) (b == 0) 0 0 (λ h. refl) (λ h. refl))
    ]
  ]

  pub IsGrown-addr :
      (i k : ℕ)
      → k ≤ maxfile
      → slot ip s k ≡ 0
      → ((j : ℕ)
          → slot (record ip { addrs = update ip.addrs i b }) s1 j
            ≡ (if j == k then b else slot ip s j))
      → IsGrown ip s k b s1 (record ip { addrs = update ip.addrs i b }) s1
  IsGrown-addr i k le z slots = record {
    given = g;
    in_range = le;
    was_empty = z;
    slots = λ j h. slots j;
    blocks = λ c ne. refl;
    bits = λ a h. refl;
    size_kept = refl;
    map_kept = refl;
    inodes_kept = refl;
    fields_kept = refl;
    formatted = g.formatted;
  }

  -- An entry of the indirect block.
  module _ (k : ℕ) (lt : k < 128) (nz : ip.addrs ndirect ≢ 0)
      (empty : entry (s.block (ip.addrs ndirect)) k ≡ 0) where
    abbrev stored : Fs
    stored = put_block (ip.addrs ndirect) (put_le 4 (s1.block (ip.addrs ndirect)) (4 * k) b) s1

    stored_slots : (j : ℕ) → slot ip stored j ≡ (if j == k + ndirect then b else slot ip s j)
    stored_slots j = elim (Bool-cases (ltb j ndirect)) [
      | inl e ↦ let p : (j == k + ndirect) ≡ false = ground arith in rw (e, p) refl
      | inr e ↦ elim (Bool-cases (j == maxfile)) [
        | inl f ↦ let p : (j == k + ndirect) ≡ false = ground (arith, lt) in rw (e, f, p) refl
        | inr f ↦
            let z : (ip.addrs ndirect == 0) ≡ false = ground (arith, nz) in
            elim (Bool-cases (j == k + ndirect)) [
              | inl p ↦
                  let q : j - ndirect ≡ k = ground arith in
                  let v =
                    get_le-put_le 4 (s1.block (ip.addrs ndirect)) (4 * k) b
                      (omega (arith, g.small, ok.few)) in
                  rw (e, f, p, z, q, ==_refl (ip.addrs ndirect)) v
              | inr p ↦
                  let v =
                    get_le-put_le_other 4 4 (s1.block (ip.addrs ndirect)) (4 * k) b
                      (4 * (j - ndirect))
                      (elim (Bool-cases (ltb (j - ndirect) k)) [
                        | inl w ↦ inl (ground arith)
                        | inr w ↦ inr (ground arith)
                      ]) in
                  rw (e, f, p, z, ==_refl (ip.addrs ndirect)) (v ∙ entry_kept (j - ndirect) nz)
            ]
      ]
    ]

    stored_block : (c : ℕ) → c ≢ ip.addrs ndirect → stored.block c ≡ s1.block c
    stored_block c ne = let p : (c == ip.addrs ndirect) ≡ false = ground (arith, ne) in rw p refl

    stored_bits : (a : ℕ) → a < s.size → used stored a ≡ used s1 a
    stored_bits a h =
        let apart : bblock s1 a ≢ ip.addrs ndirect =
          λ e. (ok.held maxfile (omega arith) nz).apart a h (rw g.map_kept at e) in
        ap (λ f. has_bit (f (a % bpb / 8)) (a % bpb % 8)) (stored_block (bblock s1 a) apart)

    stored_bytes : (c o : ℕ) → stored.block c o < 256
    stored_bytes c o = elim (Bool-cases (c == ip.addrs ndirect)) [
      | inl e ↦ rw e (
          put_le-bytes 4 (s1.block (ip.addrs ndirect)) (4 * k) b
            (g.formatted.bytes (ip.addrs ndirect)) o)
      | inr e ↦ rw e (g.formatted.bytes c o)
    ]

    pub IsGrown-entry : IsGrown ip s (k + ndirect) b s1 ip stored
    IsGrown-entry = record {
      given = g;
      in_range = omega (arith, lt);
      was_empty =
          let p : ltb (k + ndirect) ndirect ≡ false = ground arith in
          let q : (k + ndirect == maxfile) ≡ false = ground (arith, lt) in
          let z : (ip.addrs ndirect == 0) ≡ false = ground (arith, nz) in
          let w : k + ndirect - ndirect ≡ k = omega arith in rw (p, q, z, w) empty;
      slots = λ j h. stored_slots j;
      blocks = λ c ne. stored_block c ne;
      bits = stored_bits;
      size_kept = refl;
      map_kept = refl;
      inodes_kept = refl;
      fields_kept = refl;
      formatted = record {
        bytes = stored_bytes;
        map_used = λ a h.
            let h' : a < s.size = omega (arith, h, g.size_kept) in
            let small : bblock s1 a < s.size =
              omega (arith, g.formatted.map_small a h, g.size_kept) in
            stored_bits (bblock s1 a) small ∙ g.formatted.map_used a h;
        map_small = g.formatted.map_small;
      };
    }
