-- ===== src/Fs/Blocks/Bitmap.antt =====
-- balloc and bfree of fs.c on the bitmap and on the other blocks.
use modified_xv.Base.{
  ℕ, zero, suc, ◌+◌, ◌/◌, ◌%◌, ◌≤◌, ◌<◌, ◌≡◌, ◌≢◌, refl, ap, ◌∙◌, Bool, true, false, none, some,
  ◌||◌, arith, ◌==◌, ==_iff, ==_refl, ltb, ltb→lt, Bool-cases, inl, inr, some_inj,
}
use modified_xv.Fs.Blocks.{Fs, bpb, bblock, bit_at, mark_used, bzero, clear_bit}
use modified_xv.Fs.Blocks.Bits.{bit_at-with_bit, has_bit-with_bit}

-- The bitmap's bit of block `b`.
abbrev pub used : Fs → ℕ → Bool
used s b = bit_at (s.block (bblock s b)) (b % bpb)

-- Blocks hold bytes, and the blocks of the bitmap lie on the disk and are marked as used.
pub record IsFormatted (s : Fs) : Type 0 where
  pub bytes : (b o : ℕ) → s.block b o < 256
  pub map_used : (b : ℕ) → b < s.size → used s (bblock s b) ≡ true
  pub map_small : (b : ℕ) → b < s.size → bblock s b < s.size

-- What `balloc` does when it gives block `b`.
pub record Given (s : Fs) (b : ℕ) (s' : Fs) : Type 0 where
  pub small : b < s.size
  pub free : used s b ≡ false
  pub first : (a : ℕ) → a < b → used s a ≡ true
  pub bits : (a : ℕ) → a < s.size → used s' a ≡ (a == b || used s a)
  pub zeroed : (o : ℕ) → s'.block b o ≡ 0
  pub others : (c : ℕ) → c ≢ b → c ≢ bblock s b → s'.block c ≡ s.block c
  pub size_kept : s'.size ≡ s.size
  pub map_kept : s'.bmapstart ≡ s.bmapstart
  pub inodes_kept : s'.inodestart ≡ s.inodestart
  pub formatted : IsFormatted s'

-- The first clear bit is found, or all are set.
pub record Found (f : ℕ → ℕ) (size b bi r : ℕ) : Type 0 where
  pub low : bi ≤ r
  pub fits : b + r < size
  pub clear : bit_at f r ≡ false
  pub before : (j : ℕ) → bi ≤ j → j < r → bit_at f j ≡ true

pub clear_bit-some :
    (f : ℕ → ℕ) (size b bi left r : ℕ)
    → clear_bit f size b bi left ≡ some r
    → Found f size b bi r × (r < bi + left)
unfolding clear_bit
clear_bit-some f size b bi zero r h = cc
clear_bit-some f size b bi (suc left) r h = elim (Bool-cases (ltb (b + bi) size)) [
  | inr e ↦ cc (rw e at h)
  | inl e ↦ elim (Bool-cases (bit_at f bi)) [
    | inr z ↦
        let q : bi ≡ r = some_inj (rw (e, z) at h) in
        (
          record {
            low = omega arith;
            fits = rw (← q) (ltb→lt _ _ e);
            clear = rw (← q) z;
            before = λ j x y. absurd (omega arith);
          },
          omega arith,
        )
    | inl z ↦
        let (ih, top) = clear_bit-some f size b (suc bi) left r (rw (e, z) at h) in
        (
          record {
            low = omega (arith, ih.low);
            fits = ih.fits;
            clear = ih.clear;
            before = λ j x y. elim (Bool-cases (j == bi)) [
              | inl w ↦ rw ((==_iff j bi).0 w) z
              | inr w ↦ ih.before j (ground arith) y
            ];
          },
          omega arith,
        )
  ]
]

pub clear_bit-none :
    (f : ℕ → ℕ) (size b bi left j : ℕ)
    → clear_bit f size b bi left ≡ none
    → bi ≤ j
    → j < bi + left
    → b + j < size
    → bit_at f j ≡ true
unfolding clear_bit
clear_bit-none f size b bi zero j h x y z = absurd (omega arith)
clear_bit-none f size b bi (suc left) j h x y z =
    let e : ltb (b + bi) size ≡ true = ground arith in
    elim (Bool-cases (bit_at f bi)) [
      | inr w ↦ cc (rw (e, w) at h)
      | inl w ↦ elim (Bool-cases (j == bi)) [
        | inl v ↦ rw ((==_iff j bi).0 v) w
        | inr v ↦
            clear_bit-none f size b (suc bi) left j (rw (e, w) at h) (ground arith) (omega arith) z
      ]
    ]

-- The bit of `b + bi` in the bitmap, where `b` starts a block of the bitmap.
pub used_at :
    (s : Fs) (b bi : ℕ)
    → b % bpb ≡ 0
    → bi < bpb
    → used s (b + bi) ≡ bit_at (s.block (bblock s b)) bi
used_at s b bi h lt =
    let p : (b + bi) / bpb ≡ b / bpb = omega arith in
    let q : (b + bi) % bpb ≡ bi = omega arith in rw (p, q) refl

-- The state after the marking and the zeroing of block `b`.
abbrev pub taken : Fs → ℕ → Fs
taken s b = bzero b (mark_used (bblock s b) (b % bpb) s)

taken-other : (s : Fs) (b c : ℕ) → c ≢ b → c ≢ bblock s b → (taken s b).block c ≡ s.block c
unfolding mark_used bzero
taken-other s b c h k =
    let p : (c == b) ≡ false = ground arith in
    let q : (c == bblock s b) ≡ false = ground arith in rw (p, q) refl

module _ (s : Fs) (ok : IsFormatted s) (b : ℕ) (small : b < s.size) (free : used s b ≡ false) where
  -- The bitmap's block of any block is another one than the free block.
  apart : (a : ℕ) → a < s.size → (bblock s a == b) ≡ false
  apart a lt = elim (Bool-cases (bblock s a == b)) [
    | inr e ↦ e
    | inl e ↦
        let p : bblock s a ≡ b = (==_iff _ _).0 e in cc (ok.map_used a lt, ap (used s) p, free)
  ]

  taken-bits : (a : ℕ) → a < s.size → used (taken s b) a ≡ (a == b || used s a)
  unfolding mark_used bzero
  taken-bits a lt = elim (Bool-cases (bblock s a == bblock s b)) [
    | inl e ↦
        let eq : a / bpb ≡ b / bpb = ground arith in
        let same : (a % bpb == b % bpb) ≡ (a == b) = ground (arith, eq) in
        let ch : bblock s a ≡ bblock s b = (==_iff _ _).0 e in
        let h = bit_at-with_bit (s.block (bblock s b)) (b % bpb) (a % bpb) (ok.bytes _) in
        rw (apart a lt, e) (h ∙ rw (same, eq) refl)
    | inr e ↦ let ne : (a == b) ≡ false = ground arith in rw (apart a lt, e, ne) refl
  ]

  pub taken-bytes : (c o : ℕ) → (taken s b).block c o < 256
  unfolding mark_used bzero
  taken-bytes c o = elim (Bool-cases (c == b)) [
    | inl e ↦ rw e (omega arith)
    | inr e ↦ elim (Bool-cases (c == bblock s b)) [
      | inr z ↦ rw (e, z) (ok.bytes c o)
      | inl z ↦ elim (Bool-cases (o == b % bpb / 8)) [
        | inr w ↦ rw (e, z, w) (ok.bytes _ o)
        | inl w ↦ rw (e, z, w) (has_bit-with_bit _ _ 0 (ok.bytes _ _) (omega arith) (omega arith)).1
      ]
    ]
  ]

  taken-IsFormatted : IsFormatted (taken s b)
  unfolding mark_used bzero
  taken-IsFormatted = record {
    bytes = taken-bytes;
    map_used = λ a lt.
        let m = ok.map_small a lt in taken-bits (bblock s a) m ∙ ground (arith, ok.map_used a lt);
    map_small = ok.map_small;
  }

  pub taken-Given : ((a : ℕ) → a < b → used s a ≡ true) → Given s b (taken s b)
  unfolding mark_used bzero
  taken-Given first = record {
    small = small;
    free = free;
    first = first;
    bits = taken-bits;
    zeroed = λ o. rw (==_refl b) refl;
    others = taken-other s b;
    size_kept = refl;
    map_kept = refl;
    inodes_kept = refl;
    formatted = taken-IsFormatted;
  }
