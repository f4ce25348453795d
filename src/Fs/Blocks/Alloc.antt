-- ===== src/Fs/Blocks/Alloc.antt =====
-- The search of balloc through the bitmap, and bfree.
use modified_xv.Base.{
  ℕ, zero, suc, ◌+◌, ◌-◌, ◌*◌, ◌/◌, ◌%◌, ◌≤◌, ◌<◌, ◌≡◌, ◌≢◌, refl, sym, ap, ◌∙◌, true, false,
  Option, none, some, ◌&&◌, not, arith, ◌==◌, ltb, ltb→lt, update, Bool-cases, if_ind, Option-cases,
  inl, inr,
}
use modified_xv.Fs.Blocks.{
  Fs, bpb, bblock, bit_at, put_block, clear_bit, balloc_from, balloc, bfree, without_bit,
}
use modified_xv.Fs.Blocks.Bits.{bit_at-without_bit, has_bit-without_bit}
use modified_xv.Fs.Blocks.Bitmap.{
  used, IsFormatted, Given, taken-Given, clear_bit-some, clear_bit-none, used_at,
}

-- The result of a search from block `b` of the bitmap on, when all blocks before are used.
abbrev pub Searched : Fs → Option (ℕ × Fs) → Type 0
Searched s (some (a, s')) = Given s a s'
Searched s none = (a : ℕ) → a < s.size → used s a ≡ true

used_in :
    (s : Fs) (b lim : ℕ)
    → b % bpb ≡ 0
    → lim ≤ bpb
    → ((a : ℕ) → a < b → used s a ≡ true)
    → ((j : ℕ) → j < lim → b + j < s.size → bit_at (s.block (bblock s b)) j ≡ true)
    → (a : ℕ) → a < b + lim
    → a < s.size
    → used s a ≡ true
used_in s b lim al le before here a lt fits = elim (Bool-cases (ltb a b)) [
  | inl e ↦ before a (ltb→lt _ _ e)
  | inr e ↦
      let ge : b ≤ a = ground arith in
      let q : b + (a - b) ≡ a = omega arith in
      ap (used s) (sym q)
      ∙ used_at s b (a - b) al (omega arith)
      ∙ here (a - b) (omega arith) (omega arith)
]

balloc_from-Searched :
    (s : Fs)
    → IsFormatted s
    → (fuel b : ℕ) → b % bpb ≡ 0
    → s.size < b + fuel * bpb
    → ((a : ℕ) → a < b → a < s.size → used s a ≡ true)
    → Searched s (balloc_from fuel b s)
unfolding balloc_from
balloc_from-Searched s ok zero b al enough before = λ a lt. before a (omega arith) lt
balloc_from-Searched s ok (suc fuel) b al enough before = elim (Bool-cases (ltb b s.size)) [
  | inr e ↦ rw e (λ a lt. before a (ground arith) lt)
  | inl e ↦
      let lb : b < s.size = ltb→lt _ _ e in
      let below : (a : ℕ) → a < b → used s a ≡ true = λ a lt. before a lt (omega arith) in
      elim (Option-cases (clear_bit (s.block (bblock s b)) s.size b 0 bpb)) [
        | inl c ↦
            rw (e, c)
              (balloc_from-Searched s ok fuel (b + bpb) (omega arith) (omega arith) (
                used_in s b bpb al (omega arith) below λ j x y.
                  clear_bit-none (s.block (bblock s b)) s.size b 0 bpb j c (omega arith) x y))
        | inr (bi, c) ↦
            let (f, top) = clear_bit-some (s.block (bblock s b)) s.size b 0 bpb bi c in
            let p : bblock s b ≡ bblock s (b + bi) = omega arith in
            let q : bi ≡ (b + bi) % bpb = omega arith in
            let g = taken-Given s ok (b + bi) f.fits (used_at s b bi al top ∙ f.clear) (λ a lt.
              used_in s b bi al (omega arith) below (λ j x y. f.before j (omega arith) x) a lt
                (omega (arith, f.fits))) in
            rw (e, c) (rw (← p, ← q) at g)
      ]
]

-- Where blocks hold bytes and the bitmap's blocks lie on the disk and are marked as used, `balloc`
-- returns the first block below the size that is not used; afterwards it is used and zeroed, no
-- other bit has changed, and no block but this one and its bitmap block has. It panics only where
-- every block is used.
pub balloc_lem : (s : Fs) → IsFormatted s → Searched s (balloc s)
unfolding balloc
balloc_lem s ok =
    balloc_from-Searched s ok (s.size / bpb + 1) 0 (omega arith) (omega arith)
      (λ a x y. absurd (omega arith))

-- What `bfree` does when it frees block `b`.
pub record Freed (s : Fs) (b : ℕ) (s' : Fs) : Type 0 where
  pub was_used : used s b ≡ true
  pub bits : (a : ℕ) → used s' a ≡ (not (a == b) && used s a)
  pub others : (c : ℕ) → c ≢ bblock s b → s'.block c ≡ s.block c
  pub size_kept : s'.size ≡ s.size
  pub map_kept : s'.bmapstart ≡ s.bmapstart
  pub inodes_kept : s'.inodestart ≡ s.inodestart
  pub formatted : ((a : ℕ) → a < s.size → bblock s a ≢ b) → IsFormatted s'

-- The state after the clearing of the bit of block `b`.
abbrev cleared : Fs → ℕ → Fs
cleared s b =
    let c = bblock s b in
    let bi = b % bpb in
    put_block c (update (s.block c) (bi / 8) (without_bit (s.block c (bi / 8)) (bi % 8))) s

module _ (s : Fs) (ok : IsFormatted s) (b : ℕ) where
  cleared-bits : (a : ℕ) → used (cleared s b) a ≡ (not (a == b) && used s a)
  cleared-bits a = elim (Bool-cases (bblock s a == bblock s b)) [
    | inl e ↦
        let eq : a / bpb ≡ b / bpb = ground arith in
        let same : (a % bpb == b % bpb) ≡ (a == b) = ground (arith, eq) in
        let h =
          bit_at-without_bit (s.block (bblock s b)) (b % bpb) (a % bpb) (ok.bytes (bblock s b)) in
        rw e (h ∙ rw (same, eq) refl)
    | inr e ↦ let ne : (a == b) ≡ false = ground arith in rw (e, ne) refl
  ]

  cleared-bytes : (c o : ℕ) → (cleared s b).block c o < 256
  cleared-bytes c o = elim (Bool-cases (c == bblock s b)) [
    | inr z ↦ rw z (ok.bytes c o)
    | inl z ↦ elim (Bool-cases (o == b % bpb / 8)) [
      | inr w ↦ rw (z, w) (ok.bytes (bblock s b) o)
      | inl w ↦
          rw (z, w)
            (has_bit-without_bit (s.block (bblock s b) (b % bpb / 8)) (b % bpb % 8) 0
              (ok.bytes (bblock s b) (b % bpb / 8)) (omega arith) (omega arith)).1
    ]
  ]

  cleared-other : (c : ℕ) → c ≢ bblock s b → (cleared s b).block c ≡ s.block c
  cleared-other c h = let p : (c == bblock s b) ≡ false = ground arith in rw p refl

  cleared-Freed : used s b ≡ true → Freed s b (cleared s b)
  cleared-Freed u = record {
    was_used = u;
    bits = cleared-bits;
    others = cleared-other;
    size_kept = refl;
    map_kept = refl;
    inodes_kept = refl;
    formatted = λ h. record {
      bytes = cleared-bytes;
      map_used = λ a lt.
          let ne : (bblock s a == b) ≡ false = ground (arith, h a lt) in
          cleared-bits (bblock s a) ∙ rw ne (ok.map_used a lt);
      map_small = ok.map_small;
    };
  }

-- The result of `bfree` at block `b`.
abbrev pub FreeResult : Fs → ℕ → Option Fs → Type 0
FreeResult s b (some s') = Freed s b s'
FreeResult s b none = used s b ≡ false

-- Where blocks hold bytes and the bitmap is marked as used, `bfree` of a used block clears its
-- bit, no other bit, and changes no block but its bitmap block; of a block that is not used it
-- panics.
pub bfree_lem : (s : Fs) (b : ℕ) → IsFormatted s → FreeResult s b (bfree b s)
unfolding bfree
bfree_lem s b ok = if_ind (FreeResult s b) (used s b) _ _ (λ e. cleared-Freed s ok b e) (λ e. e)
