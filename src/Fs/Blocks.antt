-- ===== src/Fs/Blocks.antt =====
-- The block layer of fs.c: the superblock, blocks as bytes, bzero, balloc and bfree.
pub mod Bits
pub mod Bitmap
pub mod Alloc
pub mod Free
use modified_xv.Base.{
  ℕ, zero, suc, ◌+◌, ◌-◌, ◌*◌, ◌/◌, ◌%◌, ◌^◌, Bool, Option, none, some, List, ◌∷◌, ◌==◌, ltb,
  if◌then◌else◌, update,
}

abbrev pub bsize : ℕ
bsize = 512

-- Bits of the bitmap in one block.
abbrev pub bpb : ℕ
bpb = 4096

-- The fields of `struct superblock` in use, the bytes of each block as the buffer cache holds
-- them, and the blocks given to `log_write`, the last one first.
pub record Fs : Type 0 where
  pub size : ℕ
  pub inodestart : ℕ
  pub bmapstart : ℕ
  pub ninodes : ℕ
  pub block : ℕ → ℕ → ℕ
  pub logged : List ℕ

-- A change of a block's bytes, and its entry into the list for `log_write`, whose panics (no
-- transaction, a full log) are not in this model: the list says how often it was called.
abbrev pub put_block : ℕ → (ℕ → ℕ) → Fs → Fs
put_block b bytes s = record s { block = update s.block b bytes; logged = b ∷ s.logged }

-- `byte & (1 << k)`
abbrev pub has_bit : ℕ → ℕ → Bool
has_bit byte k = byte / 2 ^ k % 2 == 1

-- `byte | (1 << k)`
unfoldable pub with_bit : ℕ → ℕ → ℕ
with_bit byte k = if has_bit byte k then byte else byte + 2 ^ k

-- `byte & ~(1 << k)`
pub without_bit : ℕ → ℕ → ℕ
without_bit byte k = if has_bit byte k then byte - 2 ^ k else byte

-- `BBLOCK`
abbrev pub bblock : Fs → ℕ → ℕ
bblock s b = b / bpb + s.bmapstart

-- Bit `bi` of a bitmap block.
abbrev pub bit_at : (ℕ → ℕ) → ℕ → Bool
bit_at bytes bi = has_bit (bytes (bi / 8)) (bi % 8)

unfoldable pub bzero : ℕ → Fs → Fs
bzero b s = put_block b (λ o. 0) s

-- The inner loop of `balloc` from `bi`, with `left` bits to go: the first clear one.
unfoldable pub clear_bit : (ℕ → ℕ) → ℕ → ℕ → ℕ → ℕ → Option ℕ
clear_bit bytes size b bi zero = none
clear_bit bytes size b bi (suc left) =
    let rest = clear_bit bytes size b (suc bi) left in
    if ltb (b + bi) size then (if bit_at bytes bi then rest else some bi) else none

-- `bp->bytes[bi/8] |= m; log_write(bp)`
unfoldable pub mark_used : ℕ → ℕ → Fs → Fs
mark_used c bi s =
    put_block c (update (s.block c) (bi / 8) (with_bit (s.block c (bi / 8)) (bi % 8))) s

-- The outer loop from block `b`, with `fuel` bitmap blocks to go; `none` is the panic.
unfoldable pub balloc_from : ℕ → ℕ → Fs → Option (ℕ × Fs)
balloc_from zero b s = none
balloc_from (suc fuel) b s =
    let rest = balloc_from fuel (b + bpb) s in
    if ltb b s.size
    then elim (clear_bit (s.block (bblock s b)) s.size b 0 bpb) [
      | none ↦ rest
      | some bi ↦ some (b + bi, bzero (b + bi) (mark_used (bblock s b) bi s))
    ]
    else none

-- One round for each bitmap block.
unfoldable pub balloc : Fs → Option (ℕ × Fs)
balloc s = balloc_from (s.size / bpb + 1) 0 s

-- `none` is the panic.
pub bfree : ℕ → Fs → Option Fs
bfree b s =
    let c = bblock s b in
    let bi = b % bpb in
    if bit_at (s.block c) bi
    then some
        (put_block c (update (s.block c) (bi / 8) (without_bit (s.block c (bi / 8)) (bi % 8))) s)
    else none
