-- ===== src/Buffers.antt =====
-- The buffer cache of bio.c: bget, bread and brelse on the list of buffers.
use modified_xv.Base.{
  ℕ, zero, suc, ◌+◌, Bool, true, false, ◌&&◌, not, Option, none, some, List, [], ◌∷◌, ◌==◌,
  if◌then◌else◌, update, add32, sub32, ◌>>=◌, erase,
}
pub mod Lookup
pub mod Release
pub mod Tests

-- The fields of `struct buf` but for its lock and links; `valid` and `dirty` are the flags.
pub record Buf : Type 0 where
  pub dev : ℕ
  pub blockno : ℕ
  pub refcnt : ℕ
  pub valid : Bool
  pub dirty : Bool
  pub bytes : ℕ → ℕ

-- `bcache`: the buffers, and the list from `head.next` to `head.prev`.
pub record Bcache : Type 0 where
  pub buf : ℕ → Buf
  pub order : List ℕ

abbrev pub is_block : ℕ → ℕ → Buf → Bool
is_block dev blockno b = b.dev == dev && b.blockno == blockno

abbrev pub is_idle : Buf → Bool
is_idle b = b.refcnt == 0 && not b.dirty

-- The first loop of `bget`, along the list.
pub find_block : (ℕ → Buf) → ℕ → ℕ → List ℕ → Option ℕ
find_block buf dev blockno [] = none
find_block buf dev blockno (i ∷ is) =
    let rest = find_block buf dev blockno is in
    if is_block dev blockno (buf i) then some i else rest

-- The second loop of `bget`, from the end of the list back: a buffer that was found behind `i`,
-- or `i`.
pub or_idle : Buf → ℕ → Option ℕ → Option ℕ
or_idle b i (some j) = some j
or_idle b i none = if is_idle b then some i else none

pub find_idle : (ℕ → Buf) → List ℕ → Option ℕ
find_idle buf [] = none
find_idle buf (i ∷ is) = or_idle (buf i) i (find_idle buf is)

abbrev pub put_buf : ℕ → Buf → Bcache → Bcache
put_buf i b c = record c { buf = update c.buf i b }

-- `none` is the panic.
pub bget : ℕ → ℕ → Bcache → Option (ℕ × Bcache)
bget dev blockno c = elim (find_block c.buf dev blockno c.order) [
  | some i ↦ some (i, put_buf i (record (c.buf i) { refcnt = add32 (c.buf i).refcnt 1 }) c)
  | none ↦ find_idle c.buf c.order >>= λ i. some (
    i,
    put_buf i
        (record (c.buf i) {
          dev = dev;
          blockno = blockno;
          valid = false;
          dirty = false;
          refcnt = 1;
        })
        c,
  )
]

-- `iderw` reads the block from the disk, a parameter, unless the buffer is to be written.
abbrev pub transfer : (ℕ → ℕ → ℕ → ℕ) → Buf → Buf
transfer disk b = record b {
  valid = true;
  dirty = false;
  bytes = if b.dirty then b.bytes else disk b.dev b.blockno;
}

pub bread : (ℕ → ℕ → ℕ → ℕ) → ℕ → ℕ → Bcache → Option (ℕ × Bcache)
bread disk dev blockno c =
    (bget dev blockno c >>= λ (i, c1).
    if (c1.buf i).valid then some (i, c1) else some (i, put_buf i (transfer disk (c1.buf i)) c1))

-- `brelse` of a buffer that the caller has locked.
pub brelse : ℕ → Bcache → Bcache
brelse i c =
    let c1 = put_buf i (record (c.buf i) { refcnt = sub32 (c.buf i).refcnt 1 }) c in
    if (c1.buf i).refcnt == 0 then record c1 { order = i ∷ erase i c.order } else c1
