-- ===== src/Fs/Cache.antt =====
-- The cache of inodes in fs.c: iget, ialloc, idup and iput.
use modified_xv.Base.{
  ℕ, zero, suc, ◌+◌, Bool, true, false, ◌&&◌, Option, none, some, ◌⊎◌, inl, inr, ◌==◌, ltb,
  if◌then◌else◌, update, add32, sub32, ◌>>=◌,
}
use modified_xv.Fs.Blocks.{Fs}
use modified_xv.Fs.Inode.{Inode, itrunc, iupdate}
use modified_xv.Fs.Inode.Ialloc.{alloc_inode}
pub mod Handles
pub mod Release

-- `NINODE`
abbrev pub ninode : ℕ
ninode = 50

-- The fields of `struct inode` that are in memory only, and the others.
pub record Cached : Type 0 where
  pub dev : ℕ
  pub ref : ℕ
  pub valid : Bool
  pub node : Inode

-- `icache.inode` and the disk.
pub record Icache : Type 0 where
  pub entry : ℕ → Cached
  pub fs : Fs

-- `ip->ref > 0 && ip->dev == dev && ip->inum == inum`
abbrev pub is_for : ℕ → ℕ → Cached → Bool
is_for dev inum c = ltb 0 c.ref && c.dev == dev && c.node.inum == inum

-- `if(empty == 0 && ip->ref == 0) empty = ip` for entry `i`
pub remember : ℕ → ℕ → Option ℕ → Option ℕ
remember ref i (some e) = some e
remember ref i none = if ref == 0 then some i else none

-- The loop of `iget` from entry `i`, with `left` entries to go and the empty slot so far: the
-- entry of the inode, or the empty slot.
pub look_up : (ℕ → Cached) → ℕ → ℕ → ℕ → ℕ → Option ℕ → ℕ ⊎ Option ℕ
look_up cache dev inum i zero empty = inr empty
look_up cache dev inum i (suc left) empty =
    let rest = look_up cache dev inum (suc i) left (remember (cache i).ref i empty) in
    if is_for dev inum (cache i) then inl i else rest

abbrev pub put_entry : ℕ → Cached → Icache → Icache
put_entry i c k = record k { entry = update k.entry i c }

-- `none` is the panic.
pub iget : ℕ → ℕ → Icache → Option (ℕ × Icache)
iget dev inum k = elim (look_up k.entry dev inum 0 ninode none) [
  | inl i ↦ some (i, put_entry i (record (k.entry i) { ref = add32 (k.entry i).ref 1 }) k)
  | inr none ↦ none
  | inr (some i) ↦ some (
    i,
    put_entry i
        (record {
          dev = dev;
          ref = 1;
          valid = false;
          node = record (k.entry i).node { inum = inum };
        })
        k,
  )
]

-- `none` is a panic.
pub ialloc : ℕ → ℕ → Icache → Option (ℕ × Icache)
ialloc dev kind k = (alloc_inode kind k.fs >>= λ (inum, s). iget dev inum (record k { fs = s }))

pub idup : ℕ → Icache → Icache
idup i k = put_entry i (record (k.entry i) { ref = add32 (k.entry i).ref 1 }) k

-- The last reference to an inode without links: `itrunc`, and the type 0 on the disk.
pub free_inode : ℕ → Icache → Option Icache
free_inode i k =
    (itrunc (k.entry i).node k.fs >>= λ (ip, s).
    let ip1 = record ip { kind = 0 } in
    some (record {
      entry = update k.entry i (record (k.entry i) { valid = false; node = ip1 });
      fs = iupdate ip1 s;
    }))

abbrev pub drop : ℕ → Icache → Icache
drop i k = put_entry i (record (k.entry i) { ref = sub32 (k.entry i).ref 1 }) k

-- `ip->valid && ip->nlink == 0`, and the one reference.
abbrev pub is_last : Cached → Bool
is_last c = c.valid && c.node.nlink == 0 && c.ref == 1

-- `none` is a panic below.
pub iput : ℕ → Icache → Option Icache
iput i k =
    if is_last (k.entry i) then (free_inode i k >>= λ k1. some (drop i k1)) else some (drop i k)
