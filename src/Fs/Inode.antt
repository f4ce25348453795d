-- ===== src/Fs/Inode.antt =====
-- Inodes in fs.c: bmap, itrunc, iupdate, the reading of ilock, readi and writei.
use modified_xv.Base.{
  ℕ, zero, suc, ◌+◌, ◌-◌, ◌*◌, ◌/◌, ◌%◌, ◌^◌, min, Bool, true, false, ◌||◌, ◌&&◌, not, Option, none,
  some, List, [], ◌∷◌, ◌++◌, ◌==◌, ltb, leb, if◌then◌else◌, update, window, add32, ◌>>=◌,
}
use modified_xv.Fs.Blocks.{Fs, put_block, bsize, balloc, bfree}
use modified_xv.Fs.Bytes.{get_le, put_le}
pub mod Slots
pub mod Mapping
pub mod Bmap
pub mod Patch
pub mod Reading
pub mod Writing
pub mod Dinode
pub mod Store
pub mod Logged
pub mod Writei
pub mod Sweep
pub mod Trunc
pub mod Itrunc
pub mod Ialloc

-- `NDIRECT`
abbrev pub ndirect : ℕ
ndirect = 12

-- `NINDIRECT`
abbrev pub nindirect : ℕ
nindirect = 128

-- `MAXFILE`
abbrev pub maxfile : ℕ
maxfile = 140

-- `T_DEV`
abbrev pub t_dev : ℕ
t_dev = 3

-- `NDEV`
abbrev pub ndev : ℕ
ndev = 10

-- The fields of `struct inode` that are on the disk too, and the number of the inode.
pub record Inode : Type 0 where
  pub inum : ℕ
  pub kind : ℕ
  pub major : ℕ
  pub minor : ℕ
  pub nlink : ℕ
  pub size : ℕ
  pub addrs : ℕ → ℕ

-- Entry `k` of an indirect block.
abbrev pub entry : (ℕ → ℕ) → ℕ → ℕ
entry a k = get_le 4 a (4 * k)

-- The block in entry `i` of `addrs`, allocated where there is none.
pub load_addr : Inode → ℕ → Fs → Option (ℕ × Inode × Fs)
load_addr ip i s =
    if ip.addrs i == 0
    then (do (addr, s1) ← balloc s; some (addr, record ip { addrs = update ip.addrs i addr }, s1))
    else some (ip.addrs i, ip, s)

-- The same for entry `k` of the indirect block `ind`.
pub load_entry : ℕ → ℕ → Fs → Option (ℕ × Fs)
load_entry ind k s =
    if entry (s.block ind) k == 0
    then (do
      (addr, s1) ← balloc s
      some (addr, put_block ind (put_le 4 (s1.block ind) (4 * k) addr) s1))
    else some (entry (s.block ind) k, s)

-- `none` is a panic.
pub bmap : Inode → ℕ → Fs → Option (ℕ × Inode × Fs)
bmap ip bn s =
    if ltb bn ndirect
    then load_addr ip bn s
    else if ltb (bn - ndirect) nindirect
    then (do
      (ind, ip1, s1) ← load_addr ip ndirect s
      (addr, s2) ← load_entry ind (bn - ndirect) s1
      some (addr, ip1, s2))
    else none

-- `IBLOCK`
abbrev pub iblock : Fs → ℕ → ℕ
iblock s inum = inum / 8 + s.inodestart

-- The place of the `struct dinode` in its block.
abbrev pub dinode_at : ℕ → ℕ
dinode_at inum = inum % 8 * 64

-- `memmove(dip->addrs, ip->addrs, sizeof(ip->addrs))` from entry `i`, with `left` entries to go.
pub put_addrs : ℕ → ℕ → ℕ → (ℕ → ℕ) → (ℕ → ℕ) → ℕ → ℕ
put_addrs zero i off addrs f = f
put_addrs (suc left) i off addrs f =
    put_addrs left (suc i) off addrs (put_le 4 f (off + 4 * i) (addrs i))

-- The stores of `iupdate` to a `struct dinode` at `off`.
pub put_dinode : Inode → ℕ → (ℕ → ℕ) → ℕ → ℕ
put_dinode ip off f =
    let f1 = put_le 2 f off ip.kind in
    let f2 = put_le 2 f1 (off + 2) ip.major in
    let f3 = put_le 2 f2 (off + 4) ip.minor in
    let f4 = put_le 2 f3 (off + 6) ip.nlink in
    let f5 = put_le 4 f4 (off + 8) ip.size in put_addrs 13 0 (off + 12) ip.addrs f5

pub iupdate : Inode → Fs → Fs
iupdate ip s =
    let b = iblock s ip.inum in put_block b (put_dinode ip (dinode_at ip.inum) (s.block b)) s

-- What `ilock` does where the inode is not valid yet; `none` is the panic.
pub load_inode : Inode → Fs → Option Inode
load_inode ip s =
    let f = s.block (iblock s ip.inum) in
    let off = dinode_at ip.inum in
    let kind = get_le 2 f off in
    if kind == 0
    then none
    else some (record {
      inum = ip.inum;
      kind = kind;
      major = get_le 2 f (off + 2);
      minor = get_le 2 f (off + 4);
      nlink = get_le 2 f (off + 6);
      size = get_le 4 f (off + 8);
      addrs = λ i. if ltb i 13 then get_le 4 f (off + 12 + 4 * i) else ip.addrs i;
    })

-- The first loop of `itrunc` from entry `i` of `addrs`, with `left` entries to go.
pub free_direct : ℕ → ℕ → Inode → Fs → Option (Inode × Fs)
free_direct zero i ip s = some (ip, s)
free_direct (suc left) i ip s =
    if ip.addrs i == 0
    then free_direct left (suc i) ip s
    else (bfree (ip.addrs i) s >>= λ s1.
        free_direct left (suc i) (record ip { addrs = update ip.addrs i 0 }) s1)

-- The second loop, over the entries of the indirect block.
pub free_entries : ℕ → ℕ → ℕ → Fs → Option Fs
free_entries zero j ind s = some s
free_entries (suc left) j ind s =
    if entry (s.block ind) j == 0
    then free_entries left (suc j) ind s
    else (bfree (entry (s.block ind) j) s >>= λ s1. free_entries left (suc j) ind s1)

-- `none` is the panic of `bfree`.
pub itrunc : Inode → Fs → Option (Inode × Fs)
itrunc ip s =
    (free_direct ndirect 0 ip s >>= λ (ip1, s1).
    (if ip1.addrs ndirect == 0
      then some (ip1, s1)
      else (free_entries nindirect 0 (ip1.addrs ndirect) s1 >>= λ s2.
          bfree (ip1.addrs ndirect) s2 >>= λ s3.
          some (record ip1 { addrs = update ip1.addrs ndirect 0 }, s3)))
    >>= λ (ip2, s2). let ip3 = record ip2 { size = 0 } in some (ip3, iupdate ip3 s2))

-- The table `devsw`, with the state of the devices.
pub record Devices : Type 1 where
  pub World : Type 0
  pub read : ℕ → Option (Inode → ℕ → World → Option (List ℕ) × World)
  pub write : ℕ → Option (Inode → (ℕ → ℕ) → ℕ → World → Option ℕ × World)

-- `ip->major < 0 || ip->major >= NDEV`, for the 16 bits of a short.
abbrev pub bad_major : ℕ → Bool
bad_major major = leb (2 ^ 15) major || leb ndev major

-- The loop of `readi`, with `left` bytes to go. The guards of `readi` keep `off` below `2 ^ 32`.
pub read_blocks : ℕ → Inode → ℕ → ℕ → Fs → Option (List ℕ × Inode × Fs)
read_blocks zero ip off left s = if left == 0 then some ([], ip, s) else none
read_blocks (suc fuel) ip off left s =
    if left == 0
    then some ([], ip, s)
    else (bmap ip (off / bsize) s >>= λ (addr, ip1, s1).
        let m = min left (bsize - off % bsize) in
        read_blocks fuel ip1 (off + m) (left - m) s1 >>= λ (rest, ip2, s2).
        some (window (s1.block addr) (off % bsize) m ++ rest, ip2, s2))

-- The part of `readi` for files and directories; `none` is a panic of `bmap`, and the result
-- `none` is -1.
pub read_file : Inode → ℕ → ℕ → Fs → Option (Option (List ℕ) × Inode × Fs)
read_file ip off n s =
    if ltb ip.size off || ltb (add32 off n) off
    then some (none, ip, s)
    else let n1 = if ltb ip.size (add32 off n) then ip.size - off else n in
      (read_blocks n1 ip off n1 s >>= λ (bytes, ip1, s1). some (some bytes, ip1, s1))

-- The bytes of `f` with `m` bytes of `src` from `i` on in the place of those at `off`.
abbrev pub patch : (ℕ → ℕ) → ℕ → ℕ → (ℕ → ℕ) → ℕ → ℕ → ℕ
patch f off m src i o = if leb off o && ltb o (off + m) then src (i + (o - off)) else f o

-- The loop of `writei`; `i` bytes of `src` are done.
pub write_blocks : ℕ → Inode → (ℕ → ℕ) → ℕ → ℕ → ℕ → Fs → Option (Inode × Fs)
write_blocks zero ip src i off left s = if left == 0 then some (ip, s) else none
write_blocks (suc fuel) ip src i off left s =
    if left == 0
    then some (ip, s)
    else (bmap ip (off / bsize) s >>= λ (addr, ip1, s1).
        let m = min left (bsize - off % bsize) in
        write_blocks fuel ip1 src (i + m) (off + m) (left - m)
          (put_block addr (patch (s1.block addr) (off % bsize) m src i) s1))

-- The part of `writei` for files and directories.
pub write_file : Inode → (ℕ → ℕ) → ℕ → ℕ → Fs → Option (Option ℕ × Inode × Fs)
write_file ip src off n s =
    if ltb ip.size off || ltb (add32 off n) off || ltb (maxfile * bsize) (add32 off n)
    then some (none, ip, s)
    else (write_blocks n ip src 0 off n s >>= λ (ip1, s1).
        if ltb 0 n && ltb ip1.size (off + n)
        then (let ip2 = record ip1 { size = off + n } in some (some n, ip2, iupdate ip2 s1))
        else some (some n, ip1, s1))

module _ (D : Devices) where
  open D use {World, read, write}

  pub readi : Inode → ℕ → ℕ → Fs → World → Option (Option (List ℕ) × Inode × Fs × World)
  readi ip off n s w =
      if ip.kind == t_dev
      then (if bad_major ip.major then some (none, ip, s, w) else elim (read ip.major) [
        | none ↦ some (none, ip, s, w)
        | some f ↦ let (r, w1) = f ip n w in some (r, ip, s, w1)
      ])
      else (read_file ip off n s >>= λ (r, ip1, s1). some (r, ip1, s1, w))

  pub writei : Inode → (ℕ → ℕ) → ℕ → ℕ → Fs → World → Option (Option ℕ × Inode × Fs × World)
  writei ip src off n s w =
      if ip.kind == t_dev
      then (if bad_major ip.major then some (none, ip, s, w) else elim (write ip.major) [
        | none ↦ some (none, ip, s, w)
        | some f ↦ let (r, w1) = f ip src n w in some (r, ip, s, w1)
      ])
      else (write_file ip src off n s >>= λ (r, ip1, s1). some (r, ip1, s1, w))
