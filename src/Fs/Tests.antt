-- ===== src/Fs/Tests.antt =====
-- A small disk with one file, and runs of fs.c on it.
use modified_xv.Base.{
  ℕ, ◌+◌, ◌-◌, ◌/◌, ◌%◌, ◌^◌, ◌<◌, ◌≡◌, ◌≢◌, refl, sym, ◌∙◌, true, false, Option, some, none, [],
  ◌==◌, ==_iff, ltb, arith, Bool-cases, inl, inr, if◌then◌else◌, window, min, leb, length, ◌||◌,
}
use modified_xv.Log.{log_size}
use modified_xv.Fs.Blocks.{Fs, balloc, bfree, balloc_from, clear_bit, mark_used, with_bit, bzero}
use modified_xv.Fs.Blocks.Free.{free_blocks, free_below}
use modified_xv.Fs.Blocks.Bitmap.{used, IsFormatted}
use modified_xv.Fs.Blocks.Alloc.{Searched, balloc_lem, FreeResult, bfree_lem}
use modified_xv.Fs.Inode.{Inode, Devices, bmap, readi, writei, itrunc, iupdate, load_inode}
use modified_xv.Fs.Inode.Slots.{slot, content, IsHeld, IsForeign, IsSound}
use modified_xv.Fs.Inode.Reading.{IsDense, readi_lem}
use modified_xv.Fs.Inode.Bmap.{Loads, bmap_lem}
use modified_xv.Fs.Inode.Writei.{IsWrite, writei_lem, readi-writei}
use modified_xv.Fs.Inode.Dinode.{IsStorable, load_inode-iupdate}
use modified_xv.Fs.Inode.Ialloc.{Allocates, alloc_inode, alloc_inode_lem}
use modified_xv.Fs.Inode.Itrunc.{IsEmptied, itrunc_lem}

-- Block 4 is the bitmap, block 3 holds the inodes, and block 5 the bytes of a file.
abbrev pub disk : Fs
disk = record {
  size = 12;
  inodestart = 3;
  bmapstart = 4;
  ninodes = 8;
  block = λ c o.
      if c == 4
      then (if o == 0 then 63 else 0)
      else if c == 5
      then (if ltb o 5 then 97 + o else 0)
      else 0;
  logged = [];
}

abbrev pub file : Inode
file = record {
  inum = 1;
  kind = 2;
  major = 0;
  minor = 0;
  nlink = 1;
  size = 5;
  addrs = λ i. if i == 0 then 5 else 0;
}

disk-IsFormatted : IsFormatted disk
disk-IsFormatted = record {
  bytes = λ b o. ground arith;
  map_used = λ b lt. let p : b / 4096 + 4 ≡ 4 = omega arith in rw p refl;
  map_small = λ b lt. omega arith;
}

held_of : (c : ℕ) → c < 12 → used disk c ≡ true → (c == 4) ≡ false → IsHeld disk c
held_of c lt u ne = record {
  small = lt;
  taken = u;
  apart = λ a l e. let p : a / 4096 + 4 ≡ 4 = omega arith in ground (arith, p, e, ne);
}

only_first : (k : ℕ) → (k == 0) ≡ false → slot file disk k ≡ 0
only_first k e = ground arith

first_only : (k : ℕ) → slot file disk k ≢ 0 → k ≡ 0
first_only k nz = elim (Bool-cases (k == 0)) [
  | inl e ↦ (==_iff k 0).0 e
  | inr e ↦ absurd (nz (only_first k e))
]

pub file-IsSound : IsSound file disk
file-IsSound = record {
  formatted = disk-IsFormatted;
  few = omega arith;
  boot = held_of 0 (omega arith) refl refl;
  held = λ k le nz. let z = first_only k nz in rw z (held_of 5 (omega arith) refl refl);
  distinct = λ j k a b nz e. first_only j nz ∙ sym (first_only k (λ z. nz (e ∙ z)));
}

file-IsDense : IsDense file disk
file-IsDense = record {
  limit = omega arith;
  dense = λ bn lt e. let z : bn ≡ 0 = omega arith in ground (arith, rw z at e);
}

pub home-IsForeign : IsForeign file disk 3
home-IsForeign = record {
  held = held_of 3 (omega arith) refl refl;
  real = ground arith;
  other = λ k le e. let z = first_only k (λ w. ground (arith, e, w)) in ground (arith, rw z at e);
}

-- No device has functions.
abbrev devices : Devices
devices = record { World = ℕ; read = λ major. none; write = λ major. none }

-- The bytes 10, 11 and so on.
abbrev source : ℕ → ℕ
source o = (10 + o) % 256

disk_free : free_blocks disk ≡ 6
unfolding free_below
disk_free = refl

balloc_lem_example : Searched disk (balloc disk)
balloc_lem_example = balloc_lem disk disk-IsFormatted

bfree_lem_example : FreeResult disk 7 (bfree 7 disk)
bfree_lem_example = bfree_lem disk 7 disk-IsFormatted

bmap_lem_example : Loads 2 file disk 13 (bmap file 13 disk)
bmap_lem_example = bmap_lem file disk 13 file-IsSound (omega arith)

readi_lem_example :
    readi devices file 1 3 disk 0
    ≡ some (
      if ltb 5 1 || leb (2 ^ 32) (1 + 3)
          then none
          else some (window (content file disk) 1 (min 3 (5 - 1))),
      file,
      disk,
      0,
    )
readi_lem_example =
    readi_lem devices 0 file disk 1 3 file-IsSound file-IsDense (λ e. ground (arith, e))
      (omega arith) (omega arith)

writei_lem_example :
    (ip' : Inode) × (s' : Fs) × (writei devices file source 5 600 disk 0
      ≡ some (some 600, ip', s', 0))
    × IsWrite file disk source 5 600 ip' s'
    × (length s'.logged < log_size)
writei_lem_example =
    writei_lem devices 0 file disk source 5 600 file-IsSound file-IsDense home-IsForeign
      (λ e. ground (arith, e)) (λ o. omega arith) refl (omega (arith, disk_free)) (omega arith)

readi-writei_example :
    (ip' : Inode) × (s' : Fs) × (writei devices file source 2 600 disk 0
      ≡ some (some 600, ip', s', 0))
    × (length s'.logged < log_size)
    × (readi devices ip' 2 600 s' 0 ≡ some (some (window source 0 600), ip', s', 0))
readi-writei_example =
    readi-writei devices 0 file disk source 2 600 file-IsSound file-IsDense home-IsForeign
      (λ e. ground (arith, e)) (λ o. omega arith) refl (omega (arith, disk_free)) (omega arith)

file-IsStorable : IsStorable file
file-IsStorable = record {
  kind_small = omega arith;
  major_small = omega arith;
  minor_small = omega arith;
  nlink_small = omega arith;
  size_small = omega arith;
  addrs_small = λ i lt. ground arith;
}

load_inode-iupdate_example :
    load_inode
      (record file { kind = 7; major = 1; minor = 2; nlink = 3; size = 9; addrs = λ k. k })
      (iupdate file disk)
    ≡ some (record file { addrs = λ k. if ltb k 13 then file.addrs k else k })
load_inode-iupdate_example =
    load_inode-iupdate
      (record file { kind = 7; major = 1; minor = 2; nlink = 3; size = 9; addrs = λ k. k }) file
      disk refl file-IsStorable

itrunc_lem_example :
    (ip' : Inode) × (s' : Fs) × (itrunc file disk ≡ some (ip', s')) × IsEmptied file disk ip' s'
itrunc_lem_example = itrunc_lem file disk file-IsSound home-IsForeign

-- `balloc` finds block 6, and the bitmap then shows it as used.
abbrev found : Option (ℕ × Fs) → ℕ × ℕ
found none = (0, 0)
found (some (b, s)) = (b, s.block 4 0)

abbrev expected : ℕ × ℕ
expected = (6, 127)

balloc_run : found (balloc disk) ≡ expected
unfolding balloc balloc_from clear_bit mark_used with_bit bzero
balloc_run = refl

-- Inode 1 is in use, and inode 2 the first free one.
abbrev one_inode : Fs
one_inode = record disk {
  block = λ b o. if b == 3 then (if o == 64 then 2 else 0) else disk.block b o;
}

alloc_inode_lem_example : Allocates 2 one_inode (alloc_inode 2 one_inode)
alloc_inode_lem_example =
    alloc_inode_lem 2 one_inode (λ e. ground (arith, e)) (omega arith) (omega arith)
