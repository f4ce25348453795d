-- ===== src/Fs/Inode/Store.antt =====
-- What iupdate of fs.c leaves of a file.
use modified_xv.Base.{ℕ, ◌/◌, ◌<◌, ◌≡◌, ◌≢◌, refl, sym, ◌∙◌, false, ◌==◌, arith}
use modified_xv.Fs.Blocks.{Fs}
use modified_xv.Fs.Blocks.Bitmap.{used}
use modified_xv.Fs.Inode.{Inode, maxfile, iblock, iupdate, put_dinode, dinode_at}
use modified_xv.Fs.Inode.Slots.{slot, content, IsForeign, IsSound}
use modified_xv.Fs.Inode.Patch.{
  patched-used, patched-slot, patched_held, patched-IsSound, patched_other,
}
use modified_xv.Fs.Inode.Dinode.{put_dinode-bytes}

-- The storing of an inode leaves its file alone, where its block is not one of the file.
module _ (ip : Inode) (s : Fs) (ok : IsSound ip s) (home : IsForeign ip s (iblock s ip.inum)) where
  abbrev there : ℕ
  there = iblock s ip.inum

  abbrev bytes : ℕ → ℕ
  bytes = put_dinode ip (dinode_at ip.inum) (s.block there)

  bytes_small : (o : ℕ) → bytes o < 256
  bytes_small = put_dinode-bytes ip (dinode_at ip.inum) (s.block there) (ok.formatted.bytes there)

  no_indirect : slot ip s maxfile ≢ 0 → slot ip s maxfile ≢ there
  no_indirect nz = home.other maxfile (omega arith)

  pub iupdate-IsSound : IsSound ip (iupdate ip s)
  unfolding iupdate
  iupdate-IsSound = patched-IsSound ip s ok there bytes bytes_small home.held.apart no_indirect

  pub slot-iupdate : (k : ℕ) → slot ip (iupdate ip s) k ≡ slot ip s k
  unfolding iupdate
  slot-iupdate = patched-slot ip s ok there bytes bytes_small home.held.apart no_indirect

  pub content-iupdate : (j : ℕ) → j / 512 < maxfile → content ip (iupdate ip s) j ≡ content ip s j
  unfolding iupdate
  content-iupdate j lt =
      patched_other ip s ok there bytes bytes_small home.held.apart no_indirect j
        (home.other (j / 512) (omega (arith, lt)))

  pub iupdate-IsForeign : (c : ℕ) → IsForeign ip s c → IsForeign ip (iupdate ip s) c
  unfolding iupdate
  iupdate-IsForeign c h = record {
    held = patched_held ip s ok there bytes bytes_small home.held.apart no_indirect c h.held;
    real = h.real;
    other = λ k le e. h.other k le (sym (slot-iupdate k) ∙ e);
  }

  pub block-iupdate : (c : ℕ) → c ≢ there → (iupdate ip s).block c ≡ s.block c
  unfolding iupdate
  block-iupdate c ne = let p : (c == there) ≡ false = ground (arith, ne) in rw p refl

  pub used-iupdate : (a : ℕ) → a < s.size → used (iupdate ip s) a ≡ used s a
  unfolding iupdate
  used-iupdate = patched-used ip s ok there bytes bytes_small home.held.apart no_indirect

  pub size-iupdate : (iupdate ip s).size ≡ s.size
  unfolding iupdate
  size-iupdate = refl

  pub inodes-iupdate : (iupdate ip s).inodestart ≡ s.inodestart
  unfolding iupdate
  inodes-iupdate = refl

-- A new size is no change of the blocks.
module _ (ip : Inode) (s : Fs) (size : ℕ) where
  abbrev pub resized : Inode
  resized = record ip { size = size }

  pub resized-IsSound : IsSound ip s → IsSound resized s
  resized-IsSound ok = record {
    formatted = ok.formatted;
    few = ok.few;
    boot = ok.boot;
    held = ok.held;
    distinct = ok.distinct;
  }

  pub resized-IsForeign : (c : ℕ) → IsForeign ip s c → IsForeign resized s c
  resized-IsForeign c h = record { held = h.held; real = h.real; other = h.other }
