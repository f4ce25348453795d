-- ===== src/Fs/Cache/Release.antt =====
-- iput of fs.c: a reference less, and the last one of an inode without links.
use modified_xv.Base.{
  ℕ, ◌-◌, ◌≤◌, ◌<◌, ◌^◌, ◌≡◌, ◌≢◌, refl, sym, ◌∙◌, arith, true, false, none, some, ◌==◌, ==_refl,
  if◌then◌else◌, update, sub32, Bool-cases, inl, inr,
}
use modified_xv.Fs.Blocks.{Fs}
use modified_xv.Fs.Blocks.Bitmap.{used}
use modified_xv.Fs.Inode.{Inode, maxfile, iblock, iupdate, load_inode}
use modified_xv.Fs.Inode.Slots.{slot, IsForeign, IsSound}
use modified_xv.Fs.Inode.Dinode.{load_inode-free}
use modified_xv.Fs.Inode.Store.{used-iupdate, block-iupdate}
use modified_xv.Fs.Inode.Itrunc.{IsEmptied, itrunc_lem}
use modified_xv.Fs.Cache.{Cached, Icache, ninode, iput, drop, is_last, free_inode}
use modified_xv.Fs.Cache.Handles.{IsUnique, IsUnique-update, IsUnique-ref}

-- The inode's blocks are free, its type on the disk is 0, and the blocks of others are kept.
pub record IsReleased (ip : Inode) (s s' : Fs) : Type 0 where
  pub freed : (k : ℕ) → k ≤ maxfile → slot ip s k ≢ 0 → used s' (slot ip s k) ≡ false
  pub others : (c : ℕ) → IsForeign ip s c → c ≢ iblock s ip.inum → s'.block c ≡ s.block c
  pub is_free : load_inode ip s' ≡ none

-- What `iput` does to the entries.
pub record IsPut (k : Icache) (i : ℕ) (k' : Icache) : Type 0 where
  pub counted : (k'.entry i).ref ≡ (k.entry i).ref - 1
  pub others : (j : ℕ) → j ≢ i → k'.entry j ≡ k.entry j
  pub unique : IsUnique k'.entry
  pub disk :
      if is_last (k.entry i)
      then IsReleased (k.entry i).node k.fs k'.fs × ((k'.entry i).valid ≡ false)
      else (k'.fs ≡ k.fs) × ((k'.entry i).node ≡ (k.entry i).node)

module _ (k : Icache) (i : ℕ) (unique : IsUnique k.entry) (lt : i < ninode)
    (pos : 0 < (k.entry i).ref) (few : (k.entry i).ref < 2 ^ 31) where
  -- A reference less.
  dropped-IsUnique :
      (c : Cached)
      → c.dev ≡ (k.entry i).dev
      → c.node.inum ≡ (k.entry i).node.inum
      → IsUnique (update k.entry i c)
  dropped-IsUnique c d n =
      IsUnique-update k.entry i c unique
        λ j l ne r p e f. ne (sym (unique i j lt l pos r (sym d ∙ e) (sym n ∙ f)))

  one_less : sub32 (k.entry i).ref 1 ≡ (k.entry i).ref - 1
  one_less = omega (arith, pos, few)

  plain : is_last (k.entry i) ≡ false → IsPut k i (drop i k)
  plain e = record {
    counted = rw (==_refl i) one_less;
    others = λ j ne. let p : (j == i) ≡ false = ground (arith, ne) in rw p refl;
    unique = dropped-IsUnique (record (k.entry i) { ref = sub32 (k.entry i).ref 1 }) refl refl;
    disk = rw (e, ==_refl i) (refl, refl);
  }

  -- The last reference to an inode without links.
  module _ (ok : IsSound (k.entry i).node k.fs)
      (home : IsForeign (k.entry i).node k.fs (iblock k.fs (k.entry i).node.inum)) (ip : Inode)
      (s : Fs) (e : IsEmptied (k.entry i).node k.fs ip s) where
    abbrev typeless : Inode
    typeless = record ip { kind = 0 }

    typeless-IsSound : IsSound typeless s
    typeless-IsSound = record {
      formatted = e.sound.formatted;
      few = e.sound.few;
      boot = e.sound.boot;
      held = e.sound.held;
      distinct = e.sound.distinct;
    }

    typeless-IsForeign : IsForeign typeless s (iblock s ip.inum)
    typeless-IsForeign = record {
      held = e.home_kept.held;
      real = e.home_kept.real;
      other = e.home_kept.other;
    }

    released : IsReleased (k.entry i).node k.fs (iupdate typeless s)
    released = record {
      freed = λ j le nz.
          used-iupdate typeless s typeless-IsSound typeless-IsForeign (slot (k.entry i).node k.fs j)
            (omega (arith, (ok.held j le nz).small, e.blocks_kept))
          ∙ e.freed j le nz;
      others = λ c h ne.
          block-iupdate typeless s typeless-IsSound typeless-IsForeign c (λ z. ne (z ∙ e.same_home))
          ∙ (e.foreign_kept c h ne).1;
      is_free = load_inode-free (k.entry i).node typeless s (sym e.inum_kept) refl;
    }

    abbrev freed : Icache
    freed = record {
      entry = update k.entry i (record (k.entry i) { valid = false; node = typeless });
      fs = iupdate typeless s;
    }

    put-freed : is_last (k.entry i) ≡ true → IsPut k i (drop i freed)
    put-freed last = record {
      counted = rw (==_refl i) one_less;
      others = λ j ne. let p : (j == i) ≡ false = ground (arith, ne) in rw p refl;
      unique =
          IsUnique-ref freed.entry i (sub32 (freed.entry i).ref 1)
            (dropped-IsUnique (record (k.entry i) { valid = false; node = typeless }) refl
              e.inum_kept)
            lt (rw (==_refl i) pos);
      disk = rw (last, ==_refl i) (released, refl);
    }

-- Where no two entries in use are for the same inode, and an entry is in use with a count below 2
-- ^ 31 and, if this is the last reference to a valid inode without links, sound with its own block
-- none of its blocks: `iput` does not panic, takes one reference from this entry and changes no
-- other one, and again no two entries in use are for the same inode. With that last reference the
-- blocks of the inode are free, its type on the disk is 0 and the blocks of others are kept; else
-- the disk is as it was.
pub iput_lem :
    (k : Icache) (i : ℕ)
    → IsUnique k.entry
    → i < ninode
    → 0 < (k.entry i).ref
    → (k.entry i).ref < 2 ^ 31
    → (is_last (k.entry i) ≡ true
        → IsSound (k.entry i).node k.fs
          × IsForeign (k.entry i).node k.fs (iblock k.fs (k.entry i).node.inum))
    → (k' : Icache) × (iput i k ≡ some k') × IsPut k i k'
unfolding iput free_inode
iput_lem k i unique lt pos few sound = elim (Bool-cases (is_last (k.entry i))) [
  | inr e ↦ (drop i k, rw e refl, plain k i unique lt pos few e)
  | inl e ↦
      let (ok, home) = sound e in
      let (ip, s, p, h) = itrunc_lem (k.entry i).node k.fs ok home in
      (
        drop i (freed k i unique lt pos few ok home ip s h),
        rw (e, p) refl,
        put-freed k i unique lt pos few ok home ip s h e,
      )
]
