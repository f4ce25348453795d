-- ===== src/Fs/Namex/Tests.antt =====
-- A cache of inodes with a directory, and the operations on it.
use modified_xv.Base.{◌≡◌, refl, arith, true, false, some, [], ◌∷◌, ◌==◌, if◌then◌else◌}
use modified_xv.Fs.Inode.{Inode}
use modified_xv.Fs.Inode.Slots.{content, IsForeign, IsSound}
use modified_xv.Fs.Inode.Reading.{IsDense}
use modified_xv.Fs.Cache.{Icache, iget, iput}
use modified_xv.Fs.Cache.Handles.{IsUnique, Gets, iget_lem}
use modified_xv.Fs.Cache.Release.{IsPut, iput_lem}
use modified_xv.Fs.Directory.{dirlookup}
use modified_xv.Fs.Directory.Lookup.{entries, first, fetch, dirlookup_lem}
use modified_xv.Fs.Tests.{disk, file, file-IsSound, home-IsForeign}

-- A file without links, and a directory of one entry.
abbrev gone : Inode
gone = record file { nlink = 0 }

abbrev dir : Inode
dir = record file { kind = 1; size = 16 }

abbrev cache_of : Inode → Icache
cache_of ip = record {
  entry = λ i.
      if i == 0
      then record { dev = 1; ref = 1; valid = true; node = ip }
      else record { dev = 0; ref = 0; valid = false; node = ip };
  fs = disk;
}

cache_of-IsUnique : (ip : Inode) → IsUnique (cache_of ip).entry
cache_of-IsUnique ip i j a b r q d n = ground arith

gone-IsSound : IsSound gone disk
gone-IsSound = record {
  formatted = file-IsSound.formatted;
  few = file-IsSound.few;
  boot = file-IsSound.boot;
  held = file-IsSound.held;
  distinct = file-IsSound.distinct;
}

gone-IsForeign : IsForeign gone disk 3
gone-IsForeign = record {
  held = home-IsForeign.held;
  real = home-IsForeign.real;
  other = home-IsForeign.other;
}

dir-IsSound : IsSound dir disk
dir-IsSound = record {
  formatted = file-IsSound.formatted;
  few = file-IsSound.few;
  boot = file-IsSound.boot;
  held = file-IsSound.held;
  distinct = file-IsSound.distinct;
}

dir-IsDense : IsDense dir disk
dir-IsDense = record {
  limit = omega arith;
  dense = λ bn lt e. let z : bn ≡ 0 = omega arith in ground (arith, rw z at e);
}

iget_lem_example : Gets 1 7 (cache_of file) (iget 1 7 (cache_of file))
iget_lem_example = iget_lem 1 7 (cache_of file) (cache_of-IsUnique file) (λ i. ground arith)

iput_lem_example : (k' : Icache) × (iput 0 (cache_of gone) ≡ some k') × IsPut (cache_of gone) 0 k'
iput_lem_example =
    iput_lem (cache_of gone) 0 (cache_of-IsUnique gone) (omega arith) (omega arith) (omega arith)
      (λ last. (gone-IsSound, gone-IsForeign))

dirlookup_lem_example :
    dirlookup 0 (99 ∷ 100 ∷ 101 ∷ []) (cache_of dir)
    ≡ fetch 1 (cache_of dir) (first (99 ∷ 100 ∷ 101 ∷ []) (entries (content dir disk) 0 1))
dirlookup_lem_example =
    dirlookup_lem 0 (99 ∷ 100 ∷ 101 ∷ []) (cache_of dir) dir-IsSound dir-IsDense refl refl
