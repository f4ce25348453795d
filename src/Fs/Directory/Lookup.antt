-- ===== src/Fs/Directory/Lookup.antt =====
-- dirlookup of fs.c against the list of the entries of a directory.
use modified_xv.Base.{
  ℕ, zero, suc, ◌+◌, ◌-◌, ◌*◌, ◌/◌, ◌%◌, ◌<◌, ◌≡◌, refl, sym, ap, arith, Bool, true, false, Option,
  none, some, List, [], ◌∷◌, ◌==◌, ==_iff, ltb, if◌then◌else◌, update, ◌>>=◌, window, length-window,
  Bool-cases, inl, inr, min,
}
use mathlib.Core.Path.{fun_ext}
use modified_xv.Fs.Blocks.{Fs}
use modified_xv.Fs.Inode.{Inode}
use modified_xv.Fs.Inode.Slots.{content, IsSound}
use modified_xv.Fs.Inode.Reading.{IsDense, read_file_lem}
use modified_xv.Fs.Cache.{Cached, Icache, iget}
use modified_xv.Fs.Directory.{t_dir, same_name, dirent, search_dir, dirlookup}

-- The entries of a directory: the number, the name and the offset of each.
abbrev pub entries : (ℕ → ℕ) → ℕ → ℕ → List (ℕ × List ℕ × ℕ)
entries f off zero = []
entries f off (suc n) =
    (f off + 256 * f (suc off), window f (suc (suc off)) 14, off) ∷ entries f (off + 16) n

-- The first entry in use with a name.
abbrev pub first : List ℕ → List (ℕ × List ℕ × ℕ) → Option (ℕ × ℕ)
first name [] = none
first name ((inum, text, off) ∷ es) =
    if inum == 0
    then first name es
    else if same_name 14 name text
    then some (inum, off)
    else first name es

-- A function of the results of two tests.
outside_tests {ℓ ℓ'} :
    {A : Type ℓ} {B : Type ℓ'} (g : A → B) (a b : Bool) (x y : A)
    → (if a then g x else if b then g y else g x) ≡ g (if a then x else if b then y else x)
outside_tests g true b x y = refl
outside_tests g false true x y = refl
outside_tests g false false x y = refl

module _ (ip : Inode) (s : Fs) (ok : IsSound ip s) (full : IsDense ip s) where
  search_dir_lem :
      (name : List ℕ) (n fuel off : ℕ)
      → off + n * 16 ≡ ip.size
      → n < fuel
      → search_dir fuel name off ip s ≡ some (first name (entries (content ip s) off n), ip, s)
  unfolding search_dir dirent
  search_dir_lem name n zero off eq lt = absurd (omega arith)
  search_dir_lem name zero (suc fuel) off eq lt =
      let e : ltb off ip.size ≡ false = ground (arith, eq) in rw e refl
  search_dir_lem name (suc n) (suc fuel) off eq lt =
      let f = content ip s in
      let e : ltb off ip.size ≡ true = ground (arith, eq) in
      let r =
        read_file_lem ip s ok full off 16 (omega (arith, eq)) (omega (arith, eq, full.limit)) in
      let m : min 16 (ip.size - off) ≡ 16 = omega (arith, eq) in
      let ih = search_dir_lem name n fuel (off + 16) (omega (arith, eq)) (omega arith) in
      rw (e, r, m, length-window f (suc (suc off)) 14, ih)
        (outside_tests (λ (v : Option (ℕ × ℕ)). some (v, ip, s)) (f off + 256 * f (suc off) == 0)
          (same_name 14 name (window f (suc (suc off)) 14)) (first name (entries f (off + 16) n))
          (some (f off + 256 * f (suc off), off)))

update_self : (cache : ℕ → Cached) (i : ℕ) → update cache i (cache i) ≡ cache
update_self cache i = fun_ext λ j. elim (Bool-cases (j == i)) [
  | inl e ↦ rw e (ap cache (sym ((==_iff j i).0 e)))
  | inr e ↦ rw e refl
]

-- What `dirlookup` does with an entry.
abbrev pub fetch : ℕ → Icache → Option (ℕ × ℕ) → Option (Option (ℕ × ℕ) × Icache)
fetch dev k none = some (none, k)
fetch dev k (some (inum, off)) = iget dev inum k >>= λ (i, k2). some (some (i, off), k2)

-- For a sound directory that has a block for every byte and a size that is a multiple of 16,
-- `dirlookup` does not panic in its search: it returns 0 where no entry in use has the name, and
-- else what `iget` gives for the first such entry, with its offset.
pub dirlookup_lem :
    (dp : ℕ) (name : List ℕ) (k : Icache)
    → IsSound (k.entry dp).node k.fs
    → IsDense (k.entry dp).node k.fs
    → (k.entry dp).node.kind ≡ t_dir
    → (k.entry dp).node.size % 16 ≡ 0
    → dirlookup dp name k
      ≡ fetch
          (k.entry dp).dev
          k
          (first name (entries (content (k.entry dp).node k.fs) 0 ((k.entry dp).node.size / 16)))
unfolding dirlookup
dirlookup_lem dp name k ok full dir whole =
    let ip = (k.entry dp).node in
    let h =
      search_dir_lem ip k.fs ok full name (ip.size / 16) (ip.size / 16 + 1) 0 (omega (arith, whole))
        (omega arith) in
    let d : (ip.kind == t_dir) ≡ true = (==_iff _ _).1 dir in
    rw (d, h)
      (ap
        (λ (c : ℕ → Cached).
          fetch (k.entry dp).dev (record { entry = c; fs = k.fs })
            (first name (entries (content ip k.fs) 0 (ip.size / 16))))
        (update_self k.entry dp))
