-- ===== src/Fs/Directory.antt =====
-- Directories in fs.c: dirlookup.
use modified_xv.Base.{
  ℕ, zero, suc, ◌+◌, ◌-◌, ◌*◌, ◌/◌, Bool, true, false, Option, none, some, List, [], ◌∷◌, ◌==◌, ltb,
  if◌then◌else◌, update, ◌>>=◌, length,
}
use modified_xv.Fs.Blocks.{Fs}
use modified_xv.Fs.Inode.{Inode, read_file}
use modified_xv.Fs.Cache.{Cached, Icache, iget, put_entry}
pub mod Lookup

-- `T_DIR`
abbrev pub t_dir : ℕ
t_dir = 1

-- Whether `strncmp` of two texts in `n` bytes gives 0; a text ends with a NUL.
pub same_name : ℕ → List ℕ → List ℕ → Bool
same_name zero xs ys = true
same_name (suc n) [] [] = true
same_name (suc n) [] (y ∷ ys) = y == 0
same_name (suc n) (x ∷ xs) [] = x == 0
same_name (suc n) (x ∷ xs) (y ∷ ys) =
    let rest = same_name n xs ys in if x == y then (if x == 0 then true else rest) else false

-- A `struct dirent`.
pub record Dirent : Type 0 where
  pub inum : ℕ
  pub name : List ℕ

-- The entry in the bytes that `readi` gave; `none` is the panic for another count than 16.
pub dirent : Option (List ℕ) → Option Dirent
dirent none = none
dirent (some []) = none
dirent (some (a ∷ [])) = none
dirent (some (a ∷ b ∷ name)) =
    if length name == 14 then some (record { inum = a + 256 * b; name = name }) else none

-- The loop of `dirlookup` from `off`: the number in the entry and its offset. `readi` of a
-- directory is that of a file.
pub search_dir : ℕ → List ℕ → ℕ → Inode → Fs → Option (Option (ℕ × ℕ) × Inode × Fs)
search_dir zero name off ip s = if ltb off ip.size then none else some (none, ip, s)
search_dir (suc fuel) name off ip s =
    if ltb off ip.size
    then (read_file ip off 16 s >>= λ (r, ip1, s1). dirent r >>= λ d.
        let next = search_dir fuel name (off + 16) ip1 s1 in
        if d.inum == 0
        then next
        else if same_name 14 name d.name
        then some (some (d.inum, off), ip1, s1)
        else next)
    else some (none, ip, s)

-- `none` is a panic; the result is the entry of the cache and the offset, or 0.
pub dirlookup : ℕ → List ℕ → Icache → Option (Option (ℕ × ℕ) × Icache)
dirlookup dp name k =
    let ip = (k.entry dp).node in
    if ip.kind == t_dir
    then (search_dir (ip.size / 16 + 1) name 0 ip k.fs >>= λ (r, ip1, s1).
        let k1 = record k {
          entry = update k.entry dp (record (k.entry dp) { node = ip1 });
          fs = s1;
        } in
        elim r [
          | none ↦ some (none, k1)
          | some (inum, off) ↦ iget (k.entry dp).dev inum k1 >>= λ (i, k2). some (some (i, off), k2)
        ])
    else none
