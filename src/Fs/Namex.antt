-- ===== src/Fs/Namex.antt =====
-- The walk along a path name in fs.c: ilock's load, namex, namei and nameiparent.
use modified_xv.Base.{
  ℕ, zero, suc, Bool, true, false, ◌&&◌, Option, none, some, List, [], ◌∷◌, ◌==◌, if◌then◌else◌,
  update, slt, ◌>>=◌, length,
}
use modified_xv.Fs.Inode.{Inode, load_inode}
use modified_xv.Fs.Cache.{Cached, Icache, iget, idup, iput}
use modified_xv.Fs.Directory.{t_dir, dirlookup}
use modified_xv.Fs.Path.{slash, skipelem}
pub mod Rounds
pub mod Tests

-- `ROOTDEV` and `ROOTINO`
abbrev pub rootdev : ℕ
rootdev = 1

abbrev pub rootino : ℕ
rootino = 1

-- `ilock` apart from its lock; `none` is the panic without a reference, or for the type 0.
pub ilock : ℕ → Icache → Option Icache
ilock i k =
    if slt (k.entry i).ref 1
    then none
    else if (k.entry i).valid
    then some k
    else (load_inode (k.entry i).node k.fs >>= λ ip.
        some
          (record k { entry = update k.entry i (record (k.entry i) { valid = true; node = ip }) }))

-- The inode or 0, the last name, and the cache.
abbrev pub Walked : Type 0
Walked = Option ℕ × List ℕ × Icache

-- `iput` (or `iunlockput`), and the result 0.
pub give_up : List ℕ → ℕ → Icache → Option Walked
give_up name ip k = (iput ip k >>= λ k1. some (none, name, k1))

abbrev pub is_end : List ℕ → Bool
is_end [] = true
is_end (c ∷ cs) = false

-- The body of the loop of `namex` after `skipelem`; `go` is the rounds after it, with the rest of the path.
pub descend :
    (List ℕ → ℕ → Icache → Option Walked) → Bool → List ℕ → List ℕ → ℕ → Icache → Option Walked
descend go parent name rest ip k =
    (ilock ip k >>= λ k1.
    if (k1.entry ip).node.kind == t_dir
    then (if parent && is_end rest
        then some (some ip, name, k1)
        else (dirlookup ip name k1 >>= λ (r, k2). elim r [
          | none ↦ give_up name ip k2
          | some (next, off) ↦ iput ip k2 >>= λ k3. go name next k3
        ]))
    else give_up name ip k1)

-- The loop of `namex`; `none` is a panic.
pub walk : ℕ → Bool → List ℕ → List ℕ → ℕ → Icache → Option Walked
walk zero parent path name ip k = none
walk (suc fuel) parent path name ip k = elim (skipelem path) [
  | none ↦ if parent then give_up name ip k else some (some ip, name, k)
  | some (elem, rest) ↦ descend (walk fuel parent rest) parent elem rest ip k
]

-- One round for each byte of the path, and the last test.
pub namex : Bool → List ℕ → List ℕ → ℕ → Icache → Option Walked
namex parent path name cwd k = start path
  where
    start : List ℕ → Option Walked
    start [] = walk (suc (length path)) parent path name cwd (idup cwd k)
    start (c ∷ cs) =
        if c == slash
        then (iget rootdev rootino k >>= λ (ip, k1).
            walk (suc (length path)) parent path name ip k1)
        else walk (suc (length path)) parent path name cwd (idup cwd k)
