-- ===== src/Fs/Path.antt =====
-- The elements of path names in fs.c: skipelem.
use modified_xv.Base.{ℕ, zero, suc, Option, none, some, List, [], ◌∷◌, ◌==◌, if◌then◌else◌, take}
pub mod Elements

-- `DIRSIZ`
abbrev pub dirsiz : ℕ
dirsiz = 14

abbrev pub slash : ℕ
slash = 47

-- `while(*path == '/') path++`
pub skip_slashes : List ℕ → List ℕ
skip_slashes [] = []
skip_slashes (c ∷ cs) = if c == slash then skip_slashes cs else c ∷ cs

-- `while(*path != '/' && *path != 0) path++`: what is passed, and the rest.
pub element : List ℕ → List ℕ × List ℕ
element [] = ([], [])
element (c ∷ cs) = let (e, rest) = element cs in if c == slash then ([], c ∷ cs) else (c ∷ e, rest)

-- What `skipelem` does at the first character that is no slash.
pub skipelem_from : List ℕ → Option (List ℕ × List ℕ)
skipelem_from [] = none
skipelem_from (c ∷ cs) = let (e, rest) = element (c ∷ cs) in some (take dirsiz e, skip_slashes rest)

-- A path is its bytes before the NUL; the result is the name and the path behind the element.
pub skipelem : List ℕ → Option (List ℕ × List ℕ)
skipelem path = skipelem_from (skip_slashes path)
