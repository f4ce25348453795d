-- ===== src/Files/Tests.antt =====
-- A table with one open file, a sink, a file of bounded size, and the theorems at them.
use modified_xv.Base.{
  ℕ, ◌+◌, ◌≡◌, refl, true, false, none, some, arith, ◌==◌, if◌then◌else◌, ◌%◌, leb,
}
use Prim.Native.Nat.{max}
use modified_xv.Files.{File, Transfers, fd_none, fd_inode, fd_pipe, filewrite}
use modified_xv.Files.Chunks.{Stored, placed}

abbrev unused : File
unused = record { kind = fd_none; ref = 0; readable = false; writable = false; off = 0 }

abbrev opened : File
opened = record { kind = fd_pipe 7; ref = 1; readable = false; writable = true; off = 0 }

-- File 5 has one reference.
abbrev last_one : ℕ → File
last_one i = if i == 5 then opened else unused

-- The world is the number of bytes written.
abbrev sink : Transfers
sink = record {
  World = ℕ;
  piperead = λ p n w. (none, w);
  pipewrite = λ p n w. (none, w);
  readi = λ ip off n w. (some 0, w);
  writei = λ ip i off n w. (some n, w + n);
}

abbrev plain : File
plain = record { kind = fd_inode 3; ref = 1; readable = true; writable = true; off = 10 }

three_pieces : filewrite sink plain 4000 0 ≡ some (some 4000, 4010, 4000)
unfolding filewrite
three_pieces = refl

-- A file, as its size and its bytes, of at most 71680 bytes.
abbrev text : ℕ → ℕ
text i = i % 256

abbrev Bytes : Type 0
Bytes = ℕ × (ℕ → ℕ)

abbrev disk : Transfers
disk = record {
  World = Bytes;
  piperead = λ p n w. (none, w);
  pipewrite = λ p n w. (none, w);
  readi = λ ip off n w. (some 0, w);
  writei = λ ip i off n w.
      if leb (off + n) 71680
      then (some n, (max w.0 (off + n), placed w.1 text i off n))
      else (none, w);
}

abbrev disk_file : Stored disk 3 text 71680
disk_file = record {
  size = λ w. w.0;
  content = λ w. w.1;
  stores = λ i off n w le fits.
      (let t : leb (off + n) 71680 ≡ true = ground (arith, fits) in rw t (refl, refl, λ j. refl));
  refuses =
      λ i off n w past. (let t : leb (off + n) 71680 ≡ false = ground (arith, past) in rw t refl);
}

-- Of 4000 bytes only the first piece ends within the limit.
abbrev near_end : File
near_end = record plain { off = 70000 }

abbrev long : Bytes
long = (70000, λ _. 7)
