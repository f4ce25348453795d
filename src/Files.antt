-- ===== src/Files.antt =====
-- file.c: the table of open files and its reference counts.
pub mod References
pub mod Chunks
mod Tests
use modified_xv.Base.{
  ℕ, zero, suc, ◌+◌, ◌-◌, Bool, true, false, Option, none, some, ◌==◌, if◌then◌else◌, update, add32,
  sub32, slt, ltb, min,
}

-- `f->type` with the pipe or the inode that goes with it.
pub data Kind : Type 0 where
  fd_none : Kind
  fd_pipe : ℕ → Kind
  fd_inode : ℕ → Kind

-- `struct file`; `ref` is an `int`'s pattern.
pub record File : Type 0 where
  pub kind : Kind
  pub ref : ℕ
  pub readable : Bool
  pub writable : Bool
  pub off : ℕ

abbrev pub nfile : ℕ
nfile = 100

-- The loop of `filealloc` from index `i`, with `left` entries to go.
pub find_free : (ℕ → File) → ℕ → ℕ → Option ℕ
find_free files i zero = none
find_free files i (suc left) =
    let rest = find_free files (suc i) left in if (files i).ref == 0 then some i else rest

pub filealloc : (ℕ → File) → Option (ℕ × (ℕ → File))
unfolding find_free
filealloc files = elim (find_free files 0 nfile) [
  | none ↦ none
  | some i ↦ some (i, update files i (record (files i) { ref = 1 }))
]

-- `none` is the panic.
pub filedup : ℕ → (ℕ → File) → Option (ℕ → File)
filedup i files =
    let f = files i in
    if slt f.ref 1 then none else some (update files i (record f { ref = add32 f.ref 1 }))

-- What `fileclose` calls after it gave up the table's lock.
pub data Closing : Type 0 where
  -- Other references are left, or the file is of no type.
  nothing : Closing
  close_pipe : ℕ → Bool → Closing
  put_inode : ℕ → Closing

pub closing : File → Closing
closing f = elim f.kind [
  | fd_none ↦ nothing
  | fd_pipe p ↦ close_pipe p f.writable
  | fd_inode ip ↦ put_inode ip
]

-- `fileclose`, with the call that follows; `none` is the panic.
pub fileclose : ℕ → (ℕ → File) → Option ((ℕ → File) × Closing)
unfolding closing
fileclose i files =
    let f = files i in
    let left = sub32 f.ref 1 in
    if slt f.ref 1
    then none
    else if slt 0 left
    then some (update files i (record f { ref = left }), nothing)
    else some (update files i (record f { ref = 0; kind = fd_none }), closing f)

-- What `fileread` and `filewrite` ask of inodes and pipes, over a state of theirs. A result is the
-- number of bytes, or `none` for a negative one.
pub record Transfers : Type 1 where
  pub World : Type 0
  pub piperead : ℕ → ℕ → World → Option ℕ × World
  pub pipewrite : ℕ → ℕ → World → Option ℕ × World
  pub readi : ℕ → ℕ → ℕ → World → Option ℕ × World
  -- The inode, the index of the first byte in the buffer, the offset in the file and the count.
  pub writei : ℕ → ℕ → ℕ → ℕ → World → Option ℕ × World

-- `max` of `filewrite`.
abbrev pub chunk : ℕ
chunk = 1536

-- How `filewrite` ends for an inode.
pub data Outcome : Type 0 where
  complete : Outcome
  failed : Outcome
  panic : Outcome

module _ (T : Transfers) where
  open T use {World, readi, writei, piperead, pipewrite}

  -- `fileread`; `none` outside is the panic.
  pub fileread : File → ℕ → World → Option (Option ℕ × ℕ × World)
  fileread f n w =
      if f.readable
      then elim f.kind [
        | fd_none ↦ none
        | fd_pipe p ↦ (let (r, w') = piperead p n w in some (r, f.off, w'))
        | fd_inode ip ↦
            (let (r, w') = readi ip f.off n w in
              elim r [
                | none ↦ some (none, f.off, w')
                | some got ↦ some (some got, add32 f.off got, w')
              ])
      ]
      else some (none, f.off, w)

  -- What follows a call of `writei` for `n1` bytes, given the rest of the loop.
  pub after_piece : Option ℕ → ℕ → ℕ → World → Outcome × ℕ × World → Outcome × ℕ × World
  after_piece none n1 off w rest = (failed, off, w)
  after_piece (some got) n1 off w rest = if got == n1 then rest else (panic, add32 off got, w)

  -- The loop of `filewrite` from byte `i`, with `left` bytes to go and `fuel` rounds at most.
  pub write_chunks : ℕ → ℕ → ℕ → ℕ → ℕ → World → Outcome × ℕ × World
  unfolding after_piece
  write_chunks zero ip i left off w = (if left == 0 then complete else failed, off, w)
  write_chunks (suc fuel) ip i left off w =
      let n1 = min left chunk in
      let (r, w') = writei ip i off n1 w in
      let rest = write_chunks fuel ip (i + n1) (left - n1) (add32 off n1) w' in
      if left == 0 then (complete, off, w) else after_piece r n1 off w' rest

  -- `filewrite` to an inode: a round writes at least one byte.
  pub write_inode : ℕ → ℕ → ℕ → World → Outcome × ℕ × World
  unfolding write_chunks
  write_inode ip n off w = write_chunks n ip 0 n off w

  -- `filewrite`; `none` is a panic.
  pub filewrite : File → ℕ → World → Option (Option ℕ × ℕ × World)
  unfolding write_inode
  filewrite f n w =
      if f.writable
      then elim f.kind [
        | fd_none ↦ none
        | fd_pipe p ↦ (let (r, w') = pipewrite p n w in some (r, f.off, w'))
        | fd_inode ip ↦
            (let (out, off, w') = write_inode ip n f.off w in
              elim out [
                | complete ↦ some (some n, off, w')
                | failed ↦ some (none, off, w')
                | panic ↦ none
              ])
      ]
      else some (none, f.off, w)
