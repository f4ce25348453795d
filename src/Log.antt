-- ===== src/Log.antt =====
-- log.c: the redo log of the file system, over the blocks that the buffer cache and the disk hold.
pub mod Blocks
pub mod Writes
pub mod Recovery
pub mod Crash
pub mod Admission
mod Tests
use modified_xv.Base.{
  ℕ, zero, suc, ◌+◌, ◌-◌, ◌*◌, ◌<◌, ◌≡◌, Bool, true, false, Option, none, some, ◌==◌, ltb, leb,
  if◌then◌else◌, update, ◌||◌, slt, add32, sub32, mul32,
}
use modified_xv.Log.Blocks.{Layout, Machine, bwrite, modify}

-- `struct logheader`
pub record Header : Type 0 where
  pub n : ℕ
  pub block : ℕ → ℕ

-- `struct log` without its lock; `dev` is the one device. `outstanding` is an `int`'s pattern.
pub record Log : Type 0 where
  pub start : ℕ
  pub size : ℕ
  pub outstanding : ℕ
  pub committing : Bool
  pub lh : Header

abbrev pub log_size : ℕ
log_size = 30

abbrev pub max_op_blocks : ℕ
max_op_blocks = 10

-- The disk block of log entry `tail`.
abbrev pub slot : ℕ → ℕ → ℕ
slot start tail = start + tail + 1

module _ (L : Layout) where
  open L use {Block, put_head, get_n, get_block}

  -- One round copies block `src` to block `dst` and writes it.
  pub copy_block : ℕ → ℕ → Machine Block → Machine Block
  copy_block src dst m = bwrite dst (modify dst (m.mem src) m)

  -- The loop of `install_trans` from `tail`, with `left` rounds to go.
  pub install_from : ℕ → (ℕ → ℕ) → ℕ → ℕ → Machine Block → Machine Block
  unfolding copy_block
  install_from start block tail zero m = m
  install_from start block tail (suc left) m =
      install_from start block (suc tail) left (copy_block (slot start tail) (block tail) m)

  pub install_trans : ℕ → Header → Machine Block → Machine Block
  unfolding install_from
  install_trans start lh m = install_from start lh.block 0 lh.n m

  -- The loop of `write_log`.
  pub write_from : ℕ → (ℕ → ℕ) → ℕ → ℕ → Machine Block → Machine Block
  unfolding copy_block
  write_from start block tail zero m = m
  write_from start block tail (suc left) m =
      write_from start block (suc tail) left (copy_block (block tail) (slot start tail) m)

  pub write_log : ℕ → Header → Machine Block → Machine Block
  unfolding write_from
  write_log start lh m = write_from start lh.block 0 lh.n m

  pub read_head : ℕ → Machine Block → Header
  read_head start m = record { n = get_n (m.mem start); block = get_block (m.mem start) }

  pub write_head : ℕ → Header → Machine Block → Machine Block
  write_head start lh m = bwrite start (modify start (put_head lh.n lh.block (m.mem start)) m)

  pub recover_from_log : ℕ → Machine Block → Machine Block
  unfolding read_head install_trans write_head
  recover_from_log start m =
      let lh = read_head start m in
      write_head start (record lh { n = 0 }) (install_trans start lh m)

  pub commit : ℕ → Header → Machine Block → Machine Block
  unfolding write_log write_head install_trans
  commit start lh m =
      if ltb 0 lh.n
      then write_head start (record lh { n = 0 })
          (install_trans start lh (write_head start lh (write_log start lh m)))
      else m

-- `initlog`, given `logstart` and `nlog` of the superblock; `struct logheader` fits in a block.
module _ (L : Layout) where
  pub init_log : ℕ → ℕ → Machine L.Block → Log × Machine L.Block
  unfolding read_head recover_from_log
  init_log logstart nlog m = (
    record {
      start = logstart;
      size = nlog;
      outstanding = 0;
      committing = false;
      lh = record (read_head L logstart m) { n = 0 };
    },
    recover_from_log L logstart m,
  )

-- `begin_op`: the log with one more operation, or `none` where the caller sleeps on `&log`.
pub begin_op : Log → Option Log
begin_op l =
    if l.committing
    then none
    else if slt log_size (add32 l.lh.n (mul32 (add32 l.outstanding 1) max_op_blocks))
    then none
    else some (record l { outstanding = add32 l.outstanding 1 })

-- The first critical section of `end_op`: whether to commit. `none` is the panic.
pub end_op : Log → Option (Log × Bool)
end_op l =
    let out = sub32 l.outstanding 1 in
    if l.committing
    then none
    else if out == 0
    then some (record l { outstanding = out; committing = true }, true)
    else some (record l { outstanding = out }, false)

-- The second critical section, after `commit`, which has set `lh.n` to 0.
pub end_commit : Log → Log
end_commit l = record l { committing = false; lh = record l.lh { n = 0 } }

-- The search of `log_write` for the block, from entry `i` with `left` to go: `lh.n` if absent.
pub absorb : (ℕ → ℕ) → ℕ → ℕ → ℕ → ℕ
absorb block b i zero = i
absorb block b i (suc left) =
    let rest = absorb block b (suc i) left in if block i == b then i else rest

-- `log_write` of block `b`; `none` is a panic.
pub log_write : ℕ → Log → Option Log
unfolding absorb
log_write b l =
    if leb log_size l.lh.n || leb (l.size - 1) l.lh.n
    then none
    else if slt l.outstanding 1
    then none
    else (let i = absorb l.lh.block b 0 l.lh.n in
        let lh : Header = record {
          n = if i == l.lh.n then l.lh.n + 1 else l.lh.n;
          block = update l.lh.block i b;
        } in
        some (record l { lh = lh }))
