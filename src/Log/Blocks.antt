-- ===== src/Log/Blocks.antt =====
-- The blocks in memory and on disk that log.c works on, and a crash that can come at any write.
use modified_xv.Base.{ℕ, ◌-◌, ◌<◌, ◌≡◌, ◌==◌, if◌then◌else◌, update}

-- A block, and the log header that log.c keeps in one by a cast of the block's bytes.
pub record Layout : Type 1 where
  pub Block : Type 0
  pub put_head : ℕ → (ℕ → ℕ) → Block → Block
  pub get_n : Block → ℕ
  pub get_block : Block → ℕ → ℕ
  pub get-put_n : (n : ℕ) (block : ℕ → ℕ) (b : Block) → get_n (put_head n block b) ≡ n
  pub get-put_block :
      (n : ℕ) (block : ℕ → ℕ) (b : Block) (i : ℕ)
      → i < n
      → get_block (put_head n block b) i ≡ block i

-- `mem` is what `bread` returns for each block, `disk` what the disk holds, and `power` the number
-- of writes that reach the disk before the machine stops.
pub record Machine (Block : Type 0) : Type 0 where
  pub mem : ℕ → Block
  pub disk : ℕ → Block
  pub power : ℕ

module _ {Block : Type 0} where
  -- A change of a buffer's data.
  unfoldable pub modify : ℕ → Block → Machine Block → Machine Block
  modify b v m = record m { mem = update m.mem b v }

  -- `bwrite`: after the power has gone nothing reaches the disk.
  unfoldable pub bwrite : ℕ → Machine Block → Machine Block
  bwrite b m =
      if m.power == 0 then m else record m { disk = update m.disk b (m.mem b); power = m.power - 1 }

  -- A start from the disk alone, with power for `power` writes.
  unfoldable pub reboot : ℕ → Machine Block → Machine Block
  reboot power m = record { mem = m.disk; disk = m.disk; power = power }
