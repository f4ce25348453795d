-- ===== src/Proc/Services.antt =====
-- What fork, exit and wait ask of the other parts of the kernel, over a state of theirs.
use modified_xv.Base.{ℕ, List}

pub record Services : Type 1 where
  pub World : Type 0
  -- A page, or 0.
  pub kalloc : World → ℕ × World
  pub kfree : ℕ → World → World
  -- A copy of a page directory, given with the size; or 0.
  pub copyuvm : ℕ → ℕ → World → ℕ × World
  -- A fresh kernel page directory, or 0.
  pub setupkvm : World → ℕ × World
  -- The inode of the root directory.
  pub namei_root : World → ℕ × World
  pub freevm : ℕ → World → World
  pub filedup : ℕ → World → World
  pub idup : ℕ → World → World
  -- Closing a file or dropping an inode wakes the processes on the channels returned.
  pub fileclose : ℕ → World → List ℕ × World
  pub iput : ℕ → World → List ℕ × World
