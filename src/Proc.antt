-- ===== src/Proc.antt =====
-- The process table and its schedulers: proc.h, proc.c and the clock tick of trap.c.
pub mod State
pub mod Queue
pub mod Services
pub mod Table
pub mod Wake
pub mod Life
pub mod Wait
pub mod Tick
pub mod Select
pub mod Mlfq
pub mod Invariant
pub mod System
mod Tests
