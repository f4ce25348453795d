-- ===== src/Log/Tests.antt =====
-- A log of two entries on a small disk, and the theorems at it.
use modified_xv.Base.{ℕ, ◌+◌, ◌≡◌, ◌≢◌, refl, false, if◌then◌else◌, none, [], ◌∷◌, arith, ltb, ◌<◌}
use modified_xv.Log.{Header, Log, begin_op, log_write, commit, recover_from_log}
use modified_xv.Log.Blocks.{Layout, Machine, bwrite, modify, reboot}
use modified_xv.Log.Recovery.{Home}
use modified_xv.Log.Crash.{Clean, recoveries, commit_atomic}
use modified_xv.Log.Admission.{Step, begins, here, next, sum, IsValid, log_write_admitted}

-- A block is the header that it holds.
abbrev small_layout : Layout
small_layout = record {
  Block = Header;
  put_head = λ n block b. record { n = n; block = block };
  get_n = λ b. b.n;
  get_block = λ b. b.block;
  get-put_n = λ n block b. refl;
  get-put_block = λ n block b i h. refl;
}

abbrev number : ℕ → Header
number x = record { n = x; block = λ _. 0 }

abbrev two_entries : Header
two_entries = record { n = 2; block = λ i. if ltb 0 i then 40 else 41 }

-- Blocks 40 and 41 are changed in memory; the log starts at block 2.
abbrev changed : ℕ → Machine Header
changed power = record {
  mem = λ x. if ltb x 40 then number 0 else number (x + 100);
  disk = λ x. if ltb x 40 then number 0 else number (if ltb x 42 then x else x + 100);
  power = power;
}

-- The whole commit, and one that stops before the header is written.
commit_done : ((commit small_layout 2 two_entries (changed 9)).disk 40).n ≡ 140
unfolding commit bwrite modify
commit_done = refl

commit_cut : ((commit small_layout 2 two_entries (changed 2)).disk 40).n ≡ 40
unfolding commit bwrite modify
commit_cut = refl

-- One that stops between the two home blocks is finished by the recovery.
commit_replayed :
    ((recover_from_log small_layout 2
        (reboot 9 (commit small_layout 2 two_entries (changed 4)))).disk
      40).n
    ≡ 140
unfolding commit recover_from_log reboot bwrite modify
commit_replayed = refl

far-Home : (x : ℕ) → 39 < x → Home small_layout 2 two_entries x
far-Home x h = record { not_head = omega arith; not_slot = λ a k. omega arith }

entries-Home : (b : ℕ) → b < 2 → Home small_layout 2 two_entries (two_entries.block b)
entries-Home b h = far-Home _ (ground arith)

changed-Clean : (power : ℕ) → Clean small_layout 2 two_entries entries-Home (changed power)
changed-Clean power = record { cleared = refl; fresh = λ x h out. ground arith }

commit_atomic_example :
    (recover_from_log small_layout 2 (
        reboot 9 (
          recoveries small_layout 2 two_entries entries-Home
            (3 ∷ 1 ∷ [])
            (commit small_layout 2 two_entries (changed 4))))).disk
      40
    ≡ (if ltb 2 4 then (changed 4).mem else (changed 4).disk) 40
commit_atomic_example =
    commit_atomic small_layout 2 two_entries entries-Home (changed 4) (3 ∷ 1 ∷ []) 9 40
      (omega arith) (changed-Clean 4) (omega arith) (far-Home 40 (omega arith))

abbrev empty_log : Log
empty_log = record {
  start = 2;
  size = 31;
  outstanding = 0;
  committing = false;
  lh = record { n = 0; block = λ _. 0 };
}

abbrev one_op : Log
one_op = record empty_log { outstanding = 1 }

empty_log-IsValid : IsValid 31 (empty_log, [])
unfolding sum
empty_log-IsValid = record {
  counted = refl;
  room = omega arith;
  small = tt;
  few = omega arith;
  quiet = λ h. refl;
  sized = refl;
}

opened : Step (empty_log, []) (one_op, 10 ∷ [])
unfolding begin_op
opened = begins empty_log one_op [] refl

log_write_admitted_example : log_write 50 one_op ≢ none
log_write_admitted_example =
    log_write_admitted 50 9 [] [] (omega arith) empty_log-IsValid (next here opened)

-- The log of mkfs.c has LOGSIZE blocks in all: entry 29 is refused.
full_panics :
    log_write 50 (record one_op { size = 30; lh = record { n = 29; block = λ _. 0 } }) ≡ none
unfolding log_write
full_panics = refl
