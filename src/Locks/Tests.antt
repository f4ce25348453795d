-- ===== src/Locks/Tests.antt =====
-- Nested calls on a CPU, and two CPUs on a lock.
use modified_xv.Base.{◌&&◌, not, ◌≡◌, ◌↔◌, refl, true, false, none, some, arith, update, ◌==◌}
use modified_xv.Locks.{Cpu, Spinlock, popcli, holding, acquiresleep, xchg, mark}
use modified_xv.Locks.Nesting.{Nest, quiet, around, run, Restored, Nest-Restored}
use modified_xv.Locks.Exclusion.{
  outside, spinning, marking, inside, busy, State, Reach, here, next, enters, tries, marks,
  IsExclusive, holding_iff,
}

abbrev idle : Cpu
idle = record { on = true; ncli = 0; intena = false }

abbrev nested : Nest
nested = around (around quiet (around quiet quiet)) quiet

unmatched_panics : popcli (record idle { on = false }) ≡ none
unfolding popcli
unmatched_panics = refl

Nest-Restored_example : (c' : Cpu) × (run nested idle ≡ some c') × Restored idle c'
Nest-Restored_example = Nest-Restored nested idle (λ h. absurd (omega (arith, h))) (omega arith)

abbrev free : Spinlock
free = record { locked = false; cpu = 0 }

abbrev start : State
start = (free, λ c. outside)

start-IsExclusive : IsExclusive start
start-IsExclusive = record {
  locks = λ c h. cc;
  one = λ c d h k. cc;
  owner = λ c h. cc;
  owned = λ c h. absurd (omega arith);
}

abbrev taken : State
taken =
    (mark 1 (xchg free).0, update (update (update (λ c. outside) 1 spinning) 1 marking) 1 inside)

takes : Reach start taken
unfolding xchg holding
takes =
    next
      (next (next here (enters 1 free (λ c. outside) refl refl))
        (tries 1 free (update (λ c. outside) 1 spinning) refl))
      (marks 1 (record { locked = true; cpu = 0 })
        (update (update (λ c. outside) 1 spinning) 1 marking) refl)

holding_iff_example :
    ((holding 1 taken.0 ≡ true) ↔ (taken.1 1 ≡ inside))
    × ((busy (taken.1 1) && busy (taken.1 2) && not (1 == 2)) ≡ false)
holding_iff_example = holding_iff 1 2 start-IsExclusive takes

sleeper_waits : acquiresleep 4 (record { locked = true; pid = 3 }) ≡ none
unfolding acquiresleep
sleeper_waits = refl
