-- ===== src/Pipe/Tests.antt =====
-- Runs of a pipe across the wrap of its counters, and the theorems at concrete pipes.
use modified_xv.Base.{◌-◌, ◌^◌, ◌≡◌, refl, true, false, List, [], ◌∷◌, ◌++◌, arith}
use modified_xv.Pipe.{Pipe, close, write, read, sleeps}
use modified_xv.Pipe.Fifo.{IsValid, contents}
use modified_xv.Pipe.Stream.{Call, writing, reading, closing, run, run_fifo}

-- The counters stand one before their wrap.
abbrev at_wrap : Pipe
at_wrap = record {
  buf = λ _. 0;
  nread = 2 ^ 32 - 1;
  nwrite = 2 ^ 32 - 1;
  readopen = true;
  writeopen = true;
}

at_wrap-IsValid : IsValid at_wrap
at_wrap-IsValid = record { read_small = omega arith; write_small = omega arith; fits = omega arith }

abbrev calls : List Call
calls =
    reading false 4
    ∷ writing false (10 ∷ 20 ∷ 30 ∷ [])
    ∷ reading false 2
    ∷ closing true
    ∷ reading false 5
    ∷ []

run_outs : (run at_wrap calls).2 ≡ 10 ∷ 20 ∷ 30 ∷ []
unfolding run write read close
run_outs = refl

empty_sleeps : (read false at_wrap 4).0 ≡ sleeps
unfolding read
empty_sleeps = refl

run_fifo_example :
    IsValid (run at_wrap calls).0
    × (contents at_wrap ++ (run at_wrap calls).1
        ≡ (run at_wrap calls).2 ++ contents (run at_wrap calls).0)
run_fifo_example = run_fifo calls at_wrap at_wrap-IsValid

-- A pipe that holds one byte.
abbrev one_byte : Pipe
one_byte = record at_wrap { nwrite = 0 }

one_byte-IsValid : IsValid one_byte
one_byte-IsValid = record {
  read_small = omega arith;
  write_small = omega arith;
  fits = omega arith;
}
