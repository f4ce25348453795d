-- ===== src/Strings/Tests.antt =====
-- Runs over a small memory, and the theorems at it.
use modified_xv.Base.{ℕ, ◌≡◌, refl, [], ◌∷◌, arith, window, if◌then◌else◌, ◌==◌}
use modified_xv.Strings.{memmove, safestrcpy}
use modified_xv.Strings.Move.{moved, memmove_lem}
use modified_xv.Strings.Compare.{text, AllBytes}

-- "abcd" at 100, "abx" at 200, zeros elsewhere.
abbrev memory : ℕ → ℕ
memory x =
    if x == 100
    then b'a'
    else if x == 101
    then b'b'
    else if x == 102
    then b'c'
    else if x == 103
    then b'd'
    else if x == 200
    then b'a'
    else if x == 201
    then b'b'
    else if x == 202
    then b'x'
    else 0

memory-AllBytes : AllBytes memory
memory-AllBytes x = ground arith

overlapping : window (memmove 101 100 4 memory) 100 5 ≡ b'a' ∷ b'a' ∷ b'b' ∷ b'c' ∷ b'd' ∷ []
unfolding memmove
overlapping = refl

memmove_lem_example : memmove 101 100 4 memory 103 ≡ moved memory 101 100 4 103
memmove_lem_example = memmove_lem 101 100 4 memory 103

truncated : text (safestrcpy 300 100 3 memory) 300 3 ≡ b'a' ∷ b'b' ∷ []
unfolding safestrcpy
truncated = refl
