-- ===== src/UserLib.antt =====
-- ulib.c and printf.c: reading and writing numbers in user programs. Text is a list of bytes.
pub mod Numerals
mod Tests
use modified_xv.Base.{
  ℕ, zero, suc, ◌+◌, ◌-◌, ◌*◌, ◌/◌, ◌%◌, Bool, true, false, ◌&&◌, List, [], ◌∷◌, ◌++◌, ◌==◌, leb,
  ltb, if◌then◌else◌, add32, sub32, mul32, slt,
}

-- `digits[d]`, for a digit of a base up to 16.
abbrev pub digit : ℕ → ℕ
digit d = if ltb d 10 then d + b'0' else d + 55

-- The `do` loop of `printint`, with `fuel` rounds at most: the bytes in the order in which they
-- are put out, so the last one stored comes first; `tail` are those stored before.
pub digits_from : ℕ → ℕ → ℕ → List ℕ → List ℕ
digits_from zero base x tail = tail
digits_from (suc fuel) base x tail =
    let rest = digits_from fuel base (x / base) (digit (x % base) ∷ tail) in
    if x / base == 0 then digit (x % base) ∷ tail else rest

-- Both bases in use, 10 and 16, take at most 10 rounds for a number of 32 bits.
abbrev pub rounds : ℕ
rounds = 10

-- `printint`: `xx` is the pattern of an `int`.
pub printint : ℕ → ℕ → Bool → List ℕ
unfolding digits_from
printint xx base sgn =
    if sgn && slt xx 0
    then b'-' ∷ digits_from rounds base (sub32 0 xx) []
    else digits_from rounds base xx []

-- The loop of `atoi`, with the number `n` so far.
pub atoi_from : ℕ → List ℕ → ℕ
atoi_from n [] = n
atoi_from n (c ∷ s) =
    let rest = atoi_from (sub32 (add32 (mul32 n 10) c) b'0') s in
    if leb b'0' c && leb c b'9' then rest else n

pub atoi : List ℕ → ℕ
unfolding atoi_from
atoi s = atoi_from 0 s
