-- ===== src/Strings.antt =====
-- string.c: the kernel's byte and string routines over a memory of bytes. Addresses do not wrap.
pub mod Move
pub mod Compare
pub mod Copy
mod Tests
use modified_xv.Base.{ℕ, zero, suc, ◌+◌, Bool, ◌&&◌, ◌==◌, ltb, if◌then◌else◌, update, sub32}

-- The loop `*d++ = *s++`, `n` times.
pub copy_up : ℕ → ℕ → ℕ → (ℕ → ℕ) → ℕ → ℕ
copy_up d s zero m = m
copy_up d s (suc n) m = copy_up (suc d) (suc s) n (update m d (m s))

-- The loop `*--d = *--s`, `n` times, down to `d` and `s`.
pub copy_down : ℕ → ℕ → ℕ → (ℕ → ℕ) → ℕ → ℕ
copy_down d s zero m = m
copy_down d s (suc n) m = copy_down d s n (update m (d + n) (m (s + n)))

pub memmove : ℕ → ℕ → ℕ → (ℕ → ℕ) → ℕ → ℕ
unfolding copy_up copy_down
memmove dst src n m =
    if ltb src dst && ltb dst (src + n) then copy_down dst src n m else copy_up dst src n m

-- `memcmp`: the difference of the first bytes that differ, an `int`.
pub memcmp : (ℕ → ℕ) → ℕ → ℕ → ℕ → ℕ
memcmp m p q zero = 0
memcmp m p q (suc n) =
    let rest = memcmp m (suc p) (suc q) n in if m p == m q then rest else sub32 (m p) (m q)

pub strncmp : (ℕ → ℕ) → ℕ → ℕ → ℕ → ℕ
strncmp m p q zero = 0
strncmp m p q (suc n) =
    let rest = strncmp m (suc p) (suc q) n in
    if m p == 0 then sub32 (m p) (m q) else if m p == m q then rest else sub32 (m p) (m q)

-- The second loop of `strncpy`.
pub fill_zero : ℕ → ℕ → (ℕ → ℕ) → ℕ → ℕ
fill_zero s zero m = m
fill_zero s (suc n) m = fill_zero (suc s) n (update m s 0)

-- `strncpy` with `n` bytes to go.
pub strncpy : ℕ → ℕ → ℕ → (ℕ → ℕ) → ℕ → ℕ
unfolding fill_zero
strncpy s t zero m = m
strncpy s t (suc n) m =
    let rest = strncpy (suc s) (suc t) n (update m s (m t)) in
    if m t == 0 then fill_zero (suc s) n (update m s 0) else rest

-- The loop of `safestrcpy`, with room for `n` bytes before the last, and the write of the NUL.
pub copy_text : ℕ → ℕ → ℕ → (ℕ → ℕ) → ℕ → ℕ
copy_text s t zero m = update m s 0
copy_text s t (suc n) m =
    let rest = copy_text (suc s) (suc t) n (update m s (m t)) in
    if m t == 0 then update (update m s 0) (suc s) 0 else rest

-- `safestrcpy`; `n` is the count, 0 for one that is not positive.
pub safestrcpy : ℕ → ℕ → ℕ → (ℕ → ℕ) → ℕ → ℕ
unfolding copy_text
safestrcpy s t zero m = m
safestrcpy s t (suc n) m = copy_text s t n m
