-- ===== src/Strings/Move.antt =====
-- memmove of string.c beside a copy of the old bytes.
use modified_xv.Base.{
  ℕ, zero, suc, ◌+◌, ◌-◌, ◌≤◌, ◌<◌, ◌≡◌, ◌&&◌, arith, ltb, leb, if◌then◌else◌, update, Bool-cases,
  inl, inr,
}
use modified_xv.Strings.{copy_up, copy_down, memmove}

-- Byte `x` after a copy of the `n` bytes at `s` to `d`.
abbrev pub moved : (ℕ → ℕ) → ℕ → ℕ → ℕ → ℕ → ℕ
moved m d s n x = if leb d x && ltb x (d + n) then m (s + (x - d)) else m x

copy_up_lem :
    (d s n : ℕ) (m : ℕ → ℕ) (x : ℕ) → (s < d → s + n ≤ d) → copy_up d s n m x ≡ moved m d s n x
unfolding copy_up
copy_up_lem d s zero m x apart = ground arith
copy_up_lem d s (suc n) m x apart =
    ground (arith, copy_up_lem (suc d) (suc s) n (update m d (m s)) x (λ h. omega (arith, apart)))

copy_down_lem : (d s n : ℕ) (m : ℕ → ℕ) (x : ℕ) → s < d → copy_down d s n m x ≡ moved m d s n x
unfolding copy_down
copy_down_lem d s zero m x h = ground arith
copy_down_lem d s (suc n) m x h =
    ground (arith, copy_down_lem d s n (update m (d + n) (m (s + n))) x h)

-- After `memmove` every byte of the destination is the byte that its source held before, also
-- where the ranges overlap, and every other byte is as before.
pub memmove_lem : (dst src n : ℕ) (m : ℕ → ℕ) (x : ℕ) → memmove dst src n m x ≡ moved m dst src n x
unfolding memmove
memmove_lem dst src n m x = elim (Bool-cases (ltb src dst && ltb dst (src + n))) [
  | inl e ↦ rw e (copy_down_lem dst src n m x (ground arith))
  | inr e ↦ rw e (copy_up_lem dst src n m x (λ h. ground arith))
]
