-- ===== src/UserLib/Numerals.antt =====
-- printint of printf.c against its buffer and against atoi of ulib.c.
use modified_xv.Base.{
  ℕ, zero, suc, ◌+◌, ◌*◌, ◌/◌, ◌%◌, ◌^◌, ◌≤◌, ◌<◌, ◌≡◌, refl, ap, ◌∙◌, Bool, true, ◌&&◌, List, [],
  ◌∷◌, length, arith, ◌==◌, leb, if◌then◌else◌, Bool-cases, inl, inr, add32, sub32, mul32, slt,
}
use modified_xv.UserLib.{digit, digits_from, rounds, printint, atoi_from, atoi}

abbrev pow10 : ℕ → ℕ
pow10 zero = 1
pow10 (suc k) = 10 * pow10 k

-- One more digit read.
atoi_step :
    (n d : ℕ) (s : List ℕ)
    → d < 10
    → n * 10 + d < 2 ^ 32
    → atoi_from n (digit d ∷ s) ≡ atoi_from (n * 10 + d) s
unfolding atoi_from
atoi_step n d s small fits =
    let c : digit d ≡ d + 48 = ground arith in
    let low : leb 48 (d + 48) ≡ true = ground arith in
    let high : leb (d + 48) 57 ≡ true = ground arith in
    let sum : sub32 (add32 (mul32 n 10) (d + 48)) 48 ≡ n * 10 + d = ground arith in
    rw (c, low, high, sum) refl

no_quotient : (x : ℕ) → (x / 10 == 0) ≡ true → 0 * 10 + x % 10 ≡ x
no_quotient x e = ground arith

digits_from-atoi :
    (fuel x : ℕ) (s : List ℕ)
    → x < pow10 fuel
    → x < 2 ^ 32
    → atoi_from 0 (digits_from fuel 10 x s) ≡ atoi_from x s
unfolding digits_from
digits_from-atoi zero x s small h = ap (λ n. atoi_from n s) (omega arith)
digits_from-atoi (suc fuel) x s small h = elim (Bool-cases (x / 10 == 0)) [
  | inl e ↦ rw e (
      atoi_step 0 (x % 10) s (omega arith) (omega arith)
      ∙ ap (λ n. atoi_from n s) (no_quotient x e))
  | inr e ↦ rw e (
      digits_from-atoi fuel (x / 10) (digit (x % 10) ∷ s) (omega arith) (omega arith)
      ∙ atoi_step (x / 10) (x % 10) s (omega arith) (omega arith)
      ∙ ap (λ n. atoi_from n s) (omega arith))
]

-- The absolute value of an `int`, as the `uint` that `printint` makes of it.
abbrev pub magnitude : ℕ → Bool → ℕ
magnitude x sgn = if sgn && slt x 0 then sub32 0 x else x

-- For every 32-bit number, `printint` in base 10 puts out digits that `atoi` reads as its
-- magnitude, with a minus sign before them exactly where it is printed as an `int` and is
-- negative; the magnitude is then the negated number of 32 bits, and else the number.
pub printint-atoi :
    (x : ℕ) (sgn : Bool)
    → x < 2 ^ 32
    → (digits : List ℕ) × (atoi digits ≡ magnitude x sgn)
      × (printint x 10 sgn ≡ (if sgn && slt x 0 then b'-' ∷ digits else digits))
unfolding printint atoi atoi_from
printint-atoi x sgn h =
    let small : magnitude x sgn < 2 ^ 32 = ground arith in
    (
      digits_from rounds 10 (magnitude x sgn) [],
      digits_from-atoi rounds (magnitude x sgn) [] (omega (arith, small)) small,
      elim (Bool-cases (sgn && slt x 0)) [ inl e ↦ rw e refl | inr e ↦ rw e refl ],
    )

pub data IsBase : ℕ → Type 0 where
  decimal : IsBase 10
  hexadecimal : IsBase 16

quotient_small : (base x k : ℕ) → IsBase base → x < pow10 (suc k) → x / base < pow10 k
quotient_small base x k decimal small = omega arith
quotient_small base x k hexadecimal small = omega arith

length-digits_from :
    (fuel base x k : ℕ) (s : List ℕ)
    → IsBase base
    → x < pow10 (suc k)
    → length (digits_from fuel base x s) ≤ suc k + length s
unfolding digits_from
length-digits_from zero base x k s b small = omega arith
length-digits_from (suc fuel) base x zero s b small =
    let none : (x / base == 0) ≡ true = ground (arith, quotient_small base x zero b small) in
    rw none (omega arith)
length-digits_from (suc fuel) base x (suc k) s b small = elim (Bool-cases (x / base == 0)) [
  | inl e ↦ rw e (omega arith)
  | inr e ↦ rw e (
      omega (
        arith,
        length-digits_from fuel base (x / base) k (digit (x % base) ∷ s) b
            (quotient_small base x (suc k) b small),
      ))
]

digits_from-stable :
    (fuel n base x : ℕ) (s : List ℕ)
    → IsBase base
    → suc fuel ≤ n
    → x < pow10 (suc fuel)
    → digits_from n base x s ≡ digits_from (suc fuel) base x s
unfolding digits_from
digits_from-stable fuel zero base x s b le small = absurd (omega arith)
digits_from-stable zero (suc n) base x s b le small =
    let none : (x / base == 0) ≡ true = ground (arith, quotient_small base x zero b small) in
    rw none refl
digits_from-stable (suc fuel) (suc n) base x s b le small = elim (Bool-cases (x / base == 0)) [
  | inl e ↦ rw e refl
  | inr e ↦ rw e (
      digits_from-stable fuel n base (x / base) (digit (x % base) ∷ s) b (omega arith)
        (quotient_small base x (suc fuel) b small))
]

-- In base 10 or 16, any number of rounds from 10 on gives the same digits of a 32-bit number, and
-- with its sign `printint` puts out at most 16 bytes, the size of its buffer.
pub printint_fits :
    (n x base : ℕ) (sgn : Bool)
    → IsBase base
    → x < 2 ^ 32
    → rounds ≤ n
    → (digits_from n base x [] ≡ digits_from rounds base x []) × (length (printint x base sgn) ≤ 16)
unfolding printint
printint_fits n xx base sgn b h enough = (
  digits_from-stable 9 n base xx [] b enough (omega arith),
  elim (Bool-cases (sgn && slt xx 0)) [
    | inl e ↦ rw e (omega (arith, length-digits_from rounds base (sub32 0 xx) 9 [] b (omega arith)))
    | inr e ↦ rw e (omega (arith, length-digits_from rounds base xx 9 [] b (omega arith)))
  ],
)
