-- ===== src/UserLib/Tests.antt =====
-- Numbers written and read, and the theorems at concrete numbers.
use modified_xv.Base.{◌-◌, ◌^◌, ◌≡◌, ℕ, List, refl, true, false, [], ◌∷◌, arith}
use modified_xv.UserLib.{printint, atoi}
use modified_xv.UserLib.Numerals.{printint-atoi}

negative : printint (2 ^ 32 - 42) 10 true ≡ b'-' ∷ b'4' ∷ b'2' ∷ []
unfolding printint
negative = refl

in_hex : printint 48879 16 false ≡ b'B' ∷ b'E' ∷ b'E' ∷ b'F' ∷ []
unfolding printint
in_hex = refl

stops_at_letter : atoi (b'1' ∷ b'2' ∷ b'x' ∷ b'3' ∷ []) ≡ 12
unfolding atoi
stops_at_letter = refl

printint-atoi_example :
    (digits : List ℕ) × (atoi digits ≡ 42) × (printint (2 ^ 32 - 42) 10 true ≡ b'-' ∷ digits)
printint-atoi_example = printint-atoi (2 ^ 32 - 42) true (omega arith)
