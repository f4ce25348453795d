-- ===== src/Grep/Tests.antt =====
-- Runs of the matcher, and its theorem at a concrete expression.
use modified_xv.Base.{ℕ, ◌≡◌, refl, ◌↔◌, true, false, List, [], ◌∷◌}
use modified_xv.Grep.{matches, star_code, end_code, start_code}
use modified_xv.Grep.Spec.{Meaning, matches_iff}

-- "^ab*$"
abbrev anchored : List ℕ
anchored = start_code ∷ b'a' ∷ b'b' ∷ star_code ∷ end_code ∷ []

-- "abb"
abbrev abb : List ℕ
abb = b'a' ∷ b'b' ∷ b'b' ∷ []

matches_yes : matches anchored abb ≡ true
unfolding matches
matches_yes = refl

matches_no : matches anchored (b'c' ∷ abb) ≡ false
unfolding matches
matches_no = refl

-- "b*" matches inside any text.
matches_inside : matches (b'b' ∷ star_code ∷ []) (b'c' ∷ []) ≡ true
unfolding matches
matches_inside = refl

matches_iff_example : (matches anchored abb ≡ true) ↔ Meaning anchored abb
matches_iff_example = matches_iff anchored abb
