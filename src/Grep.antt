-- ===== src/Grep.antt =====
-- The regular expressions of grep.c: match, matchhere and matchstar over NUL-terminated strings,
-- written as the lists of their bytes before the NUL.
pub mod Spec
mod Tests
use modified_xv.Base.{ℕ, Bool, true, false, ◌||◌, List, [], ◌∷◌, ◌==◌, if◌then◌else◌}

-- `'*'`, `'.'`, `'$'` and `'^'`
abbrev pub star_code : ℕ
star_code = b'*'

abbrev pub dot_code : ℕ
dot_code = b'.'

abbrev pub end_code : ℕ
end_code = b'$'

abbrev pub start_code : ℕ
start_code = b'^'

-- `c == '.' || c == x`
abbrev pub fits : ℕ → ℕ → Bool
fits c x = c == dot_code || c == x

-- `matchstar`, given `matchhere` at the rest of the expression.
unfoldable pub matchstar : ℕ → (List ℕ → Bool) → List ℕ → Bool
matchstar c here [] = here []
matchstar c here (x ∷ xs) =
    here (x ∷ xs) || (if x == c || c == dot_code then matchstar c here xs else false)

-- The last test of `matchhere`, given `matchhere` at the rest of the expression.
unfoldable pub matchone : ℕ → (List ℕ → Bool) → List ℕ → Bool
matchone c here [] = false
matchone c here (x ∷ xs) = if fits c x then here xs else false

abbrev pub is_nil : List ℕ → Bool
is_nil [] = true
is_nil (x ∷ xs) = false

unfoldable pub matchhere : List ℕ → List ℕ → Bool
unfolding matchstar matchone
matchhere [] text = true
matchhere (c ∷ []) text = if c == end_code then is_nil text else matchone c (matchhere []) text
matchhere (c ∷ (d ∷ re)) text =
    let starred = matchstar c (matchhere re) text in
    let plain = matchone c (matchhere (d ∷ re)) text in if d == star_code then starred else plain

-- The loop of `match` over the suffixes of the text.
unfoldable pub search : (List ℕ → Bool) → List ℕ → Bool
search here [] = here []
search here (x ∷ xs) = here (x ∷ xs) || search here xs

-- `match`
unfoldable pub matches : List ℕ → List ℕ → Bool
unfolding matchhere search
matches [] text = search (matchhere []) text
matches (c ∷ re) text =
    if c == start_code then matchhere re text else search (matchhere (c ∷ re)) text
