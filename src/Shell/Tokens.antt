-- ===== src/Shell/Tokens.antt =====
-- gettoken of sh.c at the tokens of a text.
use modified_xv.Base.{
  ℕ, ◌≡◌, refl, arith, true, false, ◌||◌, List, [], ◌∷◌, ◌++◌, ◌==◌, Bool-cases, inl, inr, has,
}
use modified_xv.Shell.{whitespace, symbols, skip, word, token, gettoken}
use modified_xv.Shell.Progress.{skip_trimmed, skip-IsTrimmed}
use modified_xv.Shell.Grammar.{is_plain, AllPlain, IsWord}

pub skip-skip : (s : List ℕ) → skip (skip s) ≡ skip s
skip-skip s = skip_trimmed (skip s) (skip-IsTrimmed s)

pub plain_space : (c : ℕ) → is_plain c ≡ true → has c whitespace ≡ false
plain_space c h = elim (Bool-cases (has c whitespace)) [ inr e ↦ e | inl e ↦ cc (rw e at h) ]

pub plain_symbol : (c : ℕ) → is_plain c ≡ true → has c symbols ≡ false
plain_symbol c h = elim (Bool-cases (has c symbols)) [
  | inr e ↦ e
  | inl e ↦ elim (Bool-cases (has c whitespace)) [
    | inl z ↦ cc (rw z at h)
    | inr z ↦ cc (rw (z, e) at h)
  ]
]

-- A word ends here.
abbrev pub Stops : List ℕ → Type 0
Stops [] = Unit
Stops (c ∷ cs) = (has c whitespace || has c symbols) ≡ true

word_plain : (w k : List ℕ) → AllPlain w → Stops k → word (w ++ k) ≡ (w, k)
unfolding word
word_plain [] [] p st = refl
word_plain [] (c ∷ cs) p st = rw st refl
word_plain (c ∷ cs) k (h, t) st =
    let ih = word_plain cs k t st in rw (plain_space c h, plain_symbol c h, ih) refl

-- A word, up to where it stops.
pub gettoken_word :
    (w k : List ℕ)
    → IsWord w
    → Stops k
    → gettoken (w ++ k) ≡ record { kind = 97; text = w; rest = skip k }
unfolding gettoken token
gettoken_word [] k p st = absurd p
gettoken_word (c ∷ cs) k p st =
    let s = skip_trimmed (c ∷ (cs ++ k)) (plain_space c p.0) in
    let y = plain_symbol c p.0 in
    let g : (c == 62) ≡ false = ground arith in rw (s, g, y, word_plain (c ∷ cs) k p st) refl

pub skip_word : (w k : List ℕ) → IsWord w → skip (w ++ k) ≡ w ++ k
skip_word [] k p = absurd p
skip_word (c ∷ cs) k p = skip_trimmed (c ∷ (cs ++ k)) (plain_space c p.0)

-- A symbol other than `>`.
pub gettoken_symbol :
    (c : ℕ) (k : List ℕ)
    → has c symbols ≡ true
    → (c == 62) ≡ false
    → gettoken (c ∷ k) ≡ record { kind = c; text = c ∷ []; rest = skip k }
unfolding gettoken token
gettoken_symbol c k h g = let s = skip_trimmed (c ∷ k) (ground arith) in rw (s, g, h) refl

-- `>` before a word.
pub gettoken_greater :
    (w k : List ℕ)
    → IsWord w
    → gettoken (62 ∷ (w ++ k)) ≡ record { kind = 62; text = 62 ∷ []; rest = w ++ k }
unfolding gettoken token
gettoken_greater [] k p = absurd p
gettoken_greater (c ∷ cs) k p =
    let s = skip_trimmed (62 ∷ c ∷ (cs ++ k)) refl in
    let y = plain_symbol c p.0 in
    let g : (c == 62) ≡ false = ground arith in rw (s, g, skip_word (c ∷ cs) k p) refl
