-- ===== src/Shell/Progress.antt =====
-- How much of the text the parts of the parser of sh.c consume.
use modified_xv.Base.{
  ℕ, suc, ◌≤◌, ◌≡◌, refl, arith, true, false, ◌||◌, List, [], ◌∷◌, ◌==◌, Bool-cases, inl, inr,
  if_ind, has, length,
}
use modified_xv.Shell.{
  whitespace, symbols, skip, starts, word, Token, token, after_greater, gettoken,
}

pub skip_short : (s : List ℕ) → length (skip s) ≤ length s
unfolding skip
skip_short [] = omega arith
skip_short (c ∷ cs) =
    if_ind (λ t. length t ≤ suc (length cs)) (has c whitespace) (skip cs) (c ∷ cs)
      (λ e. omega (arith, skip_short cs)) (λ e. omega arith)

-- What `skip` leaves does not start with white space.
abbrev pub IsTrimmed : List ℕ → Type 0
IsTrimmed [] = Unit
IsTrimmed (c ∷ cs) = has c whitespace ≡ false

pub skip-IsTrimmed : (s : List ℕ) → IsTrimmed (skip s)
unfolding skip
skip-IsTrimmed [] = tt
skip-IsTrimmed (c ∷ cs) = elim (Bool-cases (has c whitespace)) [
  | inl e ↦ rw e (skip-IsTrimmed cs)
  | inr e ↦ rw e e
]

pub skip_trimmed : (s : List ℕ) → IsTrimmed s → skip s ≡ s
unfolding skip
skip_trimmed [] h = refl
skip_trimmed (c ∷ cs) h = rw h refl

word_short : (s : List ℕ) → length (word s).1 ≤ length s
unfolding word
word_short [] = omega arith
word_short (c ∷ cs) =
    if_ind (λ (t : List ℕ × List ℕ). length t.1 ≤ suc (length cs))
      (has c whitespace || has c symbols) ([], c ∷ cs) (c ∷ (word cs).0, (word cs).1)
      (λ e. omega arith) (λ e. omega (arith, word_short cs))

greater_short : (t : List ℕ) → length (after_greater t).rest ≤ length t
greater_short [] = omega arith
greater_short (d ∷ ds) =
    if_ind (λ (t : Token). length t.rest ≤ suc (length ds)) (d == 62)
      (record { kind = 43; text = 62 ∷ 62 ∷ []; rest = ds })
      (record { kind = 62; text = 62 ∷ []; rest = d ∷ ds }) (λ e. omega arith) (λ e. omega arith)

word_shorter :
    (c : ℕ) (cs : List ℕ)
    → has c whitespace ≡ false
    → has c symbols ≡ false
    → length (word (c ∷ cs)).1 ≤ length cs
unfolding word
word_shorter c cs h z = rw (h, z) (word_short cs)

-- A token takes something of a text that does not start with white space.
token_shorter :
    (c : ℕ) (cs : List ℕ) → has c whitespace ≡ false → length (token (c ∷ cs)).rest ≤ length cs
unfolding token
token_shorter c cs h = elim (Bool-cases (c == 62)) [
  | inl e ↦ rw e (greater_short cs)
  | inr e ↦ elim (Bool-cases (has c symbols)) [
    | inl z ↦ rw (e, z) (omega arith)
    | inr z ↦ rw (e, z) (word_shorter c cs h z)
  ]
]

token_short : (t : List ℕ) → IsTrimmed t → length (token t).rest ≤ length t
unfolding token
token_short [] h = omega arith
token_short (c ∷ cs) h = omega (arith, token_shorter c cs h)

pub gettoken_short : (s : List ℕ) → length (gettoken s).rest ≤ length s
unfolding gettoken
gettoken_short s =
    omega (
      arith,
      skip_short (token (skip s)).rest,
      token_short (skip s) (skip-IsTrimmed s),
      skip_short s,
    )

-- So does `gettoken`, where something is left.
shorter_cons :
    (c : ℕ) (cs : List ℕ) → has c whitespace ≡ false → length (gettoken (c ∷ cs)).rest ≤ length cs
unfolding gettoken
shorter_cons c cs h =
    let t = skip_trimmed (c ∷ cs) h in
    rw t (omega (arith, skip_short (token (c ∷ cs)).rest, token_shorter c cs h))

pub hit_shorter :
    (toks s : List ℕ)
    → starts toks (skip s) ≡ true
    → suc (length (gettoken (skip s)).rest) ≤ length s
hit_shorter toks s h = of_trimmed (skip s) (skip-IsTrimmed s) (skip_short s) h
  where
    of_trimmed :
        (t : List ℕ)
        → IsTrimmed t
        → length t ≤ length s
        → starts toks t ≡ true
        → suc (length (gettoken t).rest) ≤ length s
    of_trimmed [] i le e = cc e
    of_trimmed (c ∷ cs) i le e = omega (arith, shorter_cons c cs i, le)

kind_none : ((gettoken []).kind == 0) ≡ true
unfolding gettoken token skip
kind_none = refl

pub kind_shorter :
    (s : List ℕ)
    → ((gettoken (skip s)).kind == 0) ≡ false
    → suc (length (gettoken (skip s)).rest) ≤ length s
kind_shorter s k = of_trimmed (skip s) (skip-IsTrimmed s) (skip_short s) k
  where
    of_trimmed :
        (t : List ℕ)
        → IsTrimmed t
        → length t ≤ length s
        → ((gettoken t).kind == 0) ≡ false
        → suc (length (gettoken t).rest) ≤ length s
    of_trimmed [] i le e = cc (e, kind_none)
    of_trimmed (c ∷ cs) i le e = omega (arith, shorter_cons c cs i, le)
