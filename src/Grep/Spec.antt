-- ===== src/Grep/Spec.antt =====
-- The meaning of a regular expression, as a relation, beside the matcher of grep.c.
use modified_xv.Base.{
  ℕ, ◌≡◌, refl, ap, ◌↔◌, inl, inr, Bool, true, List, [], ◌∷◌, ◌++◌, arith, ◌==◌, if◌then◌else◌,
  Bool-cases,
}
use modified_xv.Grep.{
  star_code, end_code, start_code, fits, is_nil, matchstar, matchone, matchhere, search, matches,
}

-- One element of an expression.
pub data Item : Type 0 where
  -- The character, or any for '.'.
  one : ℕ → Item
  -- Zero or more of such characters.
  many : ℕ → Item
  -- The end of the text.
  stop : Item

-- How an expression is read: a '*' binds to the character before it, and '$' is special at the end.
unfoldable pub items : List ℕ → List Item
items [] = []
items (c ∷ []) = if c == end_code then stop ∷ [] else one c ∷ []
items (c ∷ (d ∷ re)) =
    let starred = many c ∷ items re in
    let plain = one c ∷ items (d ∷ re) in if d == star_code then starred else plain

-- The items match the beginning of the text.
pub data Prefix : List Item → List ℕ → Type 0 where
  nothing : {text : List ℕ} → Prefix [] text
  char :
      {c x : ℕ} {is : List Item} {xs : List ℕ}
      → fits c x ≡ true
      → Prefix is xs
      → Prefix (one c ∷ is) (x ∷ xs)
  none_left : {c : ℕ} {is : List Item} {text : List ℕ} → Prefix is text → Prefix (many c ∷ is) text
  one_more :
      {c x : ℕ} {is : List Item} {xs : List ℕ}
      → fits c x ≡ true
      → Prefix (many c ∷ is) xs
      → Prefix (many c ∷ is) (x ∷ xs)
  at_end : Prefix (stop ∷ []) []

module _ (c : ℕ) (is : List Item) (here : List ℕ → Bool) where
  matchstar_sound :
      ((t : List ℕ) → here t ≡ true → Prefix is t)
      → (text : List ℕ) → matchstar c here text ≡ true
      → Prefix (many c ∷ is) text
  unfolding matchstar
  matchstar_sound ok [] h = none_left (ok [] h)
  matchstar_sound ok (x ∷ xs) h = elim (Bool-cases (here (x ∷ xs))) [
    | inl e ↦ none_left (ok (x ∷ xs) e)
    | inr e ↦ one_more (ground arith) (matchstar_sound ok xs (ground arith))
  ]

  matchstar_complete :
      ((t : List ℕ) → Prefix is t → here t ≡ true)
      → (text : List ℕ) → Prefix (many c ∷ is) text
      → matchstar c here text ≡ true
  unfolding matchstar
  matchstar_complete ok [] (none_left p) = ok [] p
  matchstar_complete ok (x ∷ xs) (none_left p) = rw (ok (x ∷ xs) p)
  matchstar_complete ok (x ∷ xs) (one_more f p) = ground (arith, matchstar_complete ok xs p)

  matchone_sound :
      ((t : List ℕ) → here t ≡ true → Prefix is t)
      → (text : List ℕ) → matchone c here text ≡ true
      → Prefix (one c ∷ is) text
  unfolding matchone
  matchone_sound ok [] h = cc
  matchone_sound ok (x ∷ xs) h = char (ground arith) (ok xs (ground arith))

  matchone_complete :
      ((t : List ℕ) → Prefix is t → here t ≡ true)
      → (text : List ℕ) → Prefix (one c ∷ is) text
      → matchone c here text ≡ true
  unfolding matchone
  matchone_complete ok [] p = elim p [ ]
  matchone_complete ok (x ∷ xs) (char f p) = rw f (ok xs p)

stop_sound : (text : List ℕ) → is_nil text ≡ true → Prefix (stop ∷ []) text
stop_sound [] h = at_end
stop_sound (x ∷ xs) h = cc

stop_complete : (text : List ℕ) → Prefix (stop ∷ []) text → is_nil text ≡ true
stop_complete [] at_end = refl
stop_complete (x ∷ xs) p = elim p [ ]

matchhere_sound : (re text : List ℕ) → matchhere re text ≡ true → Prefix (items re) text
unfolding matchhere items
matchhere_sound [] text h = nothing
matchhere_sound (c ∷ []) text h = elim (Bool-cases (c == end_code)) [
  | inl e ↦ rw e (stop_sound text (rw e at h))
  | inr e ↦ rw e (matchone_sound c [] (λ _. true) (λ t _. nothing) text (rw e at h))
]
matchhere_sound (c ∷ (d ∷ re)) text h = elim (Bool-cases (d == star_code)) [
  | inl e ↦ rw e (matchstar_sound c (items re) (matchhere re) (matchhere_sound re) text (rw e at h))
  | inr e ↦ rw e (
      matchone_sound c (items (d ∷ re)) (matchhere (d ∷ re)) (matchhere_sound (d ∷ re)) text
        (rw e at h))
]

matchhere_complete : (re text : List ℕ) → Prefix (items re) text → matchhere re text ≡ true
unfolding matchhere items
matchhere_complete [] text p = refl
matchhere_complete (c ∷ []) text p = elim (Bool-cases (c == end_code)) [
  | inl e ↦ rw e (stop_complete text (rw e at p))
  | inr e ↦ rw e (matchone_complete c [] (λ _. true) (λ t _. refl) text (rw e at p))
]
matchhere_complete (c ∷ (d ∷ re)) text p = elim (Bool-cases (d == star_code)) [
  | inl e ↦
      rw e (matchstar_complete c (items re) (matchhere re) (matchhere_complete re) text (rw e at p))
  | inr e ↦ rw e (
      matchone_complete c (items (d ∷ re)) (matchhere (d ∷ re)) (matchhere_complete (d ∷ re)) text
        (rw e at p))
]

-- The matcher decides whether the expression matches at the beginning of the text.
pub matchhere_iff : (re text : List ℕ) → (matchhere re text ≡ true) ↔ Prefix (items re) text
matchhere_iff re text = (matchhere_sound re text, matchhere_complete re text)

-- The items match somewhere: behind a part `before` of the text.
pub record Within (is : List Item) (text : List ℕ) : Type 0 where
  pub before : List ℕ
  pub rest : List ℕ
  pub split : text ≡ before ++ rest
  pub matched : Prefix is rest

module _ (is : List Item) (here : List ℕ → Bool) where
  search_sound :
      ((t : List ℕ) → here t ≡ true → Prefix is t)
      → (text : List ℕ) → search here text ≡ true
      → Within is text
  unfolding search
  search_sound ok [] h = record { before = []; rest = []; split = refl; matched = ok [] h }
  search_sound ok (x ∷ xs) h = elim (Bool-cases (here (x ∷ xs))) [
    | inl e ↦ record { before = []; rest = x ∷ xs; split = refl; matched = ok (x ∷ xs) e }
    | inr e ↦
        let w = search_sound ok xs (ground arith) in
        record {
          before = x ∷ w.before;
          rest = w.rest;
          split = ap (λ t. x ∷ t) w.split;
          matched = w.matched;
        }
  ]

  search_behind :
      ((t : List ℕ) → Prefix is t → here t ≡ true)
      → (before rest : List ℕ) → Prefix is rest
      → search here (before ++ rest) ≡ true
  unfolding search
  search_behind ok [] [] p = ok [] p
  search_behind ok [] (x ∷ xs) p = rw (ok (x ∷ xs) p)
  search_behind ok (y ∷ ys) rest p = ground (arith, search_behind ok ys rest p)

  search_iff :
      ((t : List ℕ) → (here t ≡ true) ↔ Prefix is t)
      → (text : List ℕ) → (search here text ≡ true) ↔ Within is text
  search_iff ok text = (
    search_sound (λ t. (ok t).0) text,
    λ w. rw w.split (search_behind (λ t. (ok t).1) w.before w.rest w.matched),
  )

-- What the whole expression means: '^' ties it to the beginning of the text.
abbrev pub Meaning : List ℕ → List ℕ → Type 0
Meaning [] text = Within [] text
Meaning (c ∷ re) text =
    if c == start_code then Prefix (items re) text else Within (items (c ∷ re)) text

-- `match` returns 1 exactly where the expression matches: at the beginning of the text behind a
-- '^', and anywhere in it otherwise.
pub matches_iff : (re text : List ℕ) → (matches re text ≡ true) ↔ Meaning re text
unfolding matches items
matches_iff [] text = search_iff [] (matchhere []) (matchhere_iff []) text
matches_iff (c ∷ re) text = elim (Bool-cases (c == start_code)) [
  | inl e ↦ rw e (matchhere_iff re text)
  | inr e ↦ rw e (search_iff (items (c ∷ re)) (matchhere (c ∷ re)) (matchhere_iff (c ∷ re)) text)
]
