-- ===== src/Fs/Path/Elements.antt =====
-- skipelem of fs.c against the elements of a path.
use modified_xv.Base.{
  ℕ, ◌≤◌, ◌<◌, ◌≡◌, refl, sym, ap, ◌∙◌, arith, false, Option, none, some, List, [], ◌∷◌, ◌++◌, ◌==◌,
  if◌then◌else◌, take, length, Bool-cases, inl, inr,
}
use mathlib.Core.List.{append-nil, append_assoc}
use modified_xv.Fs.Path.{dirsiz, slash, skip_slashes, element, skipelem_from, skipelem}

-- The elements of a path, after the characters `cur` of the first one.
abbrev flush : List ℕ → List (List ℕ) → List (List ℕ)
flush [] es = es
flush (c ∷ cs) es = (c ∷ cs) ∷ es

abbrev elements : List ℕ → List ℕ → List (List ℕ)
elements cur [] = flush cur []
elements cur (c ∷ cs) =
    if c == slash then flush cur (elements [] cs) else elements (cur ++ (c ∷ [])) cs

elements-skip_slashes : (path : List ℕ) → elements [] (skip_slashes path) ≡ elements [] path
unfolding skip_slashes
elements-skip_slashes [] = refl
elements-skip_slashes (c ∷ cs) = elim (Bool-cases (c == slash)) [
  | inl e ↦ rw e (elements-skip_slashes cs)
  | inr e ↦ rw e (rw e refl)
]

elements-element :
    (cur path : List ℕ)
    → elements cur path ≡ flush (cur ++ (element path).0) (elements [] (element path).1)
unfolding element
elements-element cur [] = rw (append-nil cur) refl
elements-element cur (c ∷ cs) = elim (Bool-cases (c == slash)) [
  | inl e ↦ rw e (rw (e, append-nil cur) refl)
  | inr e ↦ rw e (
      elements-element (cur ++ (c ∷ [])) cs
      ∙ ap (λ t. flush t (elements [] (element cs).1)) (append_assoc cur (c ∷ []) (element cs).0))
]

element_short : (path : List ℕ) → length (element path).1 ≤ length path
unfolding element
element_short [] = omega arith
element_short (c ∷ cs) = elim (Bool-cases (c == slash)) [
  | inl e ↦ rw e (omega arith)
  | inr e ↦ rw e (omega (arith, element_short cs))
]

skip_slashes_short : (path : List ℕ) → length (skip_slashes path) ≤ length path
unfolding skip_slashes
skip_slashes_short [] = omega arith
skip_slashes_short (c ∷ cs) = elim (Bool-cases (c == slash)) [
  | inl e ↦ rw e (omega (arith, skip_slashes_short cs))
  | inr e ↦ rw e (omega arith)
]

-- It does not start with a slash.
abbrev IsBare : List ℕ → Type 0
IsBare [] = Unit
IsBare (c ∷ cs) = (c == slash) ≡ false

skip_slashes-IsBare : (path : List ℕ) → IsBare (skip_slashes path)
unfolding skip_slashes
skip_slashes-IsBare [] = tt
skip_slashes-IsBare (c ∷ cs) = elim (Bool-cases (c == slash)) [
  | inl e ↦ rw e (skip_slashes-IsBare cs)
  | inr e ↦ rw e e
]

-- The result of `skipelem`: no element is left, or the first one, cut to the size of a name, and
-- a shorter path with the others, which does not start with a slash.
abbrev pub Skips : List ℕ → Option (List ℕ × List ℕ) → Type 0
Skips path none = elements [] path ≡ []
Skips path (some (name, rest)) =
    (e : List ℕ) × (elements [] path ≡ e ∷ elements [] rest)
    × (name ≡ take dirsiz e)
    × (length rest < length path)
    × IsBare rest

skipelem_bare :
    (path s : List ℕ)
    → IsBare s
    → elements [] s ≡ elements [] path
    → length s ≤ length path
    → Skips path (skipelem_from s)
unfolding skipelem_from element
skipelem_bare path [] bare eq le = sym eq
skipelem_bare path (c ∷ cs) bare eq le =
    let (e, rest) = element cs in
    let first : elements [] (c ∷ cs) ≡ elements (c ∷ []) cs = rw bare refl in
    let parts : elements [] path ≡ (c ∷ e) ∷ elements [] (skip_slashes rest) =
      sym eq
      ∙ first
      ∙ elements-element (c ∷ []) cs
      ∙ ap (λ t. (c ∷ e) ∷ t) (sym (elements-skip_slashes rest)) in
    rw bare (
      c ∷ e,
      parts,
      refl,
      omega (arith, le, element_short cs, skip_slashes_short rest),
      skip_slashes-IsBare rest,
    )

-- `skipelem` gives 0 exactly for a path without elements; else the first element, cut to DIRSIZ
-- bytes, and a shorter path with the other elements, which does not start with a slash.
pub skipelem_lem : (path : List ℕ) → Skips path (skipelem path)
unfolding skipelem
skipelem_lem path =
    skipelem_bare path (skip_slashes path) (skip_slashes-IsBare path) (elements-skip_slashes path)
      (skip_slashes_short path)
