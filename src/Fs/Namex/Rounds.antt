-- ===== src/Fs/Namex/Rounds.antt =====
-- The rounds of the loop of namex in fs.c.
use modified_xv.Base.{
  ℕ, zero, suc, ◌<◌, ◌≡◌, refl, ap, arith, Bool, some, List, length, Option-cases, inl, inr,
}
use mathlib.Core.Path.{fun_ext}
use modified_xv.Fs.Cache.{Icache}
use modified_xv.Fs.Path.{skipelem}
use modified_xv.Fs.Path.Elements.{Skips, skipelem_lem}
use modified_xv.Fs.Namex.{descend, walk}

agree :
    (n m : ℕ) (parent : Bool) (path name : List ℕ) (ip : ℕ) (k : Icache)
    → length path < n
    → length path < m
    → walk n parent path name ip k ≡ walk m parent path name ip k
unfolding walk
agree zero m parent path name ip k a b = absurd (omega arith)
agree (suc n) zero parent path name ip k a b = absurd (omega arith)
agree (suc n) (suc m) parent path name ip k a b =
    let h = skipelem_lem path in
    elim (Option-cases (skipelem path)) [
      | inl e ↦ rw (walk, e) refl
      | inr ((elem, rest), e) ↦
          let (whole, parts, cut, short, bare) : Skips path (some (elem, rest)) = rw e at h in
          let same : walk n parent rest ≡ walk m parent rest = fun_ext λ t. fun_ext λ i.
            fun_ext λ c.
              agree n m parent rest t i c (omega (arith, short, a)) (omega (arith, short, b)) in
          rw (walk, e) (ap (λ go. descend go parent elem rest ip k) same)
    ]

-- Any number of rounds above the length of the path gives the result that `namex` gets: the loop
-- ended by its own tests.
pub walk-fuel :
    (fuel : ℕ) (parent : Bool) (path name : List ℕ) (ip : ℕ) (k : Icache)
    → length path < fuel
    → walk fuel parent path name ip k ≡ walk (suc (length path)) parent path name ip k
walk-fuel fuel parent path name ip k lt =
    agree fuel (suc (length path)) parent path name ip k lt (omega arith)
