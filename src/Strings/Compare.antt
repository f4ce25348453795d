-- ===== src/Strings/Compare.antt =====
-- memcmp and strncmp of string.c beside the equality of bytes and texts.
use modified_xv.Base.{
  ℕ, zero, suc, ◌<◌, ◌≡◌, refl, ◌↔◌, false, List, [], ◌∷◌, arith, ◌==◌, if◌then◌else◌, Bool-cases,
  inl, inr, window, sub32, ==_iff,
}
use mathlib.Core.Path.{ap₂}
use modified_xv.Strings.{memcmp, strncmp}

-- The text at `p`: its bytes up to a NUL, `n` at most.
abbrev pub text : (ℕ → ℕ) → ℕ → ℕ → List ℕ
text m p zero = []
text m p (suc n) = if m p == 0 then [] else m p ∷ text m (suc p) n

-- What `uchar` promises.
abbrev pub AllBytes : (ℕ → ℕ) → Type 0
AllBytes m = (x : ℕ) → m x < 256

differ : (a b : ℕ) → a < 256 → b < 256 → (a == b) ≡ false → (sub32 a b == 0) ≡ false
differ a b ha hb e = ground arith

head_eq : {a b : ℕ} {xs ys : List ℕ} → a ∷ xs ≡ b ∷ ys → a ≡ b
head_eq h = cc

tail_eq : {a b : ℕ} {xs ys : List ℕ} → a ∷ xs ≡ b ∷ ys → xs ≡ ys
tail_eq h = cc

-- Over a memory of bytes, `memcmp` returns 0 exactly where the two ranges hold the same bytes.
pub memcmp-zero :
    (m : ℕ → ℕ) (p q n : ℕ) → AllBytes m → (memcmp m p q n ≡ 0) ↔ (window m p n ≡ window m q n)
unfolding memcmp
memcmp-zero m p q zero b = (λ h. refl, λ h. refl)
memcmp-zero m p q (suc n) b =
    let ih = memcmp-zero m (suc p) (suc q) n b in
    elim (Bool-cases (m p == m q)) [
      | inl e ↦ rw e (λ h. ap₂ ◌∷◌ ((==_iff (m p) (m q)).0 e) (ih.0 h), λ h. ih.1 (tail_eq h))
      | inr e ↦
          let off = differ (m p) (m q) (b p) (b q) e in
          rw e (
            λ h. cc (off, (==_iff (sub32 (m p) (m q)) 0).1 h),
            λ h. cc (e, (==_iff (m p) (m q)).1 (head_eq h)),
          )
    ]

-- The three ways in which a round of `strncmp` ends.
ended :
    (a b : ℕ) (ys : List ℕ)
    → a ≡ 0
    → b < 256
    → (sub32 a b ≡ 0) ↔ ([] ≡ (if b == 0 then [] else b ∷ ys))
ended a b ys ha hb = elim (Bool-cases (b == 0)) [
  | inl e ↦ rw e (λ h. refl, λ h. ground arith)
  | inr e ↦ rw e (λ h. ground arith, λ h. cc)
]

head_of : (a b : ℕ) (xs ys : List ℕ) → a ∷ xs ≡ (if b == 0 then [] else b ∷ ys) → a ≡ b
head_of a b xs ys h = elim (Bool-cases (b == 0)) [
  | inl e ↦ cc (rw e at h)
  | inr e ↦ head_eq (rw e at h)
]

-- Over a memory of bytes, `strncmp` returns 0 exactly where the two texts, cut at their NUL or
-- after `n` bytes, are equal.
pub strncmp-zero :
    (m : ℕ → ℕ) (p q n : ℕ) → AllBytes m → (strncmp m p q n ≡ 0) ↔ (text m p n ≡ text m q n)
unfolding strncmp
strncmp-zero m p q zero b = (λ h. refl, λ h. refl)
strncmp-zero m p q (suc n) b =
    let ih = strncmp-zero m (suc p) (suc q) n b in
    elim (Bool-cases (m p == 0)) [
      | inl z ↦ rw z (ended (m p) (m q) (text m (suc q) n) ((==_iff (m p) 0).0 z) (b q))
      | inr z ↦ elim (Bool-cases (m p == m q)) [
        | inl e ↦
            let same = (==_iff (m p) (m q)).0 e in
            let z' : (m q == 0) ≡ false = rw (← same) z in
            rw (z, e, z') (λ h. ap₂ ◌∷◌ same (ih.0 h), λ h. ih.1 (tail_eq h))
        | inr e ↦
            let off = differ (m p) (m q) (b p) (b q) e in
            rw (z, e)
              (
                λ h. cc (off, (==_iff (sub32 (m p) (m q)) 0).1 h),
                λ h. cc (
                  e,
                  (==_iff (m p) (m q)).1
                      (head_of (m p) (m q) (text m (suc p) n) (text m (suc q) n) h),
                ),
              )
      ]
    ]
