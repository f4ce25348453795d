-- ===== src/Strings/Copy.antt =====
-- The texts that strncpy and safestrcpy of string.c leave.
use modified_xv.Base.{
  ltb, leb, ◌&&◌, ℕ, zero, suc, ◌+◌, ◌≤◌, ◌<◌, ◌≡◌, refl, ap, sym, ◌∙◌, false, [], ◌∷◌, arith, ◌==◌,
  if◌then◌else◌, Bool-cases, inl, inr, update, ==_iff, ==_refl,
}
use modified_xv.Strings.{fill_zero, strncpy, copy_text, safestrcpy}
use modified_xv.Strings.Compare.{text}

text_congr :
    (m m' : ℕ → ℕ) (p n : ℕ) → ((j : ℕ) → p ≤ j → j < p + n → m j ≡ m' j) → text m p n ≡ text m' p n
text_congr m m' p zero h = refl
text_congr m m' p (suc n) h =
    let here = h p (omega arith) (omega arith) in
    let rest = text_congr m m' (suc p) n (λ j a b. h j (omega arith) (omega arith)) in
    rw (here, rest) refl

text_nil : (m : ℕ → ℕ) (p n : ℕ) → m p ≡ 0 → text m p (suc n) ≡ []
text_nil m p n h = rw h refl

text_cons :
    (m : ℕ → ℕ) (p n c : ℕ) → m p ≡ c → (c == 0) ≡ false → text m p (suc n) ≡ c ∷ text m (suc p) n
text_cons m p n c h z = rw (h, z) refl

-- Outside the bytes from `s` to `s + n` nothing is written.
copy_text_frame : (s t n : ℕ) (m : ℕ → ℕ) (x : ℕ) → (s ≤ x → s + n < x) → copy_text s t n m x ≡ m x
unfolding copy_text
copy_text_frame s t zero m x out = ground (arith, out)
copy_text_frame s t (suc n) m x out =
    ground
      (arith, copy_text_frame (suc s) (suc t) n (update m s (m t)) x (λ h. omega (arith, out)), out)

copy_text-text :
    (s t n : ℕ) (m : ℕ → ℕ) → (t < s → t + n ≤ s) → text (copy_text s t n m) s (suc n) ≡ text m t n
unfolding copy_text
copy_text-text s t zero m safe = rw (==_refl s) refl
copy_text-text s t (suc n) m safe = elim (Bool-cases (m t == 0)) [
  | inl z ↦
      let here : copy_text s t (suc n) m s ≡ 0 = rw z (ground arith) in
      text_nil (copy_text s t (suc n) m) s (suc n) here
      ∙ sym (text_nil m t n ((==_iff (m t) 0).0 z))
  | inr z ↦
      let m1 = update m s (m t) in
      let m' = copy_text (suc s) (suc t) n m1 in
      let kept : m' s ≡ m t =
        copy_text_frame (suc s) (suc t) n m1 s (λ h. omega arith) ∙ rw (==_refl s) refl in
      let same = text_congr m1 m (suc t) n (λ j a b. ground (arith, safe)) in
      let step : copy_text s t (suc n) m ≡ m' = rw z refl in
      ap (λ w. text w s (suc (suc n))) step
      ∙ text_cons m' s (suc n) (m t) kept z
      ∙ ap (λ xs. m t ∷ xs) (copy_text-text (suc s) (suc t) n m1 (λ h. omega (arith, safe)) ∙ same)
      ∙ sym (text_cons m t n (m t) refl z)
]

-- Where the source does not begin below the destination and reach into it, `safestrcpy` with count
-- n + 1 leaves at the destination, up to a NUL within the count, the source's text cut after `n`
-- bytes, and changes no byte outside the count.
pub safestrcpy-text :
    (s t n x : ℕ) (m : ℕ → ℕ)
    → (t < s → t + n ≤ s)
    → (s ≤ x → s + n < x)
    → (text (safestrcpy s t (suc n) m) s (suc n) ≡ text m t n) × (safestrcpy s t (suc n) m x ≡ m x)
unfolding safestrcpy
safestrcpy-text s t n x m safe out = (copy_text-text s t n m safe, copy_text_frame s t n m x out)

fill_zero_lem :
    (s n : ℕ) (m : ℕ → ℕ) (x : ℕ)
    → fill_zero s n m x ≡ (if leb s x && ltb x (s + n) then 0 else m x)
unfolding fill_zero
fill_zero_lem s zero m x = ground arith
fill_zero_lem s (suc n) m x = ground (arith, fill_zero_lem (suc s) n (update m s 0) x)

strncpy_frame : (s t n : ℕ) (m : ℕ → ℕ) (x : ℕ) → (s ≤ x → s + n ≤ x) → strncpy s t n m x ≡ m x
unfolding strncpy
strncpy_frame s t zero m x out = refl
strncpy_frame s t (suc n) m x out = ground (
  arith,
  strncpy_frame (suc s) (suc t) n (update m s (m t)) x (λ h. omega (arith, out)),
  fill_zero_lem (suc s) n (update m s 0) x,
  out,
)

-- Where the source does not begin below the destination and reach into it, the text at the
-- destination after `strncpy`, cut after `n` bytes, is the source's.
pub strncpy-text :
    (s t n : ℕ) (m : ℕ → ℕ) → (t < s → t + n ≤ s) → text (strncpy s t n m) s n ≡ text m t n
unfolding strncpy
strncpy-text s t zero m safe = refl
strncpy-text s t (suc n) m safe = elim (Bool-cases (m t == 0)) [
  | inl z ↦
      let here : strncpy s t (suc n) m s ≡ 0 =
        rw z (ground (arith, fill_zero_lem (suc s) n (update m s 0) s)) in
      text_nil (strncpy s t (suc n) m) s n here ∙ sym (text_nil m t n ((==_iff (m t) 0).0 z))
  | inr z ↦
      let m1 = update m s (m t) in
      let m' = strncpy (suc s) (suc t) n m1 in
      let kept : m' s ≡ m t =
        strncpy_frame (suc s) (suc t) n m1 s (λ h. omega arith) ∙ rw (==_refl s) refl in
      let same = text_congr m1 m (suc t) n (λ j a b. ground (arith, safe)) in
      let step : strncpy s t (suc n) m ≡ m' = rw z refl in
      ap (λ w. text w s (suc n)) step
      ∙ text_cons m' s n (m t) kept z
      ∙ ap (λ xs. m t ∷ xs) (strncpy-text (suc s) (suc t) n m1 (λ h. omega (arith, safe)) ∙ same)
      ∙ sym (text_cons m t n (m t) refl z)
]
