-- ===== src/Base/Arrays.antt =====
-- C arrays as functions from indices, read through windows.
use Prim.Native.Nat.{ℕ, zero, suc, ◌+◌, ◌<◌, ◌≤◌}
use mathlib.Core.Path.{◌≡◌, refl, ap, ap₂, ◌∙◌}
use mathlib.Core.List.{List, [], ◌∷◌, ◌++◌}
use native.Mathlib.Omega.{arith}
use modified_xv.Base.Tests.{◌==◌, if◌then◌else◌}
use modified_xv.Base.Lists.{length}

module _ {ℓ} {A : Type ℓ} where
  abbrev pub update : (ℕ → A) → ℕ → A → ℕ → A
  update f i v j = if j == i then v else f j

  -- The `n` entries from index `i` on.
  abbrev pub window : (ℕ → A) → ℕ → ℕ → List A
  window f i zero = []
  window f i (suc n) = f i ∷ window f (suc i) n

  pub length-window : (f : ℕ → A) (i n : ℕ) → length (window f i n) ≡ n
  length-window f i zero = refl
  length-window f i (suc n) = ap suc (length-window f (suc i) n)

  pub window_congr :
      (f g : ℕ → A) (i n : ℕ)
      → ((j : ℕ) → i ≤ j → j < i + n → f j ≡ g j)
      → window f i n ≡ window g i n
  window_congr f g i zero h = refl
  window_congr f g i (suc n) h =
      ap₂ ◌∷◌ (h i (omega arith) (omega arith))
        (window_congr f g (suc i) n λ j a b. h j (omega arith) (omega arith))

  -- One more entry at the far end.
  pub window_snoc : (f : ℕ → A) (i n : ℕ) → window f i (suc n) ≡ window f i n ++ (f (i + n) ∷ [])
  window_snoc f i zero = ap (λ j. f j ∷ []) (omega arith)
  window_snoc f i (suc n) =
      ap (λ t. f i ∷ t)
        (window_snoc f (suc i) n ∙ ap (λ j. window f (suc i) n ++ (f j ∷ [])) (omega arith))

  -- Two arrays that agree, each from an index of its own on.
  pub window_shift :
      (f g : ℕ → A) (i j n : ℕ)
      → ((d : ℕ) → d < n → f (i + d) ≡ g (j + d))
      → window f i n ≡ window g j n
  window_shift f g i j zero h = refl
  window_shift f g i j (suc n) h =
      ap₂ ◌∷◌ (ap f (omega arith) ∙ h 0 (omega arith) ∙ ap g (omega arith)) (
        window_shift f g (suc i) (suc j) n
          λ d lt. ap f (omega arith) ∙ h (suc d) (omega arith) ∙ ap g (omega arith))

  pub window_append :
      (f : ℕ → A) (i m n : ℕ) → window f i m ++ window f (i + m) n ≡ window f i (m + n)
  window_append f i zero n =
      let p : i + 0 ≡ i = omega arith in let q : 0 + n ≡ n = omega arith in rw (p, q) refl
  window_append f i (suc m) n =
      let p : i + suc m ≡ suc i + m = omega arith in
      let q : suc m + n ≡ suc (m + n) = omega arith in
      rw (p, q) (ap (λ t. f i ∷ t) (window_append f (suc i) m n))
