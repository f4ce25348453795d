-- ===== src/Fs/Bytes.antt =====
-- Little-endian numbers in an array of bytes, as the structures of fs.h lie on the disk.
use modified_xv.Base.{
  ℕ, zero, suc, ◌+◌, ◌*◌, ◌/◌, ◌%◌, ◌^◌, ◌≤◌, ◌<◌, ◌≡◌, refl, ◌∙◌, ◌⊎◌, inl, inr, arith, ◌==◌,
  false, update, Bool-cases, ==_refl,
}
use native.Mathlib.Nat.{pow-suc}

-- The number in the `w` bytes from `off` on.
unfoldable pub get_le : ℕ → (ℕ → ℕ) → ℕ → ℕ
get_le zero f off = 0
get_le (suc w) f off = f off + 256 * get_le w f (suc off)

-- The storing of a number in the `w` bytes from `off` on.
pub put_le : ℕ → (ℕ → ℕ) → ℕ → ℕ → ℕ → ℕ
put_le zero f off v = f
put_le (suc w) f off v = put_le w (update f off (v % 256)) (suc off) (v / 256)

pub put_le-outside :
    (w : ℕ) (f : ℕ → ℕ) (off v o : ℕ) → (o < off) ⊎ (off + w ≤ o) → put_le w f off v o ≡ f o
unfolding put_le
put_le-outside zero f off v o h = refl
put_le-outside (suc w) f off v o h =
    let ne : (o == off) ≡ false = elim h [
      | inl x ↦ ground (arith, x)
      | inr x ↦ ground (arith, x)
    ] in
    put_le-outside w (update f off (v % 256)) (suc off) (v / 256) o
      (elim h [ inl x ↦ inl (omega (arith, x)) | inr x ↦ inr (omega (arith, x)) ])
    ∙ rw ne refl

pub put_le-bytes :
    (w : ℕ) (f : ℕ → ℕ) (off v : ℕ) → ((o : ℕ) → f o < 256) → (o : ℕ) → put_le w f off v o < 256
unfolding put_le
put_le-bytes zero f off v small o = small o
put_le-bytes (suc w) f off v small o =
    put_le-bytes w (update f off (v % 256)) (suc off) (v / 256)
      (λ p. elim (Bool-cases (p == off)) [ inl e ↦ rw e (omega arith) | inr e ↦ rw e (small p) ]) o

pub get_le-congr :
    (w : ℕ) (f g : ℕ → ℕ) (off : ℕ)
    → ((o : ℕ) → off ≤ o → o < off + w → f o ≡ g o)
    → get_le w f off ≡ get_le w g off
unfolding get_le
get_le-congr zero f g off h = refl
get_le-congr (suc w) f g off h =
    rw
      (
        h off (omega arith) (omega arith),
        get_le-congr w f g (suc off) (λ o a b. h o (omega arith) (omega arith)),
      )
      refl

pub get_le-put_le :
    (w : ℕ) (f : ℕ → ℕ) (off v : ℕ) → v < 256 ^ w → get_le w (put_le w f off v) off ≡ v
unfolding get_le put_le
get_le-put_le zero f off v h = omega arith
get_le-put_le (suc w) f off v h =
    let pow : 256 ^ suc w ≡ 256 ^ w * 256 = pow-suc 256 w in
    let h2 : v < 256 ^ w * 256 = rw pow at h in
    let first =
      put_le-outside w (update f off (v % 256)) (suc off) (v / 256) off (inl (omega arith)) in
    let rest = get_le-put_le w (update f off (v % 256)) (suc off) (v / 256) (omega arith) in
    rw (first, rest, ==_refl off) (omega arith)

pub get_le-put_le_other :
    (w u : ℕ) (f : ℕ → ℕ) (off v at : ℕ)
    → (at + u ≤ off) ⊎ (off + w ≤ at)
    → get_le u (put_le w f off v) at ≡ get_le u f at
get_le-put_le_other w u f off v at h = get_le-congr u (put_le w f off v) f at λ o a b.
    put_le-outside w f off v o
      (elim h [ inl x ↦ inl (omega (arith, x)) | inr x ↦ inr (omega (arith, x)) ])

pub get_le-zero : (w : ℕ) (f : ℕ → ℕ) (off : ℕ) → ((o : ℕ) → f o ≡ 0) → get_le w f off ≡ 0
unfolding get_le
get_le-zero zero f off h = refl
get_le-zero (suc w) f off h = rw (h off, get_le-zero w f (suc off) h) refl
