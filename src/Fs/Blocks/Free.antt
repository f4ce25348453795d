-- ===== src/Fs/Blocks/Free.antt =====
-- The number of blocks that the bitmap of fs.c shows as free.
use modified_xv.Base.{
  ℕ, zero, suc, ◌+◌, ◌<◌, ◌≡◌, refl, sym, ap, ◌∙◌, true, false, ◌||◌, arith, ◌==◌, ==_iff,
  if◌then◌else◌, Bool-cases, inl, inr,
}
use modified_xv.Fs.Blocks.{Fs}
use modified_xv.Fs.Blocks.Bitmap.{used}

-- The free blocks below `n`.
unfoldable pub free_below : Fs → ℕ → ℕ
free_below s zero = 0
free_below s (suc n) = (if used s n then 0 else 1) + free_below s n

abbrev pub free_blocks : Fs → ℕ
free_blocks s = free_below s s.size

free_below-full : (s : Fs) (n : ℕ) → ((a : ℕ) → a < n → used s a ≡ true) → free_below s n ≡ 0
unfolding free_below
free_below-full s zero h = refl
free_below-full s (suc n) h =
    rw (h n (omega arith), free_below-full s n (λ a lt. h a (omega arith))) refl

free_below-same :
    (s s' : Fs) (n : ℕ)
    → ((a : ℕ) → a < n → used s' a ≡ used s a)
    → free_below s' n ≡ free_below s n
unfolding free_below
free_below-same s s' zero h = refl
free_below-same s s' (suc n) h =
    rw (h n (omega arith), free_below-same s s' n (λ a lt. h a (omega arith))) refl

free_below-take :
    (s s' : Fs) (b n : ℕ)
    → b < n
    → used s b ≡ false
    → ((a : ℕ) → a < n → used s' a ≡ (a == b || used s a))
    → free_below s n ≡ suc (free_below s' n)
unfolding free_below
free_below-take s s' b zero lt free h = absurd (omega arith)
free_below-take s s' b (suc n) lt free h =
    let top = h n (omega arith) in
    elim (Bool-cases (n == b)) [
      | inl e ↦
          let old : used s n ≡ false = ap (used s) ((==_iff n b).0 e) ∙ free in
          let rest =
            free_below-same s s' n
              (λ a l. let ne : (a == b) ≡ false = ground arith in h a (omega arith) ∙ rw ne refl) in
          rw (old, top, e, rest) (omega arith)
      | inr e ↦
          let ih = free_below-take s s' b n (ground arith) free (λ a l. h a (omega arith)) in
          rw (top, e, ih) (omega arith)
    ]

pub free_blocks-full : (s : Fs) → ((a : ℕ) → a < s.size → used s a ≡ true) → free_blocks s ≡ 0
free_blocks-full s h = free_below-full s s.size h

-- A block taken is one free block less.
pub free_blocks-take :
    (s s' : Fs) (b : ℕ)
    → b < s.size
    → s'.size ≡ s.size
    → used s b ≡ false
    → ((a : ℕ) → a < s.size → used s' a ≡ (a == b || used s a))
    → free_blocks s ≡ suc (free_blocks s')
free_blocks-take s s' b lt same free h =
    free_below-take s s' b s.size lt free h ∙ ap (λ n. suc (free_below s' n)) (sym same)

pub free_blocks-same :
    (s s' : Fs)
    → s'.size ≡ s.size
    → ((a : ℕ) → a < s.size → used s' a ≡ used s a)
    → free_blocks s' ≡ free_blocks s
free_blocks-same s s' same h = ap (free_below s') same ∙ free_below-same s s' s.size h
