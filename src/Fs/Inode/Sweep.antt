-- ===== src/Fs/Inode/Sweep.antt =====
-- The freeing of a set of blocks by calls of bfree in fs.c.
use modified_xv.Base.{
  ℕ, ◌≡◌, refl, sym, ◌∙◌, false, some, ◌==◌, ==_iff, arith, inl, inr, ◌⊎◌, Option-cases,
}
use modified_xv.Fs.Blocks.{Fs, bfree}
use modified_xv.Fs.Blocks.Bitmap.{used, IsFormatted}
use modified_xv.Fs.Blocks.Alloc.{bfree_lem, Freed}
use modified_xv.Fs.Inode.Slots.{IsHeld}

-- The blocks for which `D` holds are freed, and all else stays.
pub record IsSwept (D : ℕ → Type 0) (s s' : Fs) : Type 0 where
  pub fewer : (a : ℕ) → used s a ≡ false → used s' a ≡ false
  pub gone : (a : ℕ) → D a → used s' a ≡ false
  pub others : (a : ℕ) → IsHeld s a → (D a → ⊥) → IsHeld s' a × (s'.block a ≡ s.block a)
  pub formatted : IsFormatted s'
  pub size_kept : s'.size ≡ s.size
  pub inodes_kept : s'.inodestart ≡ s.inodestart

pub IsSwept-none : (D : ℕ → Type 0) (s : Fs) → IsFormatted s → ((a : ℕ) → D a → ⊥) → IsSwept D s s
IsSwept-none D s ok empty = record {
  fewer = λ a h. h;
  gone = λ a d. absurd (empty a d);
  others = λ a h n. (h, refl);
  formatted = ok;
  size_kept = refl;
  inodes_kept = refl;
}

-- First the blocks of one set, then those of another.
pub IsSwept-trans :
    (D E : ℕ → Type 0) (s s1 s2 : Fs)
    → IsSwept D s s1
    → IsSwept E s1 s2
    → IsSwept (λ a. D a ⊎ E a) s s2
IsSwept-trans D E s s1 s2 f g = record {
  fewer = λ a h. g.fewer a (f.fewer a h);
  gone = λ a d. elim d [ inl x ↦ g.fewer a (f.gone a x) | inr x ↦ g.gone a x ];
  others = λ a h n.
      let (h1, e1) = f.others a h (λ d. n (inl d)) in
      let (h2, e2) = g.others a h1 (λ d. n (inr d)) in (h2, e2 ∙ e1);
  formatted = g.formatted;
  size_kept = g.size_kept ∙ f.size_kept;
  inodes_kept = g.inodes_kept ∙ f.inodes_kept;
}

pub IsSwept-map :
    (D E : ℕ → Type 0) (s s' : Fs)
    → ((a : ℕ) → D a → E a)
    → ((a : ℕ) → E a → D a)
    → IsSwept D s s'
    → IsSwept E s s'
IsSwept-map D E s s' f g h = record {
  fewer = h.fewer;
  gone = λ a e. h.gone a (g a e);
  others = λ a x n. h.others a x (λ d. n (f a d));
  formatted = h.formatted;
  size_kept = h.size_kept;
  inodes_kept = h.inodes_kept;
}

Freed-IsSwept : (s : Fs) (b : ℕ) (s' : Fs) → IsHeld s b → Freed s b s' → IsSwept (λ a. a ≡ b) s s'
Freed-IsSwept s b s' hb f = record {
  fewer = λ a h. f.bits a ∙ rw h (ground arith);
  gone = λ a e. f.bits a ∙ rw ((==_iff a b).1 e) refl;
  others = λ a h n.
      let ne : (a == b) ≡ false = ground (arith, n) in
      (
        record {
          small = rw f.size_kept h.small;
          taken = f.bits a ∙ rw ne h.taken;
          apart = λ c lt e. h.apart c (omega (arith, lt, f.size_kept)) (rw f.map_kept at e);
        },
        f.others a (λ e. h.apart b hb.small (sym e)),
      );
  formatted = f.formatted hb.apart;
  size_kept = f.size_kept;
  inodes_kept = f.inodes_kept;
}

-- `bfree` of a block that is held.
pub bfree-held :
    (s : Fs) (b : ℕ)
    → IsFormatted s
    → IsHeld s b
    → (s' : Fs) × (bfree b s ≡ some s') × IsSwept (λ a. a ≡ b) s s'
bfree-held s b ok hb =
    let h = bfree_lem s b ok in
    elim (Option-cases (bfree b s)) [
      | inl n ↦ let free : used s b ≡ false = rw n at h in cc (free, hb.taken)
      | inr (s', p) ↦ (s', p, Freed-IsSwept s b s' hb (rw p at h))
    ]
