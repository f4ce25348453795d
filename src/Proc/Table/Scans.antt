-- ===== src/Proc/Table/Scans.antt =====
-- What the scans find, and the invariant rule of the loops over the table.
use modified_xv.Base.{
  ℕ, zero, suc, ◌+◌, ◌≤◌, ◌<◌, ◌≡◌, none, some, Bool, true, false, arith, Bool-cases, inl, inr,
  ==_iff, ◌==◌, ltb, ltb→lt,
}
use mathlib.Core.Path.{subst}
use modified_xv.Proc.Table.{scan, each}

pub record First (test : ℕ → Bool) (i left j : ℕ) : Type 0 where
  pub from : i ≤ j
  pub below : j < i + left
  pub hit : test j ≡ true
  pub before : (m : ℕ) → i ≤ m → m < j → test m ≡ false

First-here : (test : ℕ → Bool) (i left : ℕ) → test i ≡ true → First test i (suc left) i
First-here test i left e = record {
  from = omega arith;
  below = omega arith;
  hit = e;
  before = λ m a b. absurd (omega arith);
}

First-next :
    (test : ℕ → Bool) (i left j : ℕ)
    → test i ≡ false
    → First test (suc i) left j
    → First test i (suc left) j
First-next test i left j e f = record {
  from = omega (arith, f.from);
  below = omega (arith, f.below);
  hit = f.hit;
  before = λ m a b. ground (arith, f.before m);
}

-- The scan stops at the first index that passes.
pub scan-some : (test : ℕ → Bool) (i left j : ℕ) → scan test i left ≡ some j → First test i left j
unfolding scan
scan-some test i zero j h = absurd (ground arith)
scan-some test i (suc left) j h = elim (Bool-cases (test i)) [
  | inl e ↦
      let p : i ≡ j = ground arith in subst (First test i (suc left)) p (First-here test i left e)
  | inr e ↦ First-next test i left j e (scan-some test (suc i) left j (rw e at h))
]

pub scan-none :
    (test : ℕ → Bool) (i left : ℕ)
    → scan test i left ≡ none
    → (m : ℕ) → i ≤ m
    → m < i + left
    → test m ≡ false
unfolding scan
scan-none test i zero h m a b = absurd (omega arith)
scan-none test i (suc left) h m a b = elim (Bool-cases (test i)) [
  | inl e ↦ absurd (ground arith)
  | inr e ↦ elim (Bool-cases (m == i)) [
    | inl c ↦ rw ((==_iff m i).0 c) e
    | inr c ↦ scan-none test (suc i) left (rw e at h) m (ground arith) (omega arith)
  ]
]

pub each_inv {ℓ κ} :
    {S : Type ℓ} (P : S → Type κ) (body : ℕ → S → S) (n : ℕ)
    → ((i : ℕ) (s : S) → i < n → P s → P (body i s))
    → (i left : ℕ) (s : S) → i + left ≤ n
    → P s
    → P (each body i left s)
unfolding each
each_inv P body n keep i zero s h p = p
each_inv P body n keep i (suc left) s h p =
    each_inv P body n keep (suc i) left (body i s) (omega arith) (keep i s (omega arith) p)

-- The index found is the least that passes.
pub First-le :
    {test : ℕ → Bool} {i left j : ℕ} (m : ℕ) → First test i left j → i ≤ m → test m ≡ true → j ≤ m
First-le {j} m f a h = elim (Bool-cases (ltb m j)) [
  | inl e ↦ cc (h, f.before m a (ltb→lt m j e))
  | inr e ↦ ground arith
]
