-- ===== src/Fs/Blocks/Bits.antt =====
-- Single bits of a byte.
use modified_xv.Base.{
  ℕ, zero, suc, ◌/◌, ◌%◌, ◌<◌, ◌≡◌, refl, ap, sym, ◌∙◌, Bool, true, false, ◌&&◌, ◌||◌, not, arith,
  ◌==◌, update, Bool-cases, inl, inr, ltb, ltb→lt, ==_iff, if◌then◌else◌,
}
use modified_xv.Fs.Blocks.{bit_at, has_bit, with_bit, without_bit}

-- No number below `n` fails the test.
passes : (ℕ → Bool) → ℕ → Bool
passes test zero = true
passes test (suc n) = if test n then passes test n else false

passes_lem : (test : ℕ → Bool) (n m : ℕ) → m < n → passes test n ≡ true → test m ≡ true
unfolding passes
passes_lem test zero m lt h = absurd (omega arith)
passes_lem test (suc n) m lt h = elim (Bool-cases (test n)) [
  | inr e ↦ cc (rw e at h)
  | inl e ↦ elim (Bool-cases (m == n)) [
    | inl z ↦ ap test ((==_iff m n).0 z) ∙ e
    | inr z ↦ passes_lem test n m (ground arith) (rw e at h)
  ]
]

-- Two answers that agree.
abbrev agree : Bool → Bool → Bool
agree a b = if a then b else not b

agree_lem : (a b : Bool) → agree a b ≡ true → a ≡ b
agree_lem true b h = sym h
agree_lem false true h = cc h
agree_lem false false h = refl

-- What setting and clearing bit `k` does to bit `j`.
abbrev good : ℕ → ℕ → ℕ → Bool
good x k j =
    agree (has_bit (with_bit x k) j) (j == k || has_bit x j)
    && agree (has_bit (without_bit x k) j) (not (j == k) && has_bit x j)
    && ltb (with_bit x k) 256
    && ltb (without_bit x k) 256

-- At each byte, each bit set or cleared, and each bit looked at.
bit_table : passes (λ x. passes (λ k. passes (good x k) 8) 8) 256 ≡ true
unfolding passes with_bit without_bit
bit_table = refl

good_lem : (x k j : ℕ) → x < 256 → k < 8 → j < 8 → good x k j ≡ true
good_lem x k j hx hk hj =
    let at_x = passes_lem (λ y. passes (λ l. passes (good y l) 8) 8) 256 x hx bit_table in
    let at_k = passes_lem (λ l. passes (good x l) 8) 8 k hk at_x in
    passes_lem (good x k) 8 j hj at_k

and_parts :
    (a b c d : Bool) → (a && b && c && d) ≡ true → (a ≡ true) × (b ≡ true) × (c ≡ true) × (d ≡ true)
and_parts a b c d h = ground arith

pub has_bit-with_bit :
    (x k j : ℕ)
    → x < 256
    → k < 8
    → j < 8
    → (has_bit (with_bit x k) j ≡ (j == k || has_bit x j)) × (with_bit x k < 256)
has_bit-with_bit x k j hx hk hj =
    let (a, b, c, d) = and_parts _ _ _ _ (good_lem x k j hx hk hj) in
    (agree_lem _ _ a, ltb→lt _ _ c)

pub has_bit-without_bit :
    (x k j : ℕ)
    → x < 256
    → k < 8
    → j < 8
    → (has_bit (without_bit x k) j ≡ (not (j == k) && has_bit x j)) × (without_bit x k < 256)
has_bit-without_bit x k j hx hk hj =
    let (a, b, c, d) = and_parts _ _ _ _ (good_lem x k j hx hk hj) in
    (agree_lem _ _ b, ltb→lt _ _ d)

-- Setting a bit of a block of bytes sets this bit only.
pub bit_at-with_bit :
    (f : ℕ → ℕ) (i j : ℕ)
    → ((o : ℕ) → f o < 256)
    → bit_at (update f (i / 8) (with_bit (f (i / 8)) (i % 8))) j ≡ (j == i || bit_at f j)
bit_at-with_bit f i j small = elim (Bool-cases (j / 8 == i / 8)) [
  | inl e ↦
      let h =
        (has_bit-with_bit (f (i / 8)) (i % 8) (j % 8) (small _) (omega arith) (omega arith)).0 in
      let same : j / 8 ≡ i / 8 = ground arith in
      let ij : (j % 8 == i % 8) ≡ (j == i) = ground (arith, same) in rw (e, h, ij, same) refl
  | inr e ↦ let ne : (j == i) ≡ false = ground arith in rw (e, ne) refl
]

-- Clearing a bit of a block of bytes clears this bit only.
pub bit_at-without_bit :
    (f : ℕ → ℕ) (i j : ℕ)
    → ((o : ℕ) → f o < 256)
    → bit_at (update f (i / 8) (without_bit (f (i / 8)) (i % 8))) j ≡ (not (j == i) && bit_at f j)
bit_at-without_bit f i j small = elim (Bool-cases (j / 8 == i / 8)) [
  | inl e ↦
      let h =
        (has_bit-without_bit (f (i / 8)) (i % 8) (j % 8) (small _) (omega arith) (omega arith)).0 in
      let same : j / 8 ≡ i / 8 = ground arith in
      let ij : (j % 8 == i % 8) ≡ (j == i) = ground (arith, same) in rw (e, h, ij, same) refl
  | inr e ↦ let ne : (j == i) ≡ false = ground arith in rw (e, ne) refl
]
