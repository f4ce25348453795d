-- ===== src/Vm/Space.antt =====
-- The page directory and the page tables of vm.c as a map from user pages to entries.
use modified_xv.Base.{
  ap, ℕ, ◌+◌, ◌*◌, ◌%◌, ◌≤◌, ◌<◌, ◌≡◌, ◌≢◌, refl, ◌∙◌, arith, true, false, ◌⊎◌, inl, inr, ltb, leb,
  if◌then◌else◌, add32, has, NoDup, Bool-cases,
}
use modified_xv.Fs.Bytes.{get_le, put_le, put_le-outside, get_le-congr}
use modified_xv.Memory.{Bounds, kernbase, phystop, is_page}
use modified_xv.Vm.{Vm, pdx, ptx, is_present, pte_addr, fill}

abbrev pub dir_entry : (ℕ → ℕ) → ℕ → ℕ → ℕ
dir_entry m pgdir d = get_le 4 m (pgdir + 4 * d)

abbrev pub table : (ℕ → ℕ) → ℕ → ℕ → ℕ
table m pgdir d = pte_addr (dir_entry m pgdir d)

-- The entry for a user address, 0 where there is no page table.
abbrev pub pte : (ℕ → ℕ) → ℕ → ℕ → ℕ
pte m pgdir va =
    if is_present (dir_entry m pgdir (pdx va))
    then get_le 4 m (table m pgdir (pdx va) + 4 * ptx va)
    else 0

-- A page that `kalloc` may give.
pub record IsFrame (b : Bounds) (p : ℕ) : Type 0 where
  pub whole : p % 4096 ≡ 0
  pub low : p < phystop
  pub some_page : p ≢ 0
  pub page : is_page b (add32 p kernbase) ≡ true

-- A page that holds a page table.
abbrev pub IsTable : (ℕ → ℕ) → ℕ → ℕ → Type 0
IsTable m pgdir p =
    (d : ℕ) × (d < 1024) × (is_present (dir_entry m pgdir d) ≡ true) × (table m pgdir d ≡ p)

-- A page that holds neither the directory nor a page table.
pub record IsPrivate (m : ℕ → ℕ) (pgdir p : ℕ) : Type 0 where
  pub not_dir : p ≢ pgdir
  pub not_table : (d : ℕ) → d < 1024 → is_present (dir_entry m pgdir d) ≡ true → p ≢ table m pgdir d

-- The directory and its page tables are pages of their own, and no free ones.
pub record IsSpace (pgdir : ℕ) (v : Vm) : Type 0 where
  pub whole : pgdir % 4096 ≡ 0
  pub apart :
      (d : ℕ) → d < 1024 → is_present (dir_entry v.mem pgdir d) ≡ true → table v.mem pgdir d ≢ pgdir
  pub distinct :
      (d e : ℕ)
      → d < 1024
      → e < 1024
      → is_present (dir_entry v.mem pgdir d) ≡ true
      → is_present (dir_entry v.mem pgdir e) ≡ true
      → table v.mem pgdir d ≡ table v.mem pgdir e
      → d ≡ e
  pub free_frame : (p : ℕ) → has p v.free ≡ true → IsFrame v.bounds p
  pub free_private : (p : ℕ) → has p v.free ≡ true → IsPrivate v.mem pgdir p
  pub nodup : NoDup v.free

-- A change of memory within the page at `q`.
abbrev pub Within : ℕ → (ℕ → ℕ) → (ℕ → ℕ) → Type 0
Within q m m' = (o : ℕ) → (o < q) ⊎ (q + 4096 ≤ o) → m' o ≡ m o

pub pages_apart : (p q : ℕ) → p % 4096 ≡ 0 → q % 4096 ≡ 0 → p ≢ q → (p + 4096 ≤ q) ⊎ (q + 4096 ≤ p)
pages_apart p q a b ne = elim (Bool-cases (ltb p q)) [
  | inl e ↦ let lt : p < q = ground (arith, e) in inl (omega (arith, lt, a, b))
  | inr e ↦
      let le : q ≤ p = ground (arith, e) in
      let lt : q < p = ground (arith, le, ne) in inr (omega (arith, lt, a, b))
]

pub read_apart :
    (m m' : ℕ → ℕ) (q base i : ℕ)
    → base % 4096 ≡ 0
    → q % 4096 ≡ 0
    → q ≢ base
    → i < 1024
    → Within q m m'
    → get_le 4 m' (base + 4 * i) ≡ get_le 4 m (base + 4 * i)
read_apart m m' q base i a b ne lt same = get_le-congr 4 m' m (base + 4 * i) λ o x y.
    elim (pages_apart q base b a ne) [
      | inl h ↦ same o (inr (omega (arith, h, x)))
      | inr h ↦ same o (inl (omega (arith, h, y, lt)))
    ]

pub Within-fill : (q c : ℕ) (m : ℕ → ℕ) → Within q m (fill q c m)
Within-fill q c m o (inl x) = let p : leb q o ≡ false = ground (arith, x) in rw p refl
Within-fill q c m o (inr x) =
    let p : ltb o (q + 4096) ≡ false = ground (arith, x) in ground (arith, p)

pub Within-put_le :
    (base i w : ℕ) (m : ℕ → ℕ) → i < 1024 → Within base m (put_le 4 m (base + 4 * i) w)
Within-put_le base i w m lt o (inl x) =
    put_le-outside 4 m (base + 4 * i) w o (inl (omega (arith, x)))
Within-put_le base i w m lt o (inr x) =
    put_le-outside 4 m (base + 4 * i) w o (inr (omega (arith, x, lt)))

pub Within-trans : (q : ℕ) (m1 m2 m3 : ℕ → ℕ) → Within q m1 m2 → Within q m2 m3 → Within q m1 m3
Within-trans q m1 m2 m3 f g o h = g o h ∙ f o h

-- A change in a page that is neither the directory nor a table leaves all entries.
module _ (pgdir q : ℕ) (m m' : ℕ → ℕ) (whole : pgdir % 4096 ≡ 0) (whole_q : q % 4096 ≡ 0)
    (own : IsPrivate m pgdir q) (same : Within q m m') where
  pub dir_entry-private : (d : ℕ) → d < 1024 → dir_entry m' pgdir d ≡ dir_entry m pgdir d
  dir_entry-private d lt = read_apart m m' q pgdir d whole whole_q own.not_dir lt same

  pub pte-private : (va : ℕ) → pte m' pgdir va ≡ pte m pgdir va
  pte-private va =
      let e = dir_entry-private (pdx va) (omega arith) in
      elim (Bool-cases (is_present (dir_entry m pgdir (pdx va)))) [
        | inr p ↦ rw (e, p) refl
        | inl p ↦
            rw (e, p)
              (read_apart m m' q (table m pgdir (pdx va)) (ptx va) (omega arith) whole_q
                (own.not_table (pdx va) (omega arith) p) (omega arith) same)
      ]

-- The same directory entries, and other free pages.
module _ (pgdir : ℕ) (m m' : ℕ → ℕ)
    (same : (d : ℕ) → d < 1024 → dir_entry m' pgdir d ≡ dir_entry m pgdir d) where
  pub IsPrivate-same : (r : ℕ) → IsPrivate m pgdir r → IsPrivate m' pgdir r
  IsPrivate-same r h = record {
    not_dir = h.not_dir;
    not_table = λ d lt p. rw (same d lt) (h.not_table d lt (rw (same d lt) at p));
  }

pub IsTable-same :
    (pgdir : ℕ) (m m' : ℕ → ℕ)
    → ((d : ℕ) → d < 1024 → dir_entry m' pgdir d ≡ dir_entry m pgdir d)
    → (p : ℕ) → IsTable m pgdir p
    → IsTable m' pgdir p
IsTable-same pgdir m m' same p (d, lt, q, t) =
    (d, lt, ap is_present (same d lt) ∙ q, ap pte_addr (same d lt) ∙ t)

pub IsSpace-same :
    (pgdir : ℕ) (v v' : Vm)
    → ((d : ℕ) → d < 1024 → dir_entry v'.mem pgdir d ≡ dir_entry v.mem pgdir d)
    → IsSpace pgdir v
    → ((p : ℕ) → has p v'.free ≡ true → IsFrame v'.bounds p × IsPrivate v.mem pgdir p)
    → NoDup v'.free
    → IsSpace pgdir v'
IsSpace-same pgdir v v' e s free nodup = record {
  whole = s.whole;
  apart = λ d lt p. rw (e d lt) (s.apart d lt (rw (e d lt) at p));
  distinct = λ d c lt lt' p p' t.
      s.distinct d c lt lt' (rw (e d lt) at p) (rw (e c lt') at p') (rw (e d lt, e c lt') at t);
  free_frame = λ p h. (free p h).0;
  free_private = λ p h. IsPrivate-same pgdir v.mem v'.mem e p (free p h).1;
  nodup = nodup;
}
