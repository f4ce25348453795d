-- ===== src/Buffers/Lookup.antt =====
-- bget of bio.c.
use modified_xv.Base.{
  ℕ, suc, ◌<◌, ◌^◌, ◌≡◌, ◌≢◌, refl, sym, ap, ◌∙◌, arith, true, false, Option, none, some, List, [],
  ◌∷◌, ◌++◌, ◌==◌, ==_iff, ==_refl, if◌then◌else◌, add32, has, has-append, Bool-cases, Option-cases,
  inl, inr, some_inj,
}
use modified_xv.Buffers.{
  Buf, Bcache, is_block, is_idle, find_block, or_idle, find_idle, put_buf, bget,
}

-- No two buffers of the list hold the same block of a device.
abbrev pub IsUnique : Bcache → Type 0
IsUnique c =
    (i j : ℕ)
    → has i c.order ≡ true
    → has j c.order ≡ true
    → (c.buf i).dev ≢ 0
    → (c.buf i).dev ≡ (c.buf j).dev
    → (c.buf i).blockno ≡ (c.buf j).blockno
    → i ≡ j

find_block-some :
    (buf : ℕ → Buf) (dev blockno : ℕ) (is : List ℕ) (i : ℕ)
    → find_block buf dev blockno is ≡ some i
    → (has i is ≡ true) × (is_block dev blockno (buf i) ≡ true)
unfolding find_block
find_block-some buf dev blockno [] i h = cc h
find_block-some buf dev blockno (j ∷ js) i h = elim (Bool-cases (is_block dev blockno (buf j))) [
  | inl e ↦ let q : j ≡ i = some_inj (rw e at h) in (ground (arith, q), rw (← q) e)
  | inr e ↦ let (a, b) = find_block-some buf dev blockno js i (rw e at h) in (ground (arith, a), b)
]

find_block-none :
    (buf : ℕ → Buf) (dev blockno : ℕ) (is : List ℕ) (i : ℕ)
    → find_block buf dev blockno is ≡ none
    → has i is ≡ true
    → is_block dev blockno (buf i) ≡ false
unfolding find_block
find_block-none buf dev blockno [] i h m = cc m
find_block-none buf dev blockno (j ∷ js) i h m = elim (Bool-cases (is_block dev blockno (buf j))) [
  | inl e ↦ cc (rw e at h)
  | inr e ↦ elim (Bool-cases (j == i)) [
    | inl z ↦ rw (← (==_iff j i).0 z) e
    | inr z ↦ find_block-none buf dev blockno js i (rw e at h) (rw z at m)
  ]
]

abbrev AllBusy : (ℕ → Buf) → List ℕ → Type 0
AllBusy buf is = (i : ℕ) → has i is ≡ true → is_idle (buf i) ≡ false

-- An idle buffer with none behind it in the list.
abbrev LastIdle : (ℕ → Buf) → List ℕ → ℕ → Type 0
LastIdle buf is i =
    (before after : List ℕ) × (is ≡ before ++ (i ∷ after))
    × (is_idle (buf i) ≡ true)
    × AllBusy buf after

abbrev Idles : (ℕ → Buf) → List ℕ → Option ℕ → Type 0
Idles buf is (some i) = LastIdle buf is i
Idles buf is none = AllBusy buf is

one_more :
    (buf : ℕ → Buf) (j : ℕ) (js : List ℕ) (r : Option ℕ)
    → Idles buf js r
    → Idles buf (j ∷ js) (or_idle (buf j) j r)
unfolding or_idle
one_more buf j js (some i) (before, after, eq, e, busy) =
    (j ∷ before, after, ap (λ t. j ∷ t) eq, e, busy)
one_more buf j js none busy = elim (Bool-cases (is_idle (buf j))) [
  | inl e ↦ rw e ([], js, refl, e, busy)
  | inr e ↦ rw e (λ i m. elim (Bool-cases (j == i)) [
    | inl z ↦ rw (← (==_iff j i).0 z) e
    | inr z ↦ busy i (rw z at m)
  ])
]

find_idle_lem : (buf : ℕ → Buf) (is : List ℕ) → Idles buf is (find_idle buf is)
unfolding find_idle
find_idle_lem buf [] = λ i m. cc m
find_idle_lem buf (j ∷ js) = one_more buf j js (find_idle buf js) (find_idle_lem buf js)

-- What `bget` does when it gives buffer `i`.
pub record IsGot (dev blockno : ℕ) (c : Bcache) (i : ℕ) (c' : Bcache) : Type 0 where
  pub listed : has i c.order ≡ true
  pub device : (c'.buf i).dev ≡ dev
  pub number : (c'.buf i).blockno ≡ blockno
  pub order_kept : c'.order ≡ c.order
  pub others : (j : ℕ) → j ≢ i → c'.buf j ≡ c.buf j
  pub unique : IsUnique c'
  pub origin :
      if is_block dev blockno (c.buf i)
      then c'.buf i ≡ record (c.buf i) { refcnt = suc (c.buf i).refcnt }
      else LastIdle c.buf c.order i × ((c'.buf i).refcnt ≡ 1) × ((c'.buf i).valid ≡ false)

-- The result of `bget`; it panics where no buffer holds the block and none is idle.
abbrev pub Gets : ℕ → ℕ → Bcache → Option (ℕ × Bcache) → Type 0
Gets dev blockno c (some (i, c')) = IsGot dev blockno c i c'
Gets dev blockno c none =
    (j : ℕ)
    → has j c.order ≡ true
    → (is_block dev blockno (c.buf j) ≡ false) × (is_idle (c.buf j) ≡ false)

-- A buffer with another content that clashes with no other one.
IsUnique-put_buf :
    (c : Bcache) (i : ℕ) (b : Buf)
    → IsUnique c
    → ((j : ℕ)
        → has j c.order ≡ true
        → j ≢ i
        → b.dev ≢ 0
        → b.dev ≡ (c.buf j).dev
        → b.blockno ≡ (c.buf j).blockno
        → ⊥)
    → IsUnique (put_buf i b c)
IsUnique-put_buf c i b u clash j k mj mk nz d n = elim (Bool-cases (j == i)) [
  | inl x ↦ elim (Bool-cases (k == i)) [
    | inl y ↦ ground (arith, x, y)
    | inr y ↦ absurd (clash k mk (ground (arith, y)) (rw x at nz) (rw (x, y) at d) (rw (x, y) at n))
  ]
  | inr x ↦ elim (Bool-cases (k == i)) [
    | inl y ↦
        let d' : (c.buf j).dev ≡ b.dev = rw (x, y) at d in
        let nz' : (c.buf j).dev ≢ 0 = rw x at nz in
        absurd (clash j mj (ground (arith, x)) (λ z. nz' (d' ∙ z)) (sym d') (sym (rw (x, y) at n)))
    | inr y ↦ u j k mj mk (rw x at nz) (rw (x, y) at d) (rw (x, y) at n)
  ]
]

module _ (dev blockno : ℕ) (c : Bcache) (unique : IsUnique c) (some_dev : dev ≢ 0)
    (few : (i : ℕ) → (c.buf i).refcnt < 2 ^ 31) where
  in_list : (i : ℕ) → LastIdle c.buf c.order i → has i c.order ≡ true
  in_list i (before, after, eq, e, busy) =
      let h = has-append i before (i ∷ after) in
      let z = ==_refl i in ap (has i) eq ∙ ground (arith, h, z)

  hit :
      (i : ℕ)
      → has i c.order ≡ true
      → is_block dev blockno (c.buf i) ≡ true
      → IsGot dev blockno c i (put_buf i (record (c.buf i) { refcnt = add32 (c.buf i).refcnt 1 }) c)
  hit i m e =
      let d : (c.buf i).dev ≡ dev = ground (arith, e) in
      let one_more_ref : add32 (c.buf i).refcnt 1 ≡ suc (c.buf i).refcnt = omega (arith, few i) in
      record {
        listed = m;
        device = rw (==_refl i) d;
        number = rw (==_refl i) (ground (arith, e));
        order_kept = refl;
        others = λ j ne. let p : (j == i) ≡ false = ground (arith, ne) in rw p refl;
        unique =
            IsUnique-put_buf c i (record (c.buf i) { refcnt = add32 (c.buf i).refcnt 1 }) unique
              λ j mj ne nz x y. ne (sym (unique i j m mj nz x y));
        origin = rw (e, ==_refl i, one_more_ref) refl;
      }

  miss :
      (i : ℕ)
      → LastIdle c.buf c.order i
      → ((j : ℕ) → has j c.order ≡ true → is_block dev blockno (c.buf j) ≡ false)
      → IsGot dev blockno c i (
          put_buf i
            (record (c.buf i) {
              dev = dev;
              blockno = blockno;
              valid = false;
              dirty = false;
              refcnt = 1;
            })
            c)
  miss i last none_of =
      let m : has i c.order ≡ true = in_list i last in
      record {
        listed = m;
        device = rw (==_refl i) refl;
        number = rw (==_refl i) refl;
        order_kept = refl;
        others = λ j ne. let p : (j == i) ≡ false = ground (arith, ne) in rw p refl;
        unique =
            IsUnique-put_buf c i
              (record (c.buf i) {
                dev = dev;
                blockno = blockno;
                valid = false;
                dirty = false;
                refcnt = 1;
              })
              unique λ j mj ne nz x y. ground (arith, none_of j mj, x, y);
        origin = rw (none_of i m, ==_refl i) (last, refl, refl);
      }

  -- Where no two listed buffers hold the same block of a device other than 0 and the counts are
  -- below 2 ^ 31, for a device other than 0 `bget` gives a listed buffer for the block: the one
  -- that holds it, with one reference more, or else the last idle one of the list, with one
  -- reference and marked as not valid. It changes no other buffer, and again no two listed buffers
  -- hold the same block of a device other than 0. It panics only where no buffer holds the block
  -- and none is idle.
  pub bget_lem : Gets dev blockno c (bget dev blockno c)
  unfolding bget
  bget_lem = elim (Option-cases (find_block c.buf dev blockno c.order)) [
    | inr (i, e) ↦
        let (m, b) = find_block-some c.buf dev blockno c.order i e in rw (bget, e) (hit i m b)
    | inl e ↦
        let none_of : (j : ℕ) → has j c.order ≡ true → is_block dev blockno (c.buf j) ≡ false =
          λ j. find_block-none c.buf dev blockno c.order j e in
        let h = find_idle_lem c.buf c.order in
        elim (Option-cases (find_idle c.buf c.order)) [
          | inl z ↦
              let busy : AllBusy c.buf c.order = rw z at h in
              rw (bget, e, z) (λ j m. (none_of j m, busy j m))
          | inr (i, z) ↦
              let last : LastIdle c.buf c.order i = rw z at h in
              rw (bget, e, z) (miss i last none_of)
        ]
  ]
