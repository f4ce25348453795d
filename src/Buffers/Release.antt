-- ===== src/Buffers/Release.antt =====
-- brelse of bio.c.
use modified_xv.Base.{
  ℕ, suc, ◌≤◌, ◌<◌, ◌^◌, ◌≡◌, ◌≢◌, refl, sym, ap, ◌∙◌, arith, true, false, List, ◌∷◌, ◌==◌, ==_iff,
  ==_refl, if◌then◌else◌, sub32, has, erase, has-erase_ne, Bool-cases, inl, inr,
}
use modified_xv.Buffers.{Bcache, brelse, put_buf}
use modified_xv.Buffers.Lookup.{IsUnique}

has-to_front : (i j : ℕ) (xs : List ℕ) → has i xs ≡ true → has j (i ∷ erase i xs) ≡ has j xs
has-to_front i j xs m = elim (Bool-cases (i == j)) [
  | inl e ↦ let q = (==_iff i j).0 e in rw e (sym (rw q at m))
  | inr e ↦ rw e (has-erase_ne i j xs e)
]

-- What `brelse` of buffer `i` does.
pub record IsReleased (i : ℕ) (c c' : Bcache) : Type 0 where
  pub counted : suc (c'.buf i).refcnt ≡ (c.buf i).refcnt
  pub members : (j : ℕ) → has j c'.order ≡ has j c.order
  pub others : (j : ℕ) → j ≢ i → c'.buf j ≡ c.buf j
  pub device : (j : ℕ) → (c'.buf j).dev ≡ (c.buf j).dev
  pub number : (j : ℕ) → (c'.buf j).blockno ≡ (c.buf j).blockno
  pub place : c'.order ≡ (if (c.buf i).refcnt == 1 then i ∷ erase i c.order else c.order)

device_kept :
    (i j r : ℕ) (c : Bcache)
    → ((put_buf i (record (c.buf i) { refcnt = r }) c).buf j).dev ≡ (c.buf j).dev
device_kept i j r c = elim (Bool-cases (j == i)) [
  | inl e ↦ rw e (ap (λ x. (c.buf x).dev) (sym ((==_iff j i).0 e)))
  | inr e ↦ rw e refl
]

number_kept :
    (i j r : ℕ) (c : Bcache)
    → ((put_buf i (record (c.buf i) { refcnt = r }) c).buf j).blockno ≡ (c.buf j).blockno
number_kept i j r c = elim (Bool-cases (j == i)) [
  | inl e ↦ rw e (ap (λ x. (c.buf x).blockno) (sym ((==_iff j i).0 e)))
  | inr e ↦ rw e refl
]

-- For a listed buffer with a reference, `brelse` takes one off and changes no other buffer; the
-- buffer keeps its block, and the list has the same members. With the last reference the buffer
-- comes to the front of the list, and else the list stays as it is.
pub brelse_lem :
    (i : ℕ) (c : Bcache)
    → has i c.order ≡ true
    → 1 ≤ (c.buf i).refcnt
    → (c.buf i).refcnt < 2 ^ 32
    → IsReleased i c (brelse i c)
unfolding brelse
brelse_lem i c m pos lt = elim (Bool-cases (sub32 (c.buf i).refcnt 1 == 0)) [
  | inl e ↦
      let o : ((c.buf i).refcnt == 1) ≡ true = ground (arith, e, pos, lt) in
      rw (brelse, ==_refl i, e)
        record {
          counted = rw (==_refl i) (omega (arith, pos, lt));
          members = λ j. has-to_front i j c.order m;
          others = λ j ne. let p : (j == i) ≡ false = ground (arith, ne) in rw p refl;
          device = λ j. device_kept i j (sub32 (c.buf i).refcnt 1) c;
          number = λ j. number_kept i j (sub32 (c.buf i).refcnt 1) c;
          place = rw o refl;
        }
  | inr e ↦
      let o : ((c.buf i).refcnt == 1) ≡ false = ground (arith, e, pos, lt) in
      rw (brelse, ==_refl i, e)
        record {
          counted = rw (==_refl i) (omega (arith, pos, lt));
          members = λ j. refl;
          others = λ j ne. let p : (j == i) ≡ false = ground (arith, ne) in rw p refl;
          device = λ j. device_kept i j (sub32 (c.buf i).refcnt 1) c;
          number = λ j. number_kept i j (sub32 (c.buf i).refcnt 1) c;
          place = rw o refl;
        }
]

-- `brelse` keeps one buffer for each block.
pub brelse-IsUnique :
    (i : ℕ) (c : Bcache)
    → has i c.order ≡ true
    → 1 ≤ (c.buf i).refcnt
    → (c.buf i).refcnt < 2 ^ 32
    → IsUnique c
    → IsUnique (brelse i c)
brelse-IsUnique i c m pos lt u j k mj mk nz d n =
    let r = brelse_lem i c m pos lt in
    u j k (sym (r.members j) ∙ mj) (sym (r.members k) ∙ mk) (λ z. nz (r.device j ∙ z))
      (sym (r.device j) ∙ d ∙ r.device k) (sym (r.number j) ∙ n ∙ r.number k)
