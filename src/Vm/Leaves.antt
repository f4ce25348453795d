-- ===== src/Vm/Leaves.antt =====
-- A round of mappages of vm.c: one more entry of the map.
use modified_xv.Base.{
  ℕ, suc, ◌+◌, ◌-◌, ◌*◌, ◌/◌, ◌%◌, ◌^◌, ◌≤◌, ◌<◌, ◌≡◌, refl, sym, ap, ◌∙◌, arith, Bool, true, false,
  ◌&&◌, ◌⊎◌, inl, inr, Option, none, some, [], ◌∷◌, ◌==◌, ltb, leb, if◌then◌else◌, has, Bool-cases,
}
use modified_xv.Fs.Bytes.{get_le, put_le}
use modified_xv.Vm.{Vm, pdx, ptx, is_present, leaf, set_leaf}
use modified_xv.Vm.Space.{
  IsTable, IsTable-same, dir_entry, pages_apart, table, pte, IsPrivate, IsSpace, IsPrivate-same,
  Within-put_le,
}
use modified_xv.Vm.Entries.{dir_entry-set, pte-set, IsSpace-set}
use modified_xv.Vm.Walk.{IsWalked, Walks}

-- The entries `f` with `n` pages from address `a` on mapped to the pages from `pa` on.
abbrev pub mapped : (ℕ → ℕ) → ℕ → ℕ → ℕ → ℕ → ℕ → ℕ
mapped f a n pa perm x =
    if leb (a / 4096) (x / 4096) && ltb (x / 4096) (a / 4096 + n)
    then leaf (pa + 4096 * (x / 4096 - a / 4096)) perm
    else f x

-- The first `n` pages of a range are mapped, and nothing else has changed but that free pages may
-- have become page tables.
pub record IsMapped (pgdir a n pa perm : ℕ) (v v' : Vm) : Type 0 where
  pub space : IsSpace pgdir v'
  -- Where no page is mapped nothing has changed.
  pub start : ((n ≡ 0) × (v' ≡ v)) ⊎ (0 < n)
  pub entries : (x : ℕ) → x < 2 ^ 32 → pte v'.mem pgdir x ≡ mapped (pte v.mem pgdir) a n pa perm x
  pub bounds_kept : v'.bounds ≡ v.bounds
  pub fewer : (p : ℕ) → has p v'.free ≡ true → has p v.free ≡ true
  pub accounted : (p : ℕ) → has p v.free ≡ true → (has p v'.free ≡ true) ⊎ IsTable v'.mem pgdir p
  pub tables_stay : (p : ℕ) → IsTable v.mem pgdir p → IsTable v'.mem pgdir p
  pub private_kept :
      (p : ℕ) → IsPrivate v.mem pgdir p → has p v.free ≡ false → IsPrivate v'.mem pgdir p
  pub others :
      (q o : ℕ)
      → IsPrivate v.mem pgdir q
      → q % 4096 ≡ 0
      → has q v.free ≡ false
      → q ≤ o
      → o < q + 4096
      → v'.mem o ≡ v.mem o

fewer-taken :
    (v v' : Vm)
    → (v'.free ≡ v.free) ⊎ ((t : ℕ) × (v.free ≡ t ∷ v'.free))
    → (p : ℕ) → has p v'.free ≡ true
    → has p v.free ≡ true
fewer-taken v v' (inl e) p h = ap (has p) (sym e) ∙ h
fewer-taken v v' (inr (t, e)) p h = ap (has p) e ∙ ground (arith, h)

module _ (pgdir : ℕ) where
  -- The entry of one page, set after the walk.
  entry_set :
      (a pa perm at : ℕ) (v v1 : Vm)
      → a < 2 ^ 32
      → leaf pa perm < 2 ^ 32
      → IsWalked pgdir a v at v1
      → IsMapped pgdir a 1 pa perm v (record v1 { mem = put_le 4 v1.mem at (leaf pa perm) })
  entry_set a pa perm at v v1 lt small w = rw (w.place) record {
    space = IsSpace-set pgdir a (leaf pa perm) v1 w.space lt small w.there;
    start = inr (omega arith);
    entries = λ x l.
        pte-set pgdir a (leaf pa perm) v1 w.space lt small w.there x l ∙ one_page x (w.entries x);
    bounds_kept = w.bounds_kept;
    fewer = fewer-taken v v1 w.taken;
    accounted = λ p h. elim (w.accounted p h) [
      | inl z ↦ inl z
      | inr z ↦ inr (
          IsTable-same pgdir v1.mem _
            (dir_entry-set pgdir a (leaf pa perm) v1 w.space lt small w.there) p z)
    ];
    tables_stay = λ p t.
        IsTable-same pgdir v1.mem _
          (dir_entry-set pgdir a (leaf pa perm) v1 w.space lt small w.there) p (w.tables_stay p t);
    private_kept = λ p h out.
        IsPrivate-same pgdir v1.mem _
          (dir_entry-set pgdir a (leaf pa perm) v1 w.space lt small w.there) p
          (w.private_kept p h out);
    others = λ q o h a' out x y.
        Within-put_le (table v1.mem pgdir (pdx a)) (ptx a) (leaf pa perm) v1.mem (omega arith) o
          (elim (pages_apart q (table v1.mem pgdir (pdx a)) a' (omega arith)
            ((w.private_kept q h out).not_table (pdx a) (omega arith) w.there)) [
              | inl z ↦ inl (omega (arith, z, y))
              | inr z ↦ inr (omega (arith, z, x))
            ])
        ∙ w.others q o h a' out x y;
  }
    where
      one_page :
          (x : ℕ)
          → pte v1.mem pgdir x ≡ pte v.mem pgdir x
          → (if x / 4096 == a / 4096 then leaf pa perm else pte v1.mem pgdir x)
            ≡ mapped (pte v.mem pgdir) a 1 pa perm x
      one_page x e = elim (Bool-cases (x / 4096 == a / 4096)) [
        | inl q ↦
            let t : (leb (a / 4096) (x / 4096) && ltb (x / 4096) (a / 4096 + 1)) ≡ true =
              ground (arith, q) in
            let z : pa + 4096 * (x / 4096 - a / 4096) ≡ pa = ground (arith, q) in rw (q, t, z) refl
        | inr q ↦
            let t : (leb (a / 4096) (x / 4096) && ltb (x / 4096) (a / 4096 + 1)) ≡ false =
              ground (arith, q) in
            rw (q, t) e
      ]

  abbrev pub MapsPage : ℕ → ℕ → ℕ → Vm → Option (Bool × Vm) → Type 0
  MapsPage a pa perm v none = is_present (pte v.mem pgdir a) ≡ true
  MapsPage a pa perm v (some (false, v')) =
      (v' ≡ v) × (v.free ≡ []) × (is_present (dir_entry v.mem pgdir (pdx a)) ≡ false)
  MapsPage a pa perm v (some (true, v')) = IsMapped pgdir a 1 pa perm v v'

  pub set_leaf_lem :
      (a pa perm : ℕ) (v : Vm) (r : Option ℕ × Vm)
      → Walks pgdir a v r
      → a < 2 ^ 32
      → leaf pa perm < 2 ^ 32
      → MapsPage a pa perm v (set_leaf pa perm r)
  unfolding set_leaf
  set_leaf_lem a pa perm v (none, v1) (same, none_free, gone) lt small = (same, none_free, gone)
  set_leaf_lem a pa perm v (some at, v1) w lt small =
      let e : pte v1.mem pgdir a ≡ get_le 4 v1.mem at = rw (w.there, w.place) refl in
      elim (Bool-cases (is_present (get_le 4 v1.mem at))) [
        | inl p ↦ rw p (rw (sym (w.entries a), e) p)
        | inr p ↦ rw p (entry_set a pa perm at v v1 lt small w)
      ]

  mapped_none : (f : ℕ → ℕ) (a pa perm x : ℕ) → mapped f a 0 pa perm x ≡ f x
  mapped_none f a pa perm x =
      let t : (leb (a / 4096) (x / 4096) && ltb (x / 4096) (a / 4096 + 0)) ≡ false = ground arith in
      rw t refl

  mapped_more :
      (f g : ℕ → ℕ) (a n pa perm x : ℕ)
      → g x ≡ mapped f a 1 pa perm x
      → mapped g (a + 4096) n (pa + 4096) perm x ≡ mapped f a (suc n) pa perm x
  mapped_more f g a n pa perm x e =
      let q : (a + 4096) / 4096 ≡ a / 4096 + 1 = omega arith in
      elim (Bool-cases (leb (a / 4096 + 1) (x / 4096) && ltb (x / 4096) (a / 4096 + 1 + n))) [
        | inl t ↦
            let t' : (leb (a / 4096) (x / 4096) && ltb (x / 4096) (a / 4096 + suc n)) ≡ true =
              ground (arith, t) in
            let z : pa + 4096 + 4096 * (x / 4096 - (a / 4096 + 1))
                ≡ pa + 4096 * (x / 4096 - a / 4096) =
              ground (arith, t) in
            rw (q, t, t', z) refl
        | inr t ↦ elim (Bool-cases (x / 4096 == a / 4096)) [
          | inl y ↦
              let t1 : (leb (a / 4096) (x / 4096) && ltb (x / 4096) (a / 4096 + 1)) ≡ true =
                ground (arith, y) in
              let t' : (leb (a / 4096) (x / 4096) && ltb (x / 4096) (a / 4096 + suc n)) ≡ true =
                ground (arith, y) in
              rw (q, t, t') (e ∙ rw t1 refl)
          | inr y ↦
              let t1 : (leb (a / 4096) (x / 4096) && ltb (x / 4096) (a / 4096 + 1)) ≡ false =
                ground (arith, y) in
              let t' : (leb (a / 4096) (x / 4096) && ltb (x / 4096) (a / 4096 + suc n)) ≡ false =
                ground (arith, t, y) in
              rw (q, t, t') (e ∙ rw t1 refl)
        ]
      ]

  pub IsMapped-more :
      (a n pa perm : ℕ) (v v1 v2 : Vm)
      → IsMapped pgdir a 1 pa perm v v1
      → IsMapped pgdir (a + 4096) n (pa + 4096) perm v1 v2
      → IsMapped pgdir a (suc n) pa perm v v2
  IsMapped-more a n pa perm v v1 v2 h g = record {
    space = g.space;
    start = inr (omega arith);
    entries = λ x l.
        g.entries x l
        ∙ mapped_more (pte v.mem pgdir) (pte v1.mem pgdir) a n pa perm x (h.entries x l);
    bounds_kept = g.bounds_kept ∙ h.bounds_kept;
    fewer = λ p m. h.fewer p (g.fewer p m);
    accounted =
        λ p m. elim (h.accounted p m) [ inl z ↦ g.accounted p z | inr z ↦ inr (g.tables_stay p z) ];
    tables_stay = λ p t. g.tables_stay p (h.tables_stay p t);
    private_kept = λ p m out. g.private_kept p (h.private_kept p m out) (still p out);
    others = λ q o m a' out x y.
        g.others q o (h.private_kept q m out) a' (still q out) x y ∙ h.others q o m a' out x y;
  }
    where
      still : (p : ℕ) → has p v.free ≡ false → has p v1.free ≡ false
      still p out = elim (Bool-cases (has p v1.free)) [
        | inl z ↦ ground (arith, h.fewer p z, out)
        | inr z ↦ z
      ]

  pub IsMapped-none : (a pa perm : ℕ) (v : Vm) → IsSpace pgdir v → IsMapped pgdir a 0 pa perm v v
  IsMapped-none a pa perm v s = record {
    space = s;
    start = inl (refl, refl);
    entries = λ x l. sym (mapped_none (pte v.mem pgdir) a pa perm x);
    bounds_kept = refl;
    fewer = λ p h. h;
    accounted = λ p h. inl h;
    tables_stay = λ p t. t;
    private_kept = λ p h out. h;
    others = λ q o h a' out x y. refl;
  }
