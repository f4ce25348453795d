-- ===== src/Vm/Grow.antt =====
-- allocuvm of vm.c: the invariant of its loop, over a round that maps a new page.
use modified_xv.Base.{
  ℕ, ◌+◌, ◌-◌, ◌*◌, ◌/◌, ◌%◌, ◌^◌, ◌≤◌, ◌<◌, ◌≡◌, ◌≢◌, refl, sym, ap, ◌∙◌, arith, true, false, ◌&&◌,
  ◌⊎◌, inl, inr, List, ◌∷◌, ◌==◌, ==_iff, ==_refl, ltb, leb, has, NoDup, Bool-cases,
}
use modified_xv.Vm.{Vm, is_present, pte_addr, fill}
use modified_xv.Vm.Space.{
  IsTable, IsTable-same, dir_entry, pte, IsFrame, IsPrivate, IsSpace, IsSpace-same, IsPrivate-same,
  Within-fill, pages_apart, dir_entry-private, pte-private,
}
use modified_xv.Vm.Leaves.{IsMapped}
use modified_xv.Vm.Ranges.{IsUsed, in_range, is_mapped, frame_of, IsBacked}

-- The pages of a range are mapped, each to a zeroed page of its own that was free, for a user who
-- may write; nothing else has changed but that free pages may have become page tables.
pub record IsGrown (pgdir lo hi : ℕ) (v v' : Vm) : Type 0 where
  pub space : IsSpace pgdir v'
  pub bounds_kept : v'.bounds ≡ v.bounds
  pub outside :
      (x : ℕ) → x < 2 ^ 32 → in_range lo hi x ≡ false → pte v'.mem pgdir x ≡ pte v.mem pgdir x
  pub filled : (x : ℕ) → in_range lo hi x ≡ true → pte v'.mem pgdir x ≡ frame_of v'.mem pgdir x + 7
  pub fresh : (x : ℕ) → in_range lo hi x ≡ true → has (frame_of v'.mem pgdir x) v.free ≡ true
  pub zeroed :
      (x o : ℕ)
      → in_range lo hi x ≡ true
      → frame_of v'.mem pgdir x ≤ o
      → o < frame_of v'.mem pgdir x + 4096
      → v'.mem o ≡ 0
  pub back : IsBacked pgdir lo hi v'
  pub fewer : (p : ℕ) → has p v'.free ≡ true → has p v.free ≡ true
  pub accounted :
      (p : ℕ)
      → has p v.free ≡ true
      → (has p v'.free ≡ true) ⊎ (IsTable v'.mem pgdir p ⊎ IsUsed v'.mem pgdir lo hi p)

pub IsGrown-none :
    (pgdir lo : ℕ) (v : Vm) → lo % 4096 ≡ 0 → IsSpace pgdir v → IsGrown pgdir lo lo v v
IsGrown-none pgdir lo v whole s = record {
  space = s;
  bounds_kept = refl;
  outside = λ x lt r. refl;
  filled = λ x r. absurd (empty x r);
  fresh = λ x r. absurd (empty x r);
  zeroed = λ x o r. absurd (empty x r);
  back = record {
    frame = λ x r. absurd (empty x r);
    own = λ x r. absurd (empty x r);
    in_use = λ x r. absurd (empty x r);
    distinct = λ x y r. absurd (empty x r);
  };
  fewer = λ p h. h;
  accounted = λ p h. inl h;
}
  where
    empty : (x : ℕ) → in_range lo lo x ≡ true → ⊥
    empty x r = ground (arith, r, whole)

leaf_present : (e : ℕ) → is_present (pte_addr e + 7) ≡ true
leaf_present e = ground arith

module _ (pgdir lo a : ℕ) (v0 v : Vm) (g : IsGrown pgdir lo a v0 v) (page : ℕ) (rest : List ℕ)
    (eq : v.free ≡ page ∷ rest) (whole : a % 4096 ≡ 0) (low : a < 2 ^ 31) (from : lo ≤ a) where
  -- `kalloc` and `memset`.
  abbrev pub taken : Vm
  taken = record v { mem = fill page 0 v.mem; free = rest }

  listed : has page v.free ≡ true
  listed = ap (has page) eq ∙ ground (arith, ==_refl page)

  pub frame : IsFrame v.bounds page
  frame = g.space.free_frame page listed

  pub own : IsPrivate v.mem pgdir page
  own = g.space.free_private page listed

  pub nodup : NoDup (page ∷ rest)
  nodup = rw eq at g.space.nodup

  pub still : (p : ℕ) → has p rest ≡ true → has p v.free ≡ true
  still p h = ap (has p) eq ∙ ground (arith, h)

  pub dir_taken : (d : ℕ) → d < 1024 → dir_entry taken.mem pgdir d ≡ dir_entry v.mem pgdir d
  dir_taken =
      dir_entry-private pgdir page v.mem taken.mem g.space.whole frame.whole own
        (Within-fill page 0 v.mem)

  pub pte_taken : (x : ℕ) → pte taken.mem pgdir x ≡ pte v.mem pgdir x
  pte_taken =
      pte-private pgdir page v.mem taken.mem g.space.whole frame.whole own
        (Within-fill page 0 v.mem)

  pub IsSpace-taken : IsSpace pgdir taken
  IsSpace-taken =
      IsSpace-same pgdir v taken dir_taken g.space
        (λ p h. (g.space.free_frame p (still p h), g.space.free_private p (still p h))) nodup.1

  pub own_taken : IsPrivate taken.mem pgdir page
  own_taken = IsPrivate-same pgdir v.mem taken.mem dir_taken page own

  zero_taken : (o : ℕ) → page ≤ o → o < page + 4096 → taken.mem o ≡ 0
  zero_taken o x y =
      let p : (leb page o && ltb o (page + 4096)) ≡ true = ground (arith, x, y) in rw p refl

  -- The pages mapped before.
  module _ (x : ℕ) (r : in_range lo a x ≡ true) where
    pub mapped_before : is_mapped v.mem pgdir x ≡ true
    mapped_before = ap is_present (g.filled x r) ∙ leaf_present (pte v.mem pgdir x)

    pub other_page : frame_of v.mem pgdir x ≢ page
    other_page z =
        let out : has (frame_of v.mem pgdir x) v.free ≡ false = g.back.in_use x r mapped_before in
        let h : has page v.free ≡ false = ap (λ p. has p v.free) (sym z) ∙ out in
        ground (arith, h, listed)

  module _ (v2 : Vm) (m : IsMapped pgdir a 1 page 6 taken v2) where
    page_here : (x : ℕ) → x / 4096 ≡ a / 4096 → x < 2 ^ 32 → pte v2.mem pgdir x ≡ page + 7
    page_here x e lt =
        let t : (leb (a / 4096) (x / 4096) && ltb (x / 4096) (a / 4096 + 1)) ≡ true =
          ground (arith, e) in
        let z : page + 4096 * (x / 4096 - a / 4096) ≡ page = ground (arith, e) in
        m.entries x lt ∙ rw (t, z) refl

    page_else : (x : ℕ) → x / 4096 ≢ a / 4096 → x < 2 ^ 32 → pte v2.mem pgdir x ≡ pte v.mem pgdir x
    page_else x ne lt =
        let t : (leb (a / 4096) (x / 4096) && ltb (x / 4096) (a / 4096 + 1)) ≡ false =
          ground (arith, ne) in
        m.entries x lt ∙ rw t (pte_taken x)

    page_of_new : pte_addr (page + 7) ≡ page
    page_of_new = omega (arith, frame.whole)

    page_present : is_present (page + 7) ≡ true
    page_present = ground (arith, frame.whole)

    -- An address of the larger range is in the new page or was in the range.
    page_cases :
        (x : ℕ)
        → in_range lo (a + 4096) x ≡ true
        → ((x / 4096 ≡ a / 4096)
            × (pte v2.mem pgdir x ≡ page + 7)
            × (frame_of v2.mem pgdir x ≡ page))
          ⊎ ((in_range lo a x ≡ true) × (pte v2.mem pgdir x ≡ pte v.mem pgdir x))
    page_cases x r =
        let high : x / 4096 * 4096 < a + 4096 = ground (arith, r) in
        let lt : x < 2 ^ 32 = omega (arith, high, low) in
        elim (Bool-cases (x / 4096 == a / 4096)) [
          | inl e ↦
              let q : x / 4096 ≡ a / 4096 = (==_iff _ _).0 e in
              let h = page_here x q lt in inl (q, h, ap pte_addr h ∙ page_of_new)
          | inr e ↦ inr (ground (arith, r, e, whole), page_else x (ground (arith, e)) lt)
        ]

    still_out : (p : ℕ) → has p v.free ≡ false → has p v2.free ≡ false
    still_out p out = elim (Bool-cases (has p v2.free)) [
      | inr z ↦ z
      | inl z ↦ ground (arith, still p (m.fewer p z), out)
    ]

    page_out : has page v2.free ≡ false
    page_out = elim (Bool-cases (has page v2.free)) [
      | inr z ↦ z
      | inl z ↦ ground (arith, m.fewer page z, nodup.0)
    ]

    IsPrivate-mapped :
        (p : ℕ) → IsPrivate v.mem pgdir p → has p rest ≡ false → IsPrivate v2.mem pgdir p
    IsPrivate-mapped p h out =
        m.private_kept p (IsPrivate-same pgdir v.mem taken.mem dir_taken p h) out

    not_rest : (p : ℕ) → has p v.free ≡ false → has p rest ≡ false
    not_rest p out = elim (Bool-cases (has p rest)) [
      | inr z ↦ z
      | inl z ↦ ground (arith, still p z, out)
    ]

    old_zero :
        (x o : ℕ)
        → in_range lo a x ≡ true
        → frame_of v.mem pgdir x ≤ o
        → o < frame_of v.mem pgdir x + 4096
        → v2.mem o ≡ 0
    old_zero x o r y z =
        let q = frame_of v.mem pgdir x in
        let mp = mapped_before x r in
        let out = g.back.in_use x r mp in
        let wh : q % 4096 ≡ 0 = omega arith in
        m.others q o (IsPrivate-same pgdir v.mem taken.mem dir_taken q (g.back.own x r mp)) wh
          (not_rest q out) y z
        ∙ Within-fill page 0 v.mem o (elim (pages_apart q page wh frame.whole (other_page x r)) [
          | inl h ↦ inl (omega (arith, h, z))
          | inr h ↦ inr (omega (arith, h, y))
        ])
        ∙ g.zeroed x o r y z

    pub back_more : IsBacked pgdir lo (a + 4096) v2
    back_more = record {
      frame = λ x r p. elim (page_cases x r) [
        | inl (e, h, q) ↦ rw (q, m.bounds_kept) frame
        | inr (r', h) ↦ (let f = g.back.frame x r' (mapped_before x r') in rw (h, m.bounds_kept) f)
      ];
      own = λ x r p. elim (page_cases x r) [
        | inl (e, h, q) ↦ rw q (IsPrivate-mapped page own nodup.0)
        | inr (r', h) ↦
            let f = mapped_before x r' in
            rw h (
              IsPrivate-mapped (frame_of v.mem pgdir x) (g.back.own x r' f)
                (not_rest _ (g.back.in_use x r' f)))
      ];
      in_use = λ x r p. elim (page_cases x r) [
        | inl (e, h, q) ↦ ap (λ t. has t v2.free) q ∙ page_out
        | inr (r', h) ↦
            ap (λ t. has (pte_addr t) v2.free) h
            ∙ still_out (frame_of v.mem pgdir x) (g.back.in_use x r' (mapped_before x r'))
      ];
      distinct = λ x y r r' p p' z. elim (page_cases x r) [
        | inl (e, h, q) ↦ elim (page_cases y r') [
          | inl (e', h', q') ↦ e ∙ sym e'
          | inr (s', h') ↦ absurd (other_page y s' (ap pte_addr (sym h') ∙ sym z ∙ q))
        ]
        | inr (s, h) ↦ elim (page_cases y r') [
          | inl (e', h', q') ↦ absurd (other_page x s (ap pte_addr (sym h) ∙ z ∙ q'))
          | inr (s', h') ↦
              g.back.distinct x y s s' (mapped_before x s) (mapped_before y s')
                (ap pte_addr (sym h) ∙ z ∙ ap pte_addr h')
        ]
      ];
    }

    pub IsGrown-more : IsGrown pgdir lo (a + 4096) v0 v2
    IsGrown-more = record {
      space = m.space;
      bounds_kept = m.bounds_kept ∙ g.bounds_kept;
      outside = λ x lt r.
          page_else x (λ e. ground (arith, e, r, whole, from)) lt
          ∙ g.outside x lt (ground (arith, r, whole));
      filled = λ x r. elim (page_cases x r) [
        | inl (e, h, q) ↦ h ∙ ap (λ t. t + 7) (sym q)
        | inr (r', h) ↦ h ∙ g.filled x r' ∙ ap (λ t. pte_addr t + 7) (sym h)
      ];
      fresh = λ x r. elim (page_cases x r) [
        | inl (e, h, q) ↦ ap (λ t. has t v0.free) q ∙ g.fewer page listed
        | inr (r', h) ↦ ap (λ t. has (pte_addr t) v0.free) h ∙ g.fresh x r'
      ];
      zeroed = λ x o r y z. elim (page_cases x r) [
        | inl (e, h, q) ↦
            let y' : page ≤ o = omega (arith, y, q) in
            let z' : o < page + 4096 = omega (arith, z, q) in
            m.others page o own_taken frame.whole nodup.0 y' z' ∙ zero_taken o y' z'
        | inr (r', h) ↦
            let q = ap pte_addr h in old_zero x o r' (omega (arith, y, q)) (omega (arith, z, q))
      ];
      back = back_more;
      fewer = λ p h. g.fewer p (still p (m.fewer p h));
      accounted = λ p h. elim (g.accounted p h) [
        | inl z ↦ elim (Bool-cases (page == p)) [
          | inl e ↦
              let r : in_range lo (a + 4096) a ≡ true = ground (arith, whole, from) in
              let w = page_here a refl (omega (arith, low)) in
              inr (
                inr (
                  a,
                  omega (arith, low),
                  r,
                  ap is_present w ∙ page_present,
                  ap pte_addr w ∙ page_of_new ∙ (==_iff page p).0 e,
                ))
          | inr e ↦
              let h' : has p (page ∷ rest) ≡ true = ap (has p) (sym eq) ∙ z in
              elim (m.accounted p (ground (arith, h', e))) [ inl y ↦ inl y | inr y ↦ inr (inl y) ]
        ]
        | inr (inl z) ↦
            inr (inl (m.tables_stay p (IsTable-same pgdir v.mem taken.mem dir_taken p z)))
        | inr (inr (x, lt, r, mp, q)) ↦
            let ne : x / 4096 ≢ a / 4096 = λ e. ground (arith, e, r, whole) in
            let w = page_else x ne lt in
            let r' : in_range lo (a + 4096) x ≡ true = ground (arith, r) in
            inr (inr (x, lt, r', ap is_present w ∙ mp, ap pte_addr w ∙ q))
      ];
    }
