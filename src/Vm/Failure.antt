-- ===== src/Vm/Failure.antt =====
-- The end of allocuvm of vm.c after a failure to map a page.
use modified_xv.Base.{
  ◌⊎◌, ==_refl, ℕ, ◌+◌, ◌*◌, ◌/◌, ◌%◌, ◌^◌, ◌≤◌, ◌<◌, ◌≡◌, refl, sym, ap, ◌∙◌, arith, true, false,
  ◌&&◌, inl, inr, some, List, [], ◌∷◌, ◌==◌, ==_iff, ltb, leb, has, Bool-cases,
}
use modified_xv.Memory.{kernbase, round_up}
use modified_xv.Vm.{Vm, is_present, pte_addr, fill, free_page, give_back}
use modified_xv.Vm.Space.{
  IsTable, IsTable-same, pte, IsPrivate, IsSpace, IsSpace-same, IsPrivate-same, Within-fill,
  dir_entry-private, pte-private,
}
use modified_xv.Vm.Leaves.{IsMapped}
use modified_xv.Vm.Ranges.{IsUsed, in_range, is_mapped, frame_of, IsBacked, IsCleared}
use modified_xv.Vm.Grow.{
  IsGrown, taken, frame, own, dir_taken, pte_taken, nodup, still, mapped_before, other_page,
}
use modified_xv.Vm.Undo.{
  IsRestored, IsExhausted, Grows, undone_inside, undone_outside, undone_accounted, only,
}

module _ (pgdir oldsz newsz : ℕ) (v0 : Vm) (order : oldsz ≤ newsz) (limit : newsz < kernbase)
    (unused : (x : ℕ)
      → in_range (round_up oldsz) newsz x ≡ true
      → is_mapped v0.mem pgdir x ≡ false) where
  abbrev lo : ℕ
  lo = round_up oldsz

  -- A page that could not be mapped.
  module _ (a : ℕ) (v : Vm) (g : IsGrown pgdir lo a v0 v) (page : ℕ) (rest : List ℕ)
      (eq : v.free ≡ page ∷ rest) (whole : a % 4096 ≡ 0) (from : lo ≤ a) (below : a < newsz) where
    pub low : a < 2 ^ 31
    low = omega (arith, below, limit)

    pub absent : is_mapped v.mem pgdir a ≡ false
    absent =
        let r : in_range lo a a ≡ false = ground (arith, whole) in
        let r' : in_range lo newsz a ≡ true = ground (arith, whole, from, below) in
        ap is_present (g.outside a (omega (arith, low)) r) ∙ unused a r'

    module _ (v2 : Vm) (j : ℕ) (j_zero : j ≡ 0)
        (m : IsMapped pgdir a j page 6 (taken pgdir lo a v0 v g page rest eq whole low from) v2)
        (no_free : v2.free ≡ []) where
      entries_same : (x : ℕ) → x < 2 ^ 32 → pte v2.mem pgdir x ≡ pte v.mem pgdir x
      entries_same x lt =
          let t : (leb (a / 4096) (x / 4096) && ltb (x / 4096) (a / 4096 + j)) ≡ false =
            ground (arith, j_zero) in
          m.entries x lt ∙ rw t (pte_taken pgdir lo a v0 v g page rest eq whole low from x)

      none_free : (p : ℕ) → has p v2.free ≡ false
      none_free p = ap (has p) no_free

      entries_in : (x : ℕ) → in_range lo a x ≡ true → pte v2.mem pgdir x ≡ pte v.mem pgdir x
      entries_in x r =
          let z : x / 4096 * 4096 < a = ground (arith, r) in entries_same x (omega (arith, z, low))

      IsPrivate-kept :
          (p : ℕ) → IsPrivate v.mem pgdir p → has p rest ≡ false → IsPrivate v2.mem pgdir p
      IsPrivate-kept p h out =
          m.private_kept p
            (IsPrivate-same pgdir v.mem _ (dir_taken pgdir lo a v0 v g page rest eq whole low from)
              p h)
            out

      not_rest : (p : ℕ) → has p v.free ≡ false → has p rest ≡ false
      not_rest p out = elim (Bool-cases (has p rest)) [
        | inr z ↦ z
        | inl z ↦ ground (arith, still pgdir lo a v0 v g page rest eq whole low from p z, out)
      ]

      pub back_same : IsBacked pgdir lo a v2
      back_same = record {
        frame =
            λ x r p. (let f = g.back.frame x r (was x r) in rw (entries_in x r, m.bounds_kept) f);
        own = λ x r p. rw (entries_in x r) (
            IsPrivate-kept (frame_of v.mem pgdir x) (g.back.own x r (was x r))
              (not_rest (frame_of v.mem pgdir x) (g.back.in_use x r (was x r))));
        in_use = λ x r p. none_free (frame_of v2.mem pgdir x);
        distinct = λ x y r r' p p' q.
            g.back.distinct x y r r' (was x r) (was y r')
              (ap pte_addr (sym (entries_in x r)) ∙ q ∙ ap pte_addr (entries_in y r'));
      }
        where
          was : (x : ℕ) → in_range lo a x ≡ true → is_mapped v.mem pgdir x ≡ true
          was x r = mapped_before pgdir lo a v0 v g page rest eq whole low from x r

      pub kept_same :
          (x : ℕ) → x < 2 ^ 32 → in_range lo a x ≡ false → pte v2.mem pgdir x ≡ pte v0.mem pgdir x
      kept_same x lt r = entries_same x lt ∙ g.outside x lt r

      page_or :
          (p : ℕ)
          → has p v0.free ≡ true
          → (p ≡ page)
            ⊎ ((has p v2.free ≡ true) ⊎ (IsTable v2.mem pgdir p ⊎ IsUsed v2.mem pgdir lo a p))
      page_or p h = elim (g.accounted p h) [
        | inl z ↦ elim (Bool-cases (page == p)) [
          | inl e ↦ inl (sym ((==_iff page p).0 e))
          | inr e ↦
              let h' : has p (page ∷ rest) ≡ true = ap (has p) (sym eq) ∙ z in
              elim (m.accounted p (ground (arith, h', e))) [
                | inl y ↦ inr (inl y)
                | inr y ↦ inr (inr (inl y))
              ]
        ]
        | inr (inl z) ↦ inr (
            inr (
              inl (
                m.tables_stay p (
                  IsTable-same pgdir v.mem _
                    (dir_taken pgdir lo a v0 v g page rest eq whole low from) p z))))
        | inr (inr (x, lt, r, mp, q)) ↦
            let e = entries_same x lt in
            inr (inr (inr (x, lt, r, ap is_present e ∙ mp, ap pte_addr e ∙ q)))
      ]

      -- The page goes back to the free list.
      module _ (w' : Vm) (c : IsCleared pgdir lo newsz v2 w') where
        bounds_same : w'.bounds ≡ v.bounds
        bounds_same = c.bounds_kept ∙ m.bounds_kept

        own_still : IsPrivate w'.mem pgdir page
        own_still = IsPrivate-same pgdir v2.mem w'.mem c.tables_kept page (
            IsPrivate-kept page (own pgdir lo a v0 v g page rest eq whole low from)
              (nodup pgdir lo a v0 v g page rest eq whole low from).0)

        page_gone : has page w'.free ≡ false
        page_gone = elim (Bool-cases (has page w'.free)) [
          | inr z ↦ z
          | inl z ↦ elim (c.no_more page z) [
            | inl y ↦ ground (arith, y, none_free page)
            | inr (x, lt, r, p, q) ↦
                let r' =
                  only pgdir oldsz newsz v0 order limit unused a v2 m.space back_same from below
                    kept_same x r p in
                absurd (
                  other_page pgdir lo a v0 v g page rest eq whole low from x r'
                    (ap pte_addr (sym (entries_same x lt)) ∙ q))
          ]
        ]

        abbrev returned : Vm
        returned = record { bounds = v.bounds; mem = fill page 1 w'.mem; free = page ∷ w'.free }

        whole_page : page % 4096 ≡ 0
        whole_page = (frame pgdir lo a v0 v g page rest eq whole low from).whole

        IsSpace-returned : IsSpace pgdir returned
        IsSpace-returned =
            IsSpace-same pgdir w' returned
              (dir_entry-private pgdir page w'.mem returned.mem c.space.whole whole_page own_still
                (Within-fill page 1 w'.mem))
              c.space
              (λ p h. elim (Bool-cases (page == p)) [
                | inl e ↦
                    rw (← (==_iff page p).0 e)
                      (frame pgdir lo a v0 v g page rest eq whole low from, own_still)
                | inr e ↦
                    let h' : has p w'.free ≡ true = ground (arith, h, e) in
                    (rw bounds_same at (c.space.free_frame p h'), c.space.free_private p h')
              ])
              (page_gone, c.space.nodup)

        restored : IsRestored pgdir lo newsz v0 returned
        restored =
            let e =
              pte-private pgdir page w'.mem returned.mem c.space.whole whole_page own_still
                (Within-fill page 1 w'.mem) in
            record {
              space = IsSpace-returned;
              inside = λ x lt r.
                  ap is_present (e x)
                  ∙ undone_inside pgdir oldsz newsz v0 order limit unused a v2 m.space back_same
                      from below kept_same w' c x lt r;
              outside = λ x lt r.
                  e x
                  ∙ undone_outside pgdir oldsz newsz v0 order limit unused a v2 m.space back_same
                      from below kept_same w' c x lt r;
              accounted = λ p h. elim (page_or p h) [
                | inl z ↦ (let q = ==_refl page in inl (rw (← z) (ground (arith, q))))
                | inr z ↦
                    elim (undone_accounted pgdir oldsz newsz v0 order limit unused a v2 m.space
                      back_same from below kept_same w' c p z) [
                        | inl y ↦ inl (ground (arith, y))
                        | inr y ↦ inr (
                            IsTable-same pgdir w'.mem returned.mem
                              (dir_entry-private pgdir page w'.mem returned.mem c.space.whole
                                whole_page own_still (Within-fill page 1 w'.mem))
                              p y)
                      ]
              ];
            }

        pub give_back_lem :
            IsExhausted pgdir lo newsz v0 → Grows pgdir lo newsz v0 (give_back (some page) w')
        unfolding give_back free_page
        give_back_lem ex =
            let f = frame pgdir lo a v0 v g page rest eq whole low from in
            rw (bounds_same, f.page) (inr (refl, restored, ex))
