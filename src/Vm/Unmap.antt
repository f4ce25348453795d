-- ===== src/Vm/Unmap.antt =====
-- The loop of deallocuvm of vm.c.
use modified_xv.Base.{
  ℕ, zero, suc, ◌+◌, ◌*◌, ◌/◌, ◌%◌, ◌^◌, ◌≤◌, ◌<◌, ◌≡◌, refl, ap, ◌∙◌, arith, true, false, ◌||◌,
  inl, inr, Option, none, some, ltb, leb, if◌then◌else◌, add32, Bool-cases, min,
}
use modified_xv.Memory.{kernbase, round_up}
use modified_xv.Vm.{Vm, pdx, ptx, is_present, drop_page, drop_pages, deallocuvm}
use modified_xv.Vm.Space.{dir_entry, table, pte, IsSpace}
use modified_xv.Vm.Ranges.{
  in_range, is_mapped, IsBacked, IsCleared, pte_page, drop_page_skip, walk_found, walk_gone,
  IsCleared-trans, IsCleared-refl, IsBacked-narrow,
}
use modified_xv.Vm.Drop.{unmapped, dropped, back_later, drop_page_lem}

module _ (pgdir : ℕ) where
  -- What the loop does from `a` on.
  Clears : ℕ → ℕ → Vm → Option Vm → Type 0
  Clears a hi v r = (v' : Vm) × (r ≡ some v') × IsCleared pgdir a hi v v'

  -- A part of the range with nothing mapped.
  Clears-skip :
      (a m n hi : ℕ) (v : Vm) (r : Option Vm)
      → IsSpace pgdir v
      → ((x : ℕ) → in_range a hi x ≡ (in_range a m x || in_range n hi x))
      → ((x : ℕ) → in_range n hi x ≡ true → in_range a m x ≡ false)
      → ((x : ℕ) → in_range a m x ≡ true → is_mapped v.mem pgdir x ≡ false)
      → Clears n hi v r
      → Clears a hi v r
  unfolding Clears
  Clears-skip a m n hi v r s parts apart none_of (v', eq, c) = (
    v',
    eq,
    IsCleared-trans pgdir a m n hi v v v' parts apart (IsCleared-refl pgdir a m v s none_of) c,
  )

  page_parts :
      (a hi x : ℕ)
      → a % 4096 ≡ 0
      → a < hi
      → in_range a hi x ≡ (in_range a (a + 1) x || in_range (a + 4096) hi x)
  page_parts a hi x whole below = ground (arith, whole, below)

  page_apart :
      (a hi x : ℕ) → a % 4096 ≡ 0 → in_range (a + 4096) hi x ≡ true → in_range a (a + 1) x ≡ false
  page_apart a hi x whole r = ground (arith, whole, r)

  table_end : ℕ → ℕ
  table_end a = (pdx a + 1) * 0x400000

  no_table :
      (a hi x : ℕ) (v : Vm)
      → a < 2 ^ 31
      → is_present (dir_entry v.mem pgdir (pdx a)) ≡ false
      → in_range a (min (table_end a) hi) x ≡ true
      → is_mapped v.mem pgdir x ≡ false
  unfolding table_end
  no_table a hi x v lt p r =
      let low : a ≤ x = ground (arith, r) in
      let high : x / 4096 * 4096 < table_end a = ground (arith, r) in
      let d : pdx x ≡ pdx a = omega (arith, low, high, lt) in rw (d, p) refl

  table_parts :
      (a hi x : ℕ)
      → a % 4096 ≡ 0
      → a < 2 ^ 31
      → in_range a hi x ≡ (in_range a (min (table_end a) hi) x || in_range (table_end a) hi x)
  unfolding table_end
  table_parts a hi x whole lt = ground (arith, whole, lt)

  table_apart :
      (a hi x : ℕ)
      → in_range (table_end a) hi x ≡ true
      → in_range a (min (table_end a) hi) x ≡ false
  unfolding table_end
  table_apart a hi x r = ground (arith, r)

  drop_pages_lem :
      (fuel a hi : ℕ) (v : Vm)
      → IsSpace pgdir v
      → IsBacked pgdir a hi v
      → a % 4096 ≡ 0
      → hi ≤ 2 ^ 31
      → hi ≤ a + 4096 * fuel
      → Clears a hi v (drop_pages fuel pgdir a hi v)
  unfolding Clears drop_pages table_end
  drop_pages_lem zero a hi v s back whole limit enough =
      let e : ltb a hi ≡ false = ground (arith, enough) in
      (v, rw e refl, IsCleared-refl pgdir a hi v s (λ x r. ground (arith, r, e)))
  drop_pages_lem (suc fuel) a hi v s back whole limit enough = elim (Bool-cases (ltb a hi)) [
    | inr e ↦
        (v, rw (drop_pages, e) refl, IsCleared-refl pgdir a hi v s (λ x r. ground (arith, r, e)))
    | inl e ↦
        let below : a < hi = ground (arith, e) in
        let step : add32 a 4096 ≡ a + 4096 = omega (arith, below, limit) in
        let parts = λ (x : ℕ). page_parts a hi x whole below in
        let apart = λ (x : ℕ). page_apart a hi x whole in
        let wide : (x : ℕ) → in_range (a + 4096) hi x ≡ true → in_range a hi x ≡ true =
          λ x r. ground (arith, r) in
        elim (Bool-cases (is_present (dir_entry v.mem pgdir (pdx a)))) [
          | inr p ↦
              let lt : a < 2 ^ 31 = omega (arith, below, limit) in
              let wrap : (pdx a + 1) * 0x400000 % 2 ^ 32 ≡ table_end a = omega (arith, lt) in
              let wide_t : (x : ℕ) → in_range (table_end a) hi x ≡ true → in_range a hi x ≡ true =
                λ x r. ground (arith, r, lt) in
              rw
                (
                  drop_pages,
                  e,
                  walk_gone pgdir a v p,
                  ap (λ (z : Option ℕ × Vm). z.1) (walk_gone pgdir a v p),
                  wrap,
                )
                (Clears-skip a (min (table_end a) hi) (table_end a) hi v _ s
                  (λ x. table_parts a hi x whole lt) (λ x. table_apart a hi x)
                  (λ x. no_table a hi x v lt p)
                  (drop_pages_lem fuel (table_end a) hi v s
                    (IsBacked-narrow pgdir a hi (table_end a) v wide_t back) (omega arith) limit
                    (omega (arith, enough, lt))))
          | inl p ↦ elim (Bool-cases (is_mapped v.mem pgdir a)) [
            | inl q ↦
                let ih =
                  drop_pages_lem fuel (a + 4096) hi
                    (unmapped pgdir a hi v s back whole below limit p q)
                    (dropped pgdir a hi v s back whole below limit p q).space
                    (back_later pgdir a hi v s back whole below limit p q) (omega (arith, whole))
                    limit (omega (arith, enough)) in
                rw
                  (
                    drop_pages,
                    e,
                    walk_found pgdir a v p,
                    ap (λ (z : Option ℕ × Vm). z.1) (walk_found pgdir a v p),
                    drop_page_lem pgdir a hi v s back whole below limit p q,
                    step,
                  )
                  (let (v', eq, c) = ih in
                    (
                      v',
                      eq,
                      IsCleared-trans pgdir a (a + 1) (a + 4096) hi v _ v' parts apart
                          (dropped pgdir a hi v s back whole below limit p q) c,
                    ))
            | inr q ↦
                let same : drop_page (table v.mem pgdir (pdx a) + 4 * ptx a) v ≡ some v =
                  drop_page_skip (table v.mem pgdir (pdx a) + 4 * ptx a) (pte v.mem pgdir a) v
                    (rw p refl) q in
                rw
                  (
                    drop_pages,
                    e,
                    walk_found pgdir a v p,
                    ap (λ (z : Option ℕ × Vm). z.1) (walk_found pgdir a v p),
                    same,
                    step,
                  )
                  (Clears-skip a (a + 1) (a + 4096) hi v _ s parts apart
                    (λ x r. ap is_present (pte_page v.mem pgdir x a (ground (arith, r, whole))) ∙ q)
                    (drop_pages_lem fuel (a + 4096) hi v s
                      (IsBacked-narrow pgdir a hi (a + 4096) v wide back) (omega (arith, whole))
                      limit (omega (arith, enough))))
          ]
        ]
  ]

  -- The results of `deallocuvm`.
  abbrev pub Deallocates : ℕ → ℕ → Vm → Option (ℕ × Vm) → Type 0
  Deallocates oldsz newsz v none = ⊥
  Deallocates oldsz newsz v (some (sz, v')) =
      if leb oldsz newsz
      then (sz ≡ oldsz) × (v' ≡ v)
      else (sz ≡ newsz) × IsCleared pgdir (round_up newsz) oldsz v v'

  -- For a directory whose page tables and the free pages are pages apart, an old size up to
  -- KERNBASE, and mapped pages of the range that are frames apart and not free: `deallocuvm` does
  -- not panic and ends; for a new size that is not smaller it changes nothing; else the mapped
  -- entries of the pages from the new size on that begin below the old size become 0, all other
  -- entries stay, and the pages freed are exactly those mapped there.
  pub deallocuvm_lem :
      (oldsz newsz : ℕ) (v : Vm)
      → IsSpace pgdir v
      → IsBacked pgdir (round_up newsz) oldsz v
      → oldsz ≤ kernbase
      → Deallocates oldsz newsz v (deallocuvm pgdir oldsz newsz v)
  unfolding deallocuvm Clears
  deallocuvm_lem oldsz newsz v s back limit = elim (Bool-cases (leb oldsz newsz)) [
    | inl e ↦ rw (deallocuvm, e, e) (refl, refl)
    | inr e ↦
        let (v', eq, c) =
          drop_pages_lem (2 ^ 20) (round_up newsz) oldsz v s back (omega arith) limit
            (omega (arith, limit)) in
        rw (deallocuvm, e, eq, e) (refl, c)
  ]
