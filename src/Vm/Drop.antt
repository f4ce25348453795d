-- ===== src/Vm/Drop.antt =====
-- A round of deallocuvm of vm.c that frees a page.
use modified_xv.Base.{
  ℕ, ◌+◌, ◌*◌, ◌/◌, ◌%◌, ◌^◌, ◌≤◌, ◌<◌, ◌≡◌, refl, sym, ap, ◌∙◌, arith, true, false, inl, inr, some,
  ◌∷◌, ◌==◌, ==_iff, ==_refl, if◌then◌else◌, has, Bool-cases,
}
use modified_xv.Fs.Bytes.{get_le, put_le}
use modified_xv.Vm.{Vm, pdx, ptx, is_present, pte_addr, fill, drop_page}
use modified_xv.Vm.Space.{
  dir_entry, table, pte, IsSpace, IsSpace-same, IsPrivate-same, Within-fill, dir_entry-private,
  pte-private,
}
use modified_xv.Vm.Entries.{dir_entry-set, pte-set, IsSpace-set}
use modified_xv.Vm.Ranges.{
  in_range, is_mapped, frame_of, IsBacked, cleared, IsCleared, pte_page, drop_page_run,
}

module _ (pgdir : ℕ) where
  -- One mapped page, freed.
  module _ (a hi : ℕ) (v : Vm) (s : IsSpace pgdir v) (back : IsBacked pgdir a hi v)
      (whole : a % 4096 ≡ 0) (below : a < hi) (limit : hi ≤ 2 ^ 31)
      (there : is_present (dir_entry v.mem pgdir (pdx a)) ≡ true)
      (mapped : is_mapped v.mem pgdir a ≡ true) where
    inside : in_range a hi a ≡ true
    inside = ground (arith, whole, below)

    abbrev page : ℕ
    page = frame_of v.mem pgdir a

    abbrev freed_page : Vm
    freed_page = record v { mem = fill page 1 v.mem; free = page ∷ v.free }

    abbrev pub unmapped : Vm
    unmapped = record freed_page {
      mem = put_le 4 freed_page.mem (table freed_page.mem pgdir (pdx a) + 4 * ptx a) 0;
    }

    dir_freed : (d : ℕ) → d < 1024 → dir_entry freed_page.mem pgdir d ≡ dir_entry v.mem pgdir d
    dir_freed =
        dir_entry-private pgdir page v.mem freed_page.mem s.whole (back.frame a inside mapped).whole
          (back.own a inside mapped) (Within-fill page 1 v.mem)

    pte_freed : (x : ℕ) → pte freed_page.mem pgdir x ≡ pte v.mem pgdir x
    pte_freed =
        pte-private pgdir page v.mem freed_page.mem s.whole (back.frame a inside mapped).whole
          (back.own a inside mapped) (Within-fill page 1 v.mem)

    IsSpace-freed_page : IsSpace pgdir freed_page
    IsSpace-freed_page =
        IsSpace-same pgdir v freed_page dir_freed s
          (λ p h. elim (Bool-cases (page == p)) [
            | inl e ↦
                rw (← (==_iff page p).0 e) (back.frame a inside mapped, back.own a inside mapped)
            | inr e ↦
                (let h' : has p v.free ≡ true = ground (arith, h, e) in
                  (s.free_frame p h', s.free_private p h'))
          ])
          (back.in_use a inside mapped, s.nodup)

    there_freed : is_present (dir_entry freed_page.mem pgdir (pdx a)) ≡ true
    there_freed = ap is_present (dir_freed (pdx a) (omega arith)) ∙ there

    cleared_one :
        (x : ℕ)
        → (if x / 4096 == a / 4096 then 0 else pte v.mem pgdir x)
          ≡ cleared (pte v.mem pgdir) a (a + 1) x
    cleared_one x = elim (Bool-cases (x / 4096 == a / 4096)) [
      | inl e ↦
          let r : in_range a (a + 1) x ≡ true = ground (arith, e, whole) in
          let p : is_mapped v.mem pgdir x ≡ true =
            ap is_present (pte_page v.mem pgdir x a ((==_iff _ _).0 e)) ∙ mapped in
          rw (e, r, p) refl
      | inr e ↦ let r : in_range a (a + 1) x ≡ false = ground (arith, e, whole) in rw (e, r) refl
    ]

    entries_one :
        (x : ℕ) → x < 2 ^ 32 → pte unmapped.mem pgdir x ≡ cleared (pte v.mem pgdir) a (a + 1) x
    entries_one x lt =
        pte-set pgdir a 0 freed_page IsSpace-freed_page (omega (arith, below, limit)) (omega arith)
          there_freed x lt
        ∙ rw (pte_freed x) (cleared_one x)

    tables_one : (d : ℕ) → d < 1024 → dir_entry unmapped.mem pgdir d ≡ dir_entry v.mem pgdir d
    tables_one d lt =
        dir_entry-set pgdir a 0 freed_page IsSpace-freed_page (omega (arith, below, limit))
          (omega arith) there_freed d lt
        ∙ dir_freed d lt

    same_a : (x : ℕ) → in_range a (a + 1) x ≡ true → x / 4096 ≡ a / 4096
    same_a x r = ground (arith, r, whole)

    pub dropped : IsCleared pgdir a (a + 1) v unmapped
    dropped = record {
      space =
          IsSpace-set pgdir a 0 freed_page IsSpace-freed_page (omega (arith, below, limit))
            (omega arith) there_freed;
      entries = entries_one;
      bounds_kept = refl;
      tables_kept = tables_one;
      still_free = λ p h. ground (arith, h);
      freed = λ x lt r p.
          let q = ap pte_addr (pte_page v.mem pgdir x a (same_a x r)) in
          rw q (ground (arith, ==_refl page));
      no_more = λ p h. elim (Bool-cases (page == p)) [
        | inl e ↦
            inr (a, omega (arith, below, limit), ground (arith, whole), mapped, (==_iff page p).0 e)
        | inr e ↦ inl (ground (arith, h, e))
      ];
    }

    -- The rest of the range is as it was.
    later :
        (x : ℕ)
        → in_range (a + 4096) hi x ≡ true
        → x < 2 ^ 32
        → pte unmapped.mem pgdir x ≡ pte v.mem pgdir x
    later x r lt =
        let o : in_range a (a + 1) x ≡ false = ground (arith, r, whole) in
        entries_one x lt ∙ rw o refl

    below_4g : (x : ℕ) → in_range (a + 4096) hi x ≡ true → x < 2 ^ 32
    below_4g x r = let z : x / 4096 * 4096 < hi = ground (arith, r) in omega (arith, z, limit)

    wider : (x : ℕ) → in_range (a + 4096) hi x ≡ true → in_range a hi x ≡ true
    wider x r = ground (arith, r)

    pub back_later : IsBacked pgdir (a + 4096) hi unmapped
    back_later =
        let e = λ (x : ℕ) (r : in_range (a + 4096) hi x ≡ true). later x r (below_4g x r) in
        record {
          frame = λ x r p. rw (e x r) (back.frame x (wider x r) (rw (e x r) at p));
          own = λ x r p. rw (e x r) (
              IsPrivate-same pgdir v.mem unmapped.mem tables_one (frame_of v.mem pgdir x)
                (back.own x (wider x r) (rw (e x r) at p)));
          in_use = λ x r p.
              ap (λ t. has (pte_addr t) unmapped.free) (e x r) ∙ not_freed x r (rw (e x r) at p);
          distinct = λ x y r r' p p' q.
              back.distinct x y (wider x r) (wider y r') (rw (e x r) at p) (rw (e y r') at p')
                (rw (e x r, e y r') at q);
        }
      where
        not_freed :
            (x : ℕ)
            → in_range (a + 4096) hi x ≡ true
            → is_mapped v.mem pgdir x ≡ true
            → has (frame_of v.mem pgdir x) (page ∷ v.free) ≡ false
        not_freed x r p =
            let n = back.in_use x (wider x r) p in
            let d : (page == frame_of v.mem pgdir x) ≡ false =
              elim (Bool-cases (page == frame_of v.mem pgdir x)) [
                | inr z ↦ z
                | inl z ↦
                    let q : a / 4096 ≡ x / 4096 =
                      back.distinct a x inside (wider x r) mapped p ((==_iff _ _).0 z) in
                    ground (arith, q, r, whole)
              ] in
            rw (d, n) refl

    pub drop_page_lem : drop_page (table v.mem pgdir (pdx a) + 4 * ptx a) v ≡ some unmapped
    drop_page_lem =
        let f = back.frame a inside mapped in
        let e : get_le 4 v.mem (table v.mem pgdir (pdx a) + 4 * ptx a) ≡ pte v.mem pgdir a =
          rw there refl in
        let nz : (page == 0) ≡ false = ground (arith, f.some_page) in
        drop_page_run (table v.mem pgdir (pdx a) + 4 * ptx a) (pte v.mem pgdir a) v e mapped nz
          f.page
        ∙ ap
            (λ t.
              some (record freed_page { mem = put_le 4 freed_page.mem (pte_addr t + 4 * ptx a) 0 }))
            (sym (dir_freed (pdx a) (omega arith)))
