-- ===== src/Vm/Allocate.antt =====
-- The loop of allocuvm of vm.c.
use modified_xv.Base.{
  ℕ, zero, suc, ◌+◌, ◌-◌, ◌*◌, ◌/◌, ◌%◌, ◌^◌, ◌≤◌, ◌<◌, ◌≡◌, refl, sym, ap, ◌∙◌, arith, Bool, true,
  false, inl, inr, Option, none, some, List, [], ◌∷◌, ltb, leb, if◌then◌else◌, add32, Bool-cases,
  ◌>>=◌,
}
use modified_xv.Memory.{kernbase, round_up}
use modified_xv.Vm.{
  Vm, pdx, is_present, mappages, deallocuvm, grow_page, give_back, grow_pages, allocuvm,
}
use modified_xv.Vm.Space.{IsSpace, dir_entry}
use modified_xv.Vm.Leaves.{IsMapped}
use modified_xv.Vm.Mapping.{Maps, mappages_lem}
use modified_xv.Vm.Ranges.{in_range, is_mapped}
use modified_xv.Vm.Grow.{
  IsGrown, IsGrown-none, IsGrown-more, taken, frame, dir_taken, pte_taken, IsSpace-taken,
}
use modified_xv.Vm.Undo.{
  Grows, IsExhausted, IsGrown-range, undo, undone_inside, undone_outside, undone_accounted,
}
use modified_xv.Vm.Failure.{absent, back_same, kept_same, give_back_lem}

module _ (pgdir oldsz newsz : ℕ) (v0 : Vm) (order : oldsz ≤ newsz) (limit : newsz < kernbase)
    (unused : (x : ℕ)
      → in_range (round_up oldsz) newsz x ≡ true
      → is_mapped v0.mem pgdir x ≡ false) where
  abbrev lo : ℕ
  lo = round_up oldsz

  -- A page that could not be mapped.
  module _ (a : ℕ) (v : Vm) (g : IsGrown pgdir lo a v0 v) (page : ℕ) (rest : List ℕ)
      (eq : v.free ≡ page ∷ rest) (whole : a % 4096 ≡ 0) (from : lo ≤ a) (below : a < newsz) where
    low : a < 2 ^ 31
    low = omega (arith, below, limit)

    -- The page at hand was the last one, and there is no page table for it.
    exhausted :
        (v1 : Vm) (j : ℕ)
        → j ≡ 0
        → IsMapped pgdir a j page 6 (taken pgdir lo a v0 v g page rest eq whole low from) v1
        → v1.free ≡ []
        → is_present (dir_entry v1.mem pgdir (pdx (a + 4096 * j))) ≡ false
        → IsExhausted pgdir lo newsz v0
    exhausted v1 j z m no_free gone = elim m.start [
      | inr more ↦ absurd (omega (arith, z, more))
      | inl (z', same) ↦
          let t = taken pgdir lo a v0 v g page rest eq whole low from in
          let here : a + 4096 * j ≡ a = omega (arith, z) in
          let dir : dir_entry v1.mem pgdir (pdx a) ≡ dir_entry v.mem pgdir (pdx a) =
            ap (λ (w : Vm). dir_entry w.mem pgdir (pdx a)) same
            ∙ dir_taken pgdir lo a v0 v g page rest eq whole low from (pdx a) (omega arith) in
          record {
            next = a;
            last = v;
            inside = (whole, from, below);
            grown = g;
            none_left = inr (
              page,
              eq ∙ ap (λ xs. page ∷ xs) (sym (ap (λ (w : Vm). w.free) same) ∙ no_free),
              ap is_present (sym dir) ∙ (rw here at gone),
            );
          }
    ]

    -- One page, after the call of `mappages`.
    after_map :
        (next : Vm → Option (ℕ × Vm))
        → ((v2 : Vm) → IsGrown pgdir lo (a + 4096) v0 v2 → Grows pgdir lo newsz v0 (next v2))
        → (r : Option (Bool × Vm))
        → Maps pgdir a 0 page 6 (taken pgdir lo a v0 v g page rest eq whole low from) r
        → Grows pgdir lo newsz v0 (
            (r >>= λ (ok, v1). some (ok, some page, v1)) >>= λ (ok, p, v1). elim ok [
              | true ↦ next v1
              | false ↦ deallocuvm pgdir newsz oldsz v1 >>= λ (sz, v2). give_back p v2
            ])
    after_map next ih none (j, le, p) =
        let z : a + 4096 * j ≡ a = omega (arith, le) in
        let q : is_mapped v.mem pgdir a ≡ true =
          ap is_present (sym (pte_taken pgdir lo a v0 v g page rest eq whole low from a))
          ∙ (rw z at p) in
        ground (
          arith,
          absent pgdir oldsz newsz v0 order limit unused a v g page rest eq whole from below,
          q,
        )
    after_map next ih (some (true, v1)) m =
        ih v1 (IsGrown-more pgdir lo a v0 v g page rest eq whole low from v1 m)
    after_map next ih (some (false, v1)) (no_free, j, le, m, gone) =
        let z : j ≡ 0 = omega (arith, le) in
        let (w', e, c) =
          undo pgdir oldsz newsz v0 order limit unused a v1 m.space
            (back_same pgdir oldsz newsz v0 order limit unused a v g page rest eq whole from below
              v1 j z m no_free)
            from below
            (kept_same pgdir oldsz newsz v0 order limit unused a v g page rest eq whole from below
              v1 j z m no_free) in
        rw e (
          give_back_lem pgdir oldsz newsz v0 order limit unused a v g page rest eq whole from below
            v1 j z m no_free w' c (exhausted v1 j z m no_free gone))

  module _ (a : ℕ) (v : Vm) (g : IsGrown pgdir lo a v0 v) (whole : a % 4096 ≡ 0) (from : lo ≤ a)
      (below : a < newsz) where
    round :
        (next : Vm → Option (ℕ × Vm))
        → ((v2 : Vm) → IsGrown pgdir lo (a + 4096) v0 v2 → Grows pgdir lo newsz v0 (next v2))
        → (xs : List ℕ) → v.free ≡ xs
        → Grows pgdir lo newsz v0 (
            grow_page pgdir a xs v >>= λ (ok, p, v1). elim ok [
              | true ↦ next v1
              | false ↦ deallocuvm pgdir newsz oldsz v1 >>= λ (sz, v2). give_back p v2
            ])
    unfolding grow_page give_back
    round next ih [] eq =
        let (w', e, c) =
          undo pgdir oldsz newsz v0 order limit unused a v g.space g.back from below g.outside in
        rw e (
          inr (
            refl,
            record {
              space = c.space;
              inside =
                  undone_inside pgdir oldsz newsz v0 order limit unused a v g.space g.back from
                    below g.outside w' c;
              outside =
                  undone_outside pgdir oldsz newsz v0 order limit unused a v g.space g.back from
                    below g.outside w' c;
              accounted = λ p h.
                  undone_accounted pgdir oldsz newsz v0 order limit unused a v g.space g.back from
                    below g.outside w' c p (g.accounted p h);
            },
            record {
              next = a;
              last = v;
              inside = (whole, from, below);
              grown = g;
              none_left = inl eq;
            },
          ))
    round next ih (page ∷ rest) eq =
        let top = low a v g page rest eq whole from below in
        let t = taken pgdir lo a v0 v g page rest eq whole top from in
        let f = frame pgdir lo a v0 v g page rest eq whole top from in
        let m =
          mappages_lem pgdir a 4096 page 6 t
            (IsSpace-taken pgdir lo a v0 v g page rest eq whole top from) (omega arith)
            (omega (arith, top)) f.whole (omega (arith, f.low, whole)) (omega arith) in
        let start : a / 4096 * 4096 ≡ a = omega (arith, whole) in
        let count : (a + 4096 - 1) / 4096 - a / 4096 ≡ 0 = omega (arith, whole) in
        let m' : Maps pgdir a 0 page 6 t (mappages pgdir a 4096 page 6 t) =
          rw (start, count) at m in
        after_map a v g page rest eq whole from below next ih (mappages pgdir a 4096 page 6 t) m'

  grow_pages_lem :
      (fuel a : ℕ) (v : Vm)
      → IsGrown pgdir lo a v0 v
      → a % 4096 ≡ 0
      → lo ≤ a
      → a < newsz + 4096
      → newsz ≤ a + 4096 * fuel
      → Grows pgdir lo newsz v0 (grow_pages fuel pgdir a oldsz newsz v)
  unfolding grow_pages
  grow_pages_lem zero a v g whole from near enough =
      let e : ltb a newsz ≡ false = ground (arith, enough) in
      rw e (
        inl
          (refl, IsGrown-range pgdir lo a newsz v0 v (λ x. ground (arith, whole, near, enough)) g))
  grow_pages_lem (suc fuel) a v g whole from near enough = elim (Bool-cases (ltb a newsz)) [
    | inr e ↦
        let done : newsz ≤ a = ground (arith, e) in
        rw (grow_pages, e)
          (inl
            (refl, IsGrown-range pgdir lo a newsz v0 v (λ x. ground (arith, whole, near, done)) g))
    | inl e ↦
        let below : a < newsz = ground (arith, e) in
        let step : add32 a 4096 ≡ a + 4096 = omega (arith, below, limit) in
        rw (grow_pages, e)
          (round a v g whole from below (grow_pages fuel pgdir (add32 a 4096) oldsz newsz)
            (λ v2 h. rw step (
              grow_pages_lem fuel (a + 4096) v2 h (omega (arith, whole)) (omega (arith, from))
                (omega (arith, below)) (omega (arith, enough))))
            v.free refl)
  ]

-- The results of `allocuvm`.
abbrev pub Allocates : ℕ → ℕ → ℕ → Vm → Option (ℕ × Vm) → Type 0
Allocates pgdir oldsz newsz v none = ⊥
Allocates pgdir oldsz newsz v (some (sz, v')) =
    if leb kernbase newsz
    then (sz ≡ 0) × (v' ≡ v)
    else if ltb newsz oldsz
    then (sz ≡ oldsz) × (v' ≡ v)
    else Grows pgdir (round_up oldsz) newsz v (some (sz, v'))

-- For a directory whose page tables and the free pages are pages apart, and no page mapped in the
-- new range: `allocuvm` does not panic and ends. A new size from KERNBASE on gives 0 and a smaller
-- one the old size, with no change. Else it returns the new size, with each page of the range
-- mapped for a user who may write to a free page of its own full of zeros, or 0, with no page of
-- the range mapped, and then only where after the first pages of the range were mapped no page was
-- left, or one and no page table for the next page. All other entries stay, and each page that was
-- free is free again, a page table now, or mapped in the range on success.
pub allocuvm_lem :
    (pgdir oldsz newsz : ℕ) (v : Vm)
    → IsSpace pgdir v
    → ((x : ℕ) → in_range (round_up oldsz) newsz x ≡ true → is_mapped v.mem pgdir x ≡ false)
    → Allocates pgdir oldsz newsz v (allocuvm pgdir oldsz newsz v)
unfolding allocuvm
allocuvm_lem pgdir oldsz newsz v s unused = elim (Bool-cases (leb kernbase newsz)) [
  | inl e ↦ rw (allocuvm, e, e) (refl, refl)
  | inr e ↦ elim (Bool-cases (ltb newsz oldsz)) [
    | inl q ↦ rw (allocuvm, e, q, e, q) (refl, refl)
    | inr q ↦
        let limit : newsz < kernbase = ground (arith, e) in
        let order : oldsz ≤ newsz = ground (arith, q) in
        let whole : round_up oldsz % 4096 ≡ 0 = omega arith in
        let h =
          grow_pages_lem pgdir oldsz newsz v order limit unused (2 ^ 20) (round_up oldsz) v
            (IsGrown-none pgdir (round_up oldsz) v whole s) whole (omega arith)
            (omega (arith, order, limit)) (omega (arith, limit)) in
        rw (allocuvm, e, q)
          (answer e q (grow_pages (2 ^ 20) pgdir (round_up oldsz) oldsz newsz v) h)
  ]
]
  where
    answer :
        leb kernbase newsz ≡ false
        → ltb newsz oldsz ≡ false
        → (r : Option (ℕ × Vm)) → Grows pgdir (round_up oldsz) newsz v r
        → Allocates pgdir oldsz newsz v r
    answer e q none h = h
    answer e q (some (sz, v')) h = rw (e, q) h
