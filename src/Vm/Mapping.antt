-- ===== src/Vm/Mapping.antt =====
-- mappages of vm.c: the entries of a range of pages.
use modified_xv.Base.{
  ℕ, zero, suc, ◌+◌, ◌-◌, ◌*◌, ◌/◌, ◌%◌, ◌^◌, ◌≤◌, ◌<◌, ◌≡◌, refl, sym, ap, ◌∙◌, arith, Bool, true,
  false, ◌&&◌, inl, inr, Option, none, some, [], ◌==◌, ltb, leb, add32, sub32, Bool-cases, ◌>>=◌,
}
use modified_xv.Vm.{Vm, pdx, is_present, walkpgdir, leaf, set_leaf, map_pages, mappages, round_down}
use modified_xv.Vm.Space.{dir_entry, pte, IsSpace}
use modified_xv.Vm.Walk.{walkpgdir_lem}
use modified_xv.Vm.Leaves.{mapped, IsMapped, MapsPage, set_leaf_lem, IsMapped-more, IsMapped-none}

-- The pages from that of `va` to that of the last byte of the range, less one.
abbrev pub more_pages : ℕ → ℕ → ℕ
more_pages va size = (va + size - 1) / 4096 - va / 4096

module _ (pgdir : ℕ) where
  -- The results of `mappages` for `k` pages and one.
  abbrev pub Maps : ℕ → ℕ → ℕ → ℕ → Vm → Option (Bool × Vm) → Type 0
  Maps a k pa perm v none = (j : ℕ) × (j ≤ k) × (is_present (pte v.mem pgdir (a + 4096 * j)) ≡ true)
  Maps a k pa perm v (some (false, v')) =
      (v'.free ≡ [])
      × (j : ℕ) × (j ≤ k)
      × IsMapped pgdir a j pa perm v v'
      × (is_present (dir_entry v'.mem pgdir (pdx (a + 4096 * j))) ≡ false)
  Maps a k pa perm v (some (true, v')) = IsMapped pgdir a (suc k) pa perm v v'

  -- The rounds after the first page.
  Maps-more :
      (a k pa perm : ℕ) (v v1 : Vm) (r : Option (Bool × Vm))
      → IsMapped pgdir a 1 pa perm v v1
      → a + 4096 + 4096 * k < 2 ^ 32
      → Maps (a + 4096) k (pa + 4096) perm v1 r
      → Maps a (suc k) pa perm v r
  Maps-more a k pa perm v v1 none h top (j, le, p) =
      let place : a + 4096 + 4096 * j ≡ a + 4096 * suc j = omega arith in
      let off : mapped (pte v.mem pgdir) a 1 pa perm (a + 4096 * suc j)
          ≡ pte v.mem pgdir (a + 4096 * suc j) =
        past (a + 4096 * suc j) (omega arith) in
      (
        suc j,
        omega (arith, le),
        ap is_present (sym (h.entries (a + 4096 * suc j) (omega (arith, top, le)) ∙ off))
            ∙ (rw place at p),
      )
    where
      past :
          (x : ℕ)
          → a / 4096 + 1 ≤ x / 4096
          → mapped (pte v.mem pgdir) a 1 pa perm x ≡ pte v.mem pgdir x
      past x le =
          let t : (leb (a / 4096) (x / 4096) && ltb (x / 4096) (a / 4096 + 1)) ≡ false =
            ground (arith, le) in
          rw t refl
  Maps-more a k pa perm v v1 (some (false, v2)) h top (e, j, le, g, gone) =
      let place : a + 4096 + 4096 * j ≡ a + 4096 * suc j = omega arith in
      (e, suc j, omega (arith, le), IsMapped-more pgdir a j pa perm v v1 v2 h g, rw place at gone)
  Maps-more a k pa perm v v1 (some (true, v2)) h top g =
      IsMapped-more pgdir a (suc k) pa perm v v1 v2 h g

  map_pages_lem :
      (fuel k a last pa perm : ℕ) (v : Vm)
      → IsSpace pgdir v
      → k < fuel
      → last ≡ a + 4096 * k
      → last < 2 ^ 32
      → pa + 4096 * k + 4096 ≤ 2 ^ 32
      → pa % 4096 ≡ 0
      → perm < 4096
      → Maps a k pa perm v (map_pages fuel pgdir a last pa perm v)
  unfolding map_pages
  map_pages_lem zero k a last pa perm v s lt eq top room whole flags = absurd (omega (arith, lt))
  map_pages_lem (suc fuel) k a last pa perm v s lt eq top room whole flags =
      round (map_pages fuel pgdir (add32 a 4096) last (add32 pa 4096) perm)
        (λ n z v1 h.
          let a1 : add32 a 4096 ≡ a + 4096 = omega (arith, z, eq, top) in
          let pa1 : add32 pa 4096 ≡ pa + 4096 = omega (arith, z, room) in
          rw (a1, pa1)
            (map_pages_lem fuel n (a + 4096) last (pa + 4096) perm v1 h.space (omega (arith, z, lt))
              (omega (arith, z, eq)) top (omega (arith, z, room)) (omega (arith, whole)) flags))
        (set_leaf pa perm (walkpgdir pgdir a true v))
        (set_leaf_lem pgdir a pa perm v (walkpgdir pgdir a true v) (walkpgdir_lem pgdir a v s)
          (omega (arith, eq, top)) small)
    where
      small : leaf pa perm < 2 ^ 32
      small = ground arith

      round :
          (next : Vm → Option (Bool × Vm))
          → ((n : ℕ)
              → k ≡ suc n
              → (v1 : Vm) → IsMapped pgdir a 1 pa perm v v1
              → Maps (a + 4096) n (pa + 4096) perm v1 (next v1))
          → (r : Option (Bool × Vm)) → MapsPage pgdir a pa perm v r
          → Maps a k pa perm v (
              r >>= λ (ok, v1). elim ok [
                | false ↦ some (false, v1)
                | true ↦ elim (a == last) [ true ↦ some (true, v1) | false ↦ next v1 ]
              ])
      round next ih none p = let z : a + 4096 * 0 ≡ a = omega arith in (0, omega arith, rw z p)
      round next ih (some (false, v1)) (same, e, gone) =
          let z : a + 4096 * 0 ≡ a = omega arith in
          (
            ap (λ (w : Vm). w.free) same ∙ e,
            0,
            omega arith,
            rw same (IsMapped-none pgdir a pa perm v s),
            rw (same, z) gone,
          )
      round next ih (some (true, v1)) h = elim (Bool-cases (a == last)) [
        | inl q ↦ let z : k ≡ 0 = ground (arith, q, eq) in rw (◌>>=◌, q, z) h
        | inr q ↦
            let z : k ≡ suc (k - 1) = ground (arith, q, eq) in
            let t : a + 4096 + 4096 * (k - 1) < 2 ^ 32 = omega (arith, z, eq, top) in
            let m : Maps a (suc (k - 1)) pa perm v (next v1) =
              Maps-more a (k - 1) pa perm v v1 (next v1) h t (ih (k - 1) z v1 h) in
            rw (◌>>=◌, q, z) m
      ]

  -- For a directory whose page tables and the free pages are pages apart, a range of 1 byte or
  -- more below 2 ^ 32, the address of a page and flags below 4096, where the pages from it on are
  -- below 2 ^ 32: `mappages` maps every page of the range and returns 0, or it returns -1 only
  -- with no page free and no page table for the page that is next, the first pages mapped, or it
  -- panics only where a page of the range is mapped already. All other entries stay, the page
  -- tables are apart again, and the pages no longer free are page tables.
  pub mappages_lem :
      (va size pa perm : ℕ) (v : Vm)
      → IsSpace pgdir v
      → 1 ≤ size
      → va + size ≤ 2 ^ 32
      → pa % 4096 ≡ 0
      → pa + 4096 * more_pages va size + 4096 ≤ 2 ^ 32
      → perm < 4096
      → Maps (round_down va) (more_pages va size) pa perm v (mappages pgdir va size pa perm v)
  unfolding mappages
  mappages_lem va size pa perm v s pos top whole room flags =
      let wrap : sub32 (add32 va size) 1 ≡ va + size - 1 = omega (arith, pos, top) in
      rw wrap (
        map_pages_lem (2 ^ 20) (more_pages va size) (round_down va) (round_down (va + size - 1)) pa
          perm v s (omega (arith, top)) (omega (arith, pos)) (omega (arith, pos, top)) room whole
          flags)
