-- ===== src/Vm/Ranges.antt =====
-- Ranges of a user's pages in vm.c, and what deallocuvm leaves of them.
use modified_xv.Base.{
  ℕ, ◌+◌, ◌*◌, ◌/◌, ◌^◌, ◌<◌, ◌≡◌, refl, sym, ap, ◌∙◌, arith, Bool, true, false, ◌&&◌, ◌||◌, ◌⊎◌,
  inl, inr, none, some, ◌∷◌, ◌==◌, ltb, leb, if◌then◌else◌, add32, has, Bool-cases,
}
use modified_xv.Fs.Bytes.{get_le, put_le}
use modified_xv.Memory.{kernbase, is_page}
use modified_xv.Vm.{Vm, pdx, ptx, is_present, pte_addr, fill, free_page, walkpgdir, drop_page}
use modified_xv.Vm.Space.{dir_entry, table, pte, IsFrame, IsPrivate, IsSpace}

-- The page of `x` is one of those from `lo` on that begin below `hi`.
abbrev pub in_range : ℕ → ℕ → ℕ → Bool
in_range lo hi x = leb lo x && ltb (x / 4096 * 4096) hi

abbrev pub is_mapped : (ℕ → ℕ) → ℕ → ℕ → Bool
is_mapped m pgdir x = is_present (pte m pgdir x)

abbrev pub frame_of : (ℕ → ℕ) → ℕ → ℕ → ℕ
frame_of m pgdir x = pte_addr (pte m pgdir x)

-- A page that is mapped in a range.
abbrev pub IsUsed : (ℕ → ℕ) → ℕ → ℕ → ℕ → ℕ → Type 0
IsUsed m pgdir lo hi p =
    (x : ℕ) × (x < 2 ^ 32)
    × (in_range lo hi x ≡ true)
    × (is_mapped m pgdir x ≡ true)
    × (frame_of m pgdir x ≡ p)

-- The pages mapped in a range are pages of their own, and no free ones.
pub record IsBacked (pgdir lo hi : ℕ) (v : Vm) : Type 0 where
  pub frame :
      (x : ℕ)
      → in_range lo hi x ≡ true
      → is_mapped v.mem pgdir x ≡ true
      → IsFrame v.bounds (frame_of v.mem pgdir x)
  pub own :
      (x : ℕ)
      → in_range lo hi x ≡ true
      → is_mapped v.mem pgdir x ≡ true
      → IsPrivate v.mem pgdir (frame_of v.mem pgdir x)
  pub in_use :
      (x : ℕ)
      → in_range lo hi x ≡ true
      → is_mapped v.mem pgdir x ≡ true
      → has (frame_of v.mem pgdir x) v.free ≡ false
  pub distinct :
      (x y : ℕ)
      → in_range lo hi x ≡ true
      → in_range lo hi y ≡ true
      → is_mapped v.mem pgdir x ≡ true
      → is_mapped v.mem pgdir y ≡ true
      → frame_of v.mem pgdir x ≡ frame_of v.mem pgdir y
      → x / 4096 ≡ y / 4096

-- The entries `f` without the pages of a range.
abbrev pub cleared : (ℕ → ℕ) → ℕ → ℕ → ℕ → ℕ
cleared f lo hi x = if in_range lo hi x && is_present (f x) then 0 else f x

-- The pages of a range are unmapped and free, and nothing else has changed.
pub record IsCleared (pgdir lo hi : ℕ) (v v' : Vm) : Type 0 where
  pub space : IsSpace pgdir v'
  pub entries : (x : ℕ) → x < 2 ^ 32 → pte v'.mem pgdir x ≡ cleared (pte v.mem pgdir) lo hi x
  pub bounds_kept : v'.bounds ≡ v.bounds
  pub tables_kept : (d : ℕ) → d < 1024 → dir_entry v'.mem pgdir d ≡ dir_entry v.mem pgdir d
  pub still_free : (p : ℕ) → has p v.free ≡ true → has p v'.free ≡ true
  pub freed :
      (x : ℕ)
      → x < 2 ^ 32
      → in_range lo hi x ≡ true
      → is_mapped v.mem pgdir x ≡ true
      → has (frame_of v.mem pgdir x) v'.free ≡ true
  pub no_more :
      (p : ℕ)
      → has p v'.free ≡ true
      → (has p v.free ≡ true)
        ⊎ ((x : ℕ) × (x < 2 ^ 32)
            × (in_range lo hi x ≡ true)
            × (is_mapped v.mem pgdir x ≡ true)
            × (frame_of v.mem pgdir x ≡ p))

pub pte_page : (m : ℕ → ℕ) (pgdir x y : ℕ) → x / 4096 ≡ y / 4096 → pte m pgdir x ≡ pte m pgdir y
pte_page m pgdir x y e =
    let d : pdx x ≡ pdx y = omega (arith, e) in
    let t : ptx x ≡ ptx y = omega (arith, e) in rw (d, t) refl

pub drop_page_run :
    (at e : ℕ) (v : Vm)
    → get_le 4 v.mem at ≡ e
    → is_present e ≡ true
    → (pte_addr e == 0) ≡ false
    → is_page v.bounds (add32 (pte_addr e) kernbase) ≡ true
    → drop_page at v
      ≡ some
          (record v { mem = put_le 4 (fill (pte_addr e) 1 v.mem) at 0; free = pte_addr e ∷ v.free })
unfolding drop_page free_page
drop_page_run at e v q p nz ok = rw (q, p, nz, ok) refl

pub drop_page_skip :
    (at e : ℕ) (v : Vm) → get_le 4 v.mem at ≡ e → is_present e ≡ false → drop_page at v ≡ some v
unfolding drop_page
drop_page_skip at e v q p = rw (q, p) refl

pub walk_found :
    (pgdir a : ℕ) (v : Vm)
    → is_present (dir_entry v.mem pgdir (pdx a)) ≡ true
    → walkpgdir pgdir a false v ≡ (some (table v.mem pgdir (pdx a) + 4 * ptx a), v)
unfolding walkpgdir
walk_found pgdir a v p = rw (walkpgdir, p) refl

pub walk_gone :
    (pgdir a : ℕ) (v : Vm)
    → is_present (dir_entry v.mem pgdir (pdx a)) ≡ false
    → walkpgdir pgdir a false v ≡ (none, v)
unfolding walkpgdir
walk_gone pgdir a v p = rw (walkpgdir, p) refl

module _ (pgdir : ℕ) where
  -- Two parts of a range, one after the other.
  pub IsCleared-trans :
      (lo m n hi : ℕ) (v v1 v2 : Vm)
      → ((x : ℕ) → in_range lo hi x ≡ (in_range lo m x || in_range n hi x))
      → ((x : ℕ) → in_range n hi x ≡ true → in_range lo m x ≡ false)
      → IsCleared pgdir lo m v v1
      → IsCleared pgdir n hi v1 v2
      → IsCleared pgdir lo hi v v2
  IsCleared-trans lo m n hi v v1 v2 parts apart f g = record {
    space = g.space;
    entries = λ x lt. g.entries x lt ∙ twice x (f.entries x lt);
    bounds_kept = g.bounds_kept ∙ f.bounds_kept;
    tables_kept = λ d lt. g.tables_kept d lt ∙ f.tables_kept d lt;
    still_free = λ p h. g.still_free p (f.still_free p h);
    freed = λ x lt r p. elim (Bool-cases (in_range lo m x)) [
      | inl q ↦ g.still_free (frame_of v.mem pgdir x) (f.freed x lt q p)
      | inr q ↦
          let e = f.entries x lt ∙ outside x q in
          let r' : in_range n hi x ≡ true = ground (arith, parts x, r, q) in
          ap (λ t. has (pte_addr t) v2.free) (sym e) ∙ g.freed x lt r' (ap is_present e ∙ p)
    ];
    no_more = λ p h. elim (g.no_more p h) [
      | inl q ↦ elim (f.no_more p q) [
        | inl z ↦ inl z
        | inr (x, lt, r, mp, e) ↦ inr (x, lt, rw (parts x, r) refl, mp, e)
      ]
      | inr (x, lt, r, mp, e) ↦
          let q = f.entries x lt ∙ outside x (apart x r) in
          inr (
            x,
            lt,
            rw (parts x, r) (ground arith),
            ap is_present (sym q) ∙ mp,
            ap pte_addr (sym q) ∙ e,
          )
    ];
  }
    where
      outside :
          (x : ℕ) → in_range lo m x ≡ false → cleared (pte v.mem pgdir) lo m x ≡ pte v.mem pgdir x
      outside x q = rw q refl

      twice :
          (x : ℕ)
          → pte v1.mem pgdir x ≡ cleared (pte v.mem pgdir) lo m x
          → cleared (pte v1.mem pgdir) n hi x ≡ cleared (pte v.mem pgdir) lo hi x
      twice x e = elim (Bool-cases (in_range lo m x)) [
        | inl q ↦ elim (Bool-cases (in_range n hi x)) [
          | inl r ↦ ground (arith, apart x r, q)
          | inr r ↦
              let w : in_range lo hi x ≡ true = parts x ∙ rw q refl in rw (r, w) (e ∙ rw q refl)
        ]
        | inr q ↦
            let w : in_range lo hi x ≡ in_range n hi x = parts x ∙ rw q refl in
            let e' : pte v1.mem pgdir x ≡ pte v.mem pgdir x = e ∙ rw q refl in rw (w, e') refl
      ]

  pub IsCleared-refl :
      (lo hi : ℕ) (v : Vm)
      → IsSpace pgdir v
      → ((x : ℕ) → in_range lo hi x ≡ true → is_mapped v.mem pgdir x ≡ false)
      → IsCleared pgdir lo hi v v
  IsCleared-refl lo hi v s none_of = record {
    space = s;
    entries = λ x lt. elim (Bool-cases (in_range lo hi x)) [
      | inl r ↦ (let p = none_of x r in rw (r, p) refl)
      | inr r ↦ rw r refl
    ];
    bounds_kept = refl;
    tables_kept = λ d lt. refl;
    still_free = λ p h. h;
    freed = λ x lt r p. let q = none_of x r in ground (arith, q, p);
    no_more = λ p h. inl h;
  }

  pub IsBacked-narrow :
      (lo hi n : ℕ) (v : Vm)
      → ((x : ℕ) → in_range n hi x ≡ true → in_range lo hi x ≡ true)
      → IsBacked pgdir lo hi v
      → IsBacked pgdir n hi v
  IsBacked-narrow lo hi n v wide b = record {
    frame = λ x r. b.frame x (wide x r);
    own = λ x r. b.own x (wide x r);
    in_use = λ x r. b.in_use x (wide x r);
    distinct = λ x y r r'. b.distinct x y (wide x r) (wide y r');
  }
