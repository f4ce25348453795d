-- ===== src/Vm/Undo.antt =====
-- The calls of deallocuvm in allocuvm of vm.c.
use modified_xv.Base.{
  ℕ, ◌*◌, ◌/◌, ◌^◌, ◌≤◌, ◌<◌, ◌≡◌, refl, sym, ap, ◌∙◌, arith, true, false, ◌&&◌, ◌⊎◌, inl, inr,
  Option, none, some, [], ◌∷◌, ◌%◌, leb, has, if◌then◌else◌, Bool-cases,
}
use modified_xv.Memory.{kernbase, round_up}
use modified_xv.Vm.{Vm, pdx, is_present, deallocuvm}
use modified_xv.Vm.Space.{dir_entry, pte, IsSpace, IsTable, IsTable-same}
use modified_xv.Vm.Ranges.{in_range, is_mapped, IsBacked, IsCleared, IsUsed}
use modified_xv.Vm.Unmap.{Deallocates, deallocuvm_lem}
use modified_xv.Vm.Grow.{IsGrown}

-- Nothing is mapped in the range, and nothing else has changed but that free pages may have become
-- page tables.
pub record IsRestored (pgdir lo hi : ℕ) (v v' : Vm) : Type 0 where
  pub space : IsSpace pgdir v'
  pub inside : (x : ℕ) → x < 2 ^ 32 → in_range lo hi x ≡ true → is_mapped v'.mem pgdir x ≡ false
  pub outside :
      (x : ℕ) → x < 2 ^ 32 → in_range lo hi x ≡ false → pte v'.mem pgdir x ≡ pte v.mem pgdir x
  pub accounted : (p : ℕ) → has p v.free ≡ true → (has p v'.free ≡ true) ⊎ IsTable v'.mem pgdir p

IsBacked-wide :
    (pgdir lo a hi : ℕ) (v : Vm)
    → IsBacked pgdir lo a v
    → ((x : ℕ) → in_range lo hi x ≡ true → is_mapped v.mem pgdir x ≡ true → in_range lo a x ≡ true)
    → IsBacked pgdir lo hi v
IsBacked-wide pgdir lo a hi v b only = record {
  frame = λ x r p. b.frame x (only x r p) p;
  own = λ x r p. b.own x (only x r p) p;
  in_use = λ x r p. b.in_use x (only x r p) p;
  distinct = λ x y r r' p p' q. b.distinct x y (only x r p) (only y r' p') p p' q;
}

-- After the first pages of the range were mapped no page was left, or one and no page table for
-- the page that was next.
pub record IsExhausted (pgdir lo hi : ℕ) (v : Vm) : Type 0 where
  pub next : ℕ
  pub last : Vm
  pub inside : (next % 4096 ≡ 0) × (lo ≤ next) × (next < hi)
  pub grown : IsGrown pgdir lo next v last
  pub none_left :
      (last.free ≡ [])
      ⊎ ((page : ℕ) × (last.free ≡ page ∷ [])
          × (is_present (dir_entry last.mem pgdir (pdx next)) ≡ false))

-- The results of the loop of `allocuvm`.
abbrev pub Grows : ℕ → ℕ → ℕ → Vm → Option (ℕ × Vm) → Type 0
Grows pgdir lo newsz v0 none = ⊥
Grows pgdir lo newsz v0 (some (sz, v')) =
    ((sz ≡ newsz) × IsGrown pgdir lo newsz v0 v')
    ⊎ ((sz ≡ 0) × IsRestored pgdir lo newsz v0 v' × IsExhausted pgdir lo newsz v0)

pub IsGrown-range :
    (pgdir lo a hi : ℕ) (v0 v : Vm)
    → ((x : ℕ) → in_range lo hi x ≡ in_range lo a x)
    → IsGrown pgdir lo a v0 v
    → IsGrown pgdir lo hi v0 v
IsGrown-range pgdir lo a hi v0 v same g = record {
  space = g.space;
  bounds_kept = g.bounds_kept;
  outside = λ x lt r. g.outside x lt (sym (same x) ∙ r);
  filled = λ x r. g.filled x (sym (same x) ∙ r);
  fresh = λ x r. g.fresh x (sym (same x) ∙ r);
  zeroed = λ x o r. g.zeroed x o (sym (same x) ∙ r);
  back = IsBacked-wide pgdir lo a hi v g.back (λ x r p. sym (same x) ∙ r);
  fewer = g.fewer;
  accounted = λ p h. elim (g.accounted p h) [
    | inl z ↦ inl z
    | inr (inl z) ↦ inr (inl z)
    | inr (inr (x, lt, r, mp, q)) ↦ inr (inr (x, lt, same x ∙ r, mp, q))
  ];
}

module _ (pgdir oldsz newsz : ℕ) (v0 : Vm) (order : oldsz ≤ newsz) (limit : newsz < kernbase)
    (unused : (x : ℕ)
      → in_range (round_up oldsz) newsz x ≡ true
      → is_mapped v0.mem pgdir x ≡ false) where
  abbrev lo : ℕ
  lo = round_up oldsz

  -- The undoing, where the pages up to `a` are mapped.
  module _ (a : ℕ) (w : Vm) (s : IsSpace pgdir w) (b : IsBacked pgdir lo a w) (from : lo ≤ a)
      (below : a < newsz)
      (kept : (x : ℕ)
        → x < 2 ^ 32
        → in_range lo a x ≡ false
        → pte w.mem pgdir x ≡ pte v0.mem pgdir x) where
    pub only :
        (x : ℕ)
        → in_range lo newsz x ≡ true
        → is_mapped w.mem pgdir x ≡ true
        → in_range lo a x ≡ true
    only x r p = elim (Bool-cases (in_range lo a x)) [
      | inl q ↦ q
      | inr q ↦
          let z : x / 4096 * 4096 < newsz = ground (arith, r) in
          let e = kept x (omega (arith, z, limit)) q in
          let u = unused x r in ground (arith, u, ap is_present (sym e) ∙ p)
    ]

    pub undo :
        (w' : Vm) × (deallocuvm pgdir newsz oldsz w ≡ some (oldsz, w'))
        × IsCleared pgdir lo newsz w w'
    undo = found (deallocuvm pgdir newsz oldsz w) refl (
        deallocuvm_lem pgdir newsz oldsz w s (IsBacked-wide pgdir lo a newsz w b only)
          (omega (arith, limit)))
      where
        found :
            (r : Option (ℕ × Vm))
            → deallocuvm pgdir newsz oldsz w ≡ r
            → Deallocates pgdir newsz oldsz w r
            → (w' : Vm) × (deallocuvm pgdir newsz oldsz w ≡ some (oldsz, w'))
              × IsCleared pgdir lo newsz w w'
        found none e d = absurd d
        found (some (sz, w')) e d =
            let f : leb newsz oldsz ≡ false = ground (arith, from, below, order, limit) in
            let (q, c) = rw f at d in (w', rw q at e, c)

    module _ (w' : Vm) (c : IsCleared pgdir lo newsz w w') where
      pub undone_inside :
          (x : ℕ) → x < 2 ^ 32 → in_range lo newsz x ≡ true → is_mapped w'.mem pgdir x ≡ false
      undone_inside x lt r = ap is_present (c.entries x lt) ∙ gone
        where
          gone :
              is_present
                (if in_range lo newsz x && is_mapped w.mem pgdir x then 0 else pte w.mem pgdir x)
              ≡ false
          gone = elim (Bool-cases (is_mapped w.mem pgdir x)) [
            | inl p ↦ rw (r, p) refl
            | inr p ↦ rw (r, p) p
          ]

      pub undone_outside :
          (x : ℕ)
          → x < 2 ^ 32
          → in_range lo newsz x ≡ false
          → pte w'.mem pgdir x ≡ pte v0.mem pgdir x
      undone_outside x lt r = c.entries x lt ∙ rw r (kept x lt (ground (arith, r, below)))

      -- A page that was free, became a page table or was mapped.
      pub undone_accounted :
          (p : ℕ)
          → (has p w.free ≡ true) ⊎ (IsTable w.mem pgdir p ⊎ IsUsed w.mem pgdir lo a p)
          → (has p w'.free ≡ true) ⊎ IsTable w'.mem pgdir p
      undone_accounted p (inl z) = inl (c.still_free p z)
      undone_accounted p (inr (inl z)) = inr (IsTable-same pgdir w.mem w'.mem c.tables_kept p z)
      undone_accounted p (inr (inr (x, lt, r, mp, q))) =
          let r' : in_range lo newsz x ≡ true = ground (arith, r, below) in
          inl (ap (λ t. has t w'.free) (sym q) ∙ c.freed x lt r' mp)
