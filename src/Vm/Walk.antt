-- ===== src/Vm/Walk.antt =====
-- walkpgdir of vm.c: the entry that it finds, and the page table that it makes.
use modified_xv.Base.{
  ℕ, ◌+◌, ◌*◌, ◌%◌, ◌≤◌, ◌<◌, ◌≡◌, ◌≢◌, refl, sym, ap, ◌∙◌, arith, true, false, ◌⊎◌, inl, inr,
  Option, none, some, List, [], ◌∷◌, ◌==◌, ==_iff, ==_refl, ltb, leb, has, NoDup, Bool-cases,
}
use modified_xv.Fs.Bytes.{
  get_le, put_le, get_le-put_le, get_le-put_le_other, get_le-congr, get_le-zero,
}
use modified_xv.Vm.{Vm, pdx, ptx, is_present, pte_addr, fill, new_table, walkpgdir}
use modified_xv.Vm.Space.{
  IsTable, pages_apart, dir_entry, table, pte, IsFrame, IsPrivate, IsSpace, Within-fill,
  Within-put_le, read_apart, dir_entry-private,
}
use modified_xv.Vm.Entries.{slots_apart}

-- What `walkpgdir` does for address `va`: the entry it gives, and the page it takes.
pub record IsWalked (pgdir va : ℕ) (v : Vm) (at : ℕ) (v' : Vm) : Type 0 where
  pub space : IsSpace pgdir v'
  pub there : is_present (dir_entry v'.mem pgdir (pdx va)) ≡ true
  pub place : at ≡ table v'.mem pgdir (pdx va) + 4 * ptx va
  pub entries : (a : ℕ) → pte v'.mem pgdir a ≡ pte v.mem pgdir a
  pub bounds_kept : v'.bounds ≡ v.bounds
  pub taken : (v'.free ≡ v.free) ⊎ ((t : ℕ) × (v.free ≡ t ∷ v'.free))
  pub accounted : (p : ℕ) → has p v.free ≡ true → (has p v'.free ≡ true) ⊎ IsTable v'.mem pgdir p
  pub tables_stay : (p : ℕ) → IsTable v.mem pgdir p → IsTable v'.mem pgdir p
  pub private_kept :
      (p : ℕ) → IsPrivate v.mem pgdir p → has p v.free ≡ false → IsPrivate v'.mem pgdir p
  pub others :
      (q o : ℕ)
      → IsPrivate v.mem pgdir q
      → q % 4096 ≡ 0
      → has q v.free ≡ false
      → q ≤ o
      → o < q + 4096
      → v'.mem o ≡ v.mem o

-- The making of a page table for an address that has none.
module _ (pgdir va page : ℕ) (rest : List ℕ) (v : Vm) (s : IsSpace pgdir v)
    (eq : v.free ≡ page ∷ rest) (gone : is_present (dir_entry v.mem pgdir (pdx va)) ≡ false) where
  listed : has page v.free ≡ true
  listed = ap (has page) eq ∙ ground (arith, ==_refl page)

  frame : IsFrame v.bounds page
  frame = s.free_frame page listed

  own : IsPrivate v.mem pgdir page
  own = s.free_private page listed

  abbrev blank : ℕ → ℕ
  blank = fill page 0 v.mem

  abbrev linked : ℕ → ℕ
  linked = put_le 4 blank (pgdir + 4 * pdx va) (page + 7)

  entry_new : dir_entry linked pgdir (pdx va) ≡ page + 7
  entry_new = get_le-put_le 4 blank (pgdir + 4 * pdx va) (page + 7) (omega (arith, frame.low))

  entry_old :
      (d : ℕ)
      → d < 1024
      → (d == pdx va) ≡ false
      → dir_entry linked pgdir d ≡ dir_entry v.mem pgdir d
  entry_old d lt ne =
      get_le-put_le_other 4 4 blank (pgdir + 4 * pdx va) (page + 7) (pgdir + 4 * d)
        (slots_apart pgdir d (pdx va) (λ q. ground (arith, ne, q)))
      ∙ dir_entry-private pgdir page v.mem blank s.whole frame.whole own (Within-fill page 0 v.mem)
          d lt

  table_new : pte_addr (page + 7) ≡ page
  table_new = omega (arith, frame.whole)

  is_new : is_present (page + 7) ≡ true
  is_new = ground (arith, frame.whole)

  -- The entries read in a table other than the new one.
  read_kept :
      (base i : ℕ)
      → base % 4096 ≡ 0
      → base ≢ pgdir
      → page ≢ base
      → i < 1024
      → get_le 4 linked (base + 4 * i) ≡ get_le 4 v.mem (base + 4 * i)
  read_kept base i a ne ne' lt =
      read_apart blank linked pgdir base i a s.whole (λ q. ne (sym q)) lt
        (Within-put_le pgdir (pdx va) (page + 7) blank (omega arith))
      ∙ read_apart v.mem blank page base i a frame.whole ne' lt (Within-fill page 0 v.mem)

  zero_there : (i : ℕ) → i < 1024 → get_le 4 linked (page + 4 * i) ≡ 0
  zero_there i lt =
      read_apart blank linked pgdir page i frame.whole s.whole (λ q. own.not_dir (sym q)) lt
        (Within-put_le pgdir (pdx va) (page + 7) blank (omega arith))
      ∙ get_le-congr 4 blank (λ o. 0) (page + 4 * i)
          (λ o x y.
            let p : leb page o ≡ true = ground (arith, x) in
            let q : ltb o (page + 4096) ≡ true = ground (arith, y, lt) in rw (p, q) refl)
      ∙ get_le-zero 4 (λ o. 0) (page + 4 * i) (λ o. refl)

  entries_kept : (a : ℕ) → pte linked pgdir a ≡ pte v.mem pgdir a
  entries_kept a = elim (Bool-cases (pdx a == pdx va)) [
    | inl e ↦
        let d : pdx a ≡ pdx va = (==_iff _ _).0 e in
        rw (d, entry_new, is_new, table_new, gone) (zero_there (ptx a) (omega arith))
    | inr e ↦
        let k = entry_old (pdx a) (omega arith) e in
        elim (Bool-cases (is_present (dir_entry v.mem pgdir (pdx a)))) [
          | inr p ↦ rw (k, p) refl
          | inl p ↦
              rw (k, p)
                (read_kept (table v.mem pgdir (pdx a)) (ptx a) (omega arith)
                  (s.apart (pdx a) (omega arith) p) (own.not_table (pdx a) (omega arith) p)
                  (omega arith))
        ]
  ]

  -- The directory entries, each an old one or the new one.
  table_cases :
      (d : ℕ)
      → d < 1024
      → is_present (dir_entry linked pgdir d) ≡ true
      → ((d ≡ pdx va) × (table linked pgdir d ≡ page))
        ⊎ ((is_present (dir_entry v.mem pgdir d) ≡ true)
            × (table linked pgdir d ≡ table v.mem pgdir d))
  table_cases d lt p = elim (Bool-cases (d == pdx va)) [
    | inl e ↦
        let q : d ≡ pdx va = (==_iff _ _).0 e in
        inl (q, ap (table linked pgdir) q ∙ ap pte_addr entry_new ∙ table_new)
    | inr e ↦ inr (rw (entry_old d lt e) at p, ap pte_addr (entry_old d lt e))
  ]

  IsPrivate-stays : (p : ℕ) → IsPrivate v.mem pgdir p → p ≢ page → IsPrivate linked pgdir p
  IsPrivate-stays p h ne = record {
    not_dir = h.not_dir;
    not_table = λ d lt q. elim (table_cases d lt q) [
      | inl (x, y) ↦ (λ z. ne (z ∙ y))
      | inr (x, y) ↦ (λ z. h.not_table d lt x (z ∙ y))
    ];
  }

  IsSpace-new : IsSpace pgdir (record v { mem = linked; free = rest })
  IsSpace-new = record {
    whole = s.whole;
    apart = λ d lt p. elim (table_cases d lt p) [
      | inl (x, y) ↦ (λ z. own.not_dir (sym y ∙ z))
      | inr (x, y) ↦ (λ z. s.apart d lt x (sym y ∙ z))
    ];
    distinct = λ d e lt lt' p p' t. elim (table_cases d lt p) [
      | inl (x, y) ↦ elim (table_cases e lt' p') [
        | inl (x', y') ↦ x ∙ sym x'
        | inr (x', y') ↦ absurd (own.not_table e lt' x' (sym y ∙ t ∙ y'))
      ]
      | inr (x, y) ↦ elim (table_cases e lt' p') [
        | inl (x', y') ↦ absurd (own.not_table d lt x (sym y' ∙ sym t ∙ y))
        | inr (x', y') ↦ s.distinct d e lt lt' x x' (sym y ∙ t ∙ y')
      ]
    ];
    free_frame = λ p h. s.free_frame p (still p h);
    free_private = λ p h. IsPrivate-stays p (s.free_private p (still p h)) (λ z. first_only p h z);
    nodup = (rw eq at s.nodup).1;
  }
    where
      still : (p : ℕ) → has p rest ≡ true → has p v.free ≡ true
      still p h = ap (has p) eq ∙ ground (arith, h)

      first_only : (p : ℕ) → has p rest ≡ true → p ≢ page
      first_only p h z =
          let n : NoDup (page ∷ rest) = rw eq at s.nodup in
          let h' : has page rest ≡ true = rw z at h in ground (arith, n.0, h')

  IsWalked-new : IsWalked pgdir va v (page + 4 * ptx va) (record v { mem = linked; free = rest })
  IsWalked-new = record {
    space = IsSpace-new;
    there = ap is_present entry_new ∙ is_new;
    place = ap (λ t. t + 4 * ptx va) (sym (ap pte_addr entry_new ∙ table_new));
    entries = entries_kept;
    bounds_kept = refl;
    taken = inr (page, eq);
    accounted = λ p h. elim (Bool-cases (page == p)) [
      | inl e ↦ inr (
        pdx va,
        omega arith,
        ap is_present entry_new ∙ is_new,
        ap pte_addr entry_new ∙ table_new ∙ (==_iff page p).0 e,
      )
      | inr e ↦
          (let h' : has p (page ∷ rest) ≡ true = ap (has p) (sym eq) ∙ h in
            inl (ground (arith, h', e)))
    ];
    tables_stay = λ p (d, lt, q, t).
        let ne : (d == pdx va) ≡ false = elim (Bool-cases (d == pdx va)) [
          | inr z ↦ z
          | inl z ↦
              let w : is_present (dir_entry v.mem pgdir (pdx va)) ≡ true =
                rw ((==_iff _ _).0 z) at q in
              ground (arith, w, gone)
        ] in
        (d, lt, ap is_present (entry_old d lt ne) ∙ q, ap pte_addr (entry_old d lt ne) ∙ t);
    private_kept = λ p h out. IsPrivate-stays p h (λ z. taken_page p z out);
    others = λ q o h a out x y.
        Within-put_le pgdir (pdx va) (page + 7) blank (omega arith) o
          (clear pgdir q o s.whole a h.not_dir x y)
        ∙ Within-fill page 0 v.mem o (clear page q o frame.whole a (λ z. taken_page q z out) x y);
  }
    where
      taken_page : (p : ℕ) → p ≡ page → has p v.free ≡ false → ⊥
      taken_page p z out =
          let w : has page v.free ≡ false = rw z at out in ground (arith, w, listed)

      clear :
          (p q o : ℕ)
          → p % 4096 ≡ 0
          → q % 4096 ≡ 0
          → q ≢ p
          → q ≤ o
          → o < q + 4096
          → (o < p) ⊎ (p + 4096 ≤ o)
      clear p q o a b ne x y = elim (pages_apart q p b a ne) [
        | inl h ↦ inl (omega (arith, h, y))
        | inr h ↦ inr (omega (arith, h, x))
      ]

-- The results of `walkpgdir` with `alloc`.
abbrev pub Walks : ℕ → ℕ → Vm → Option ℕ × Vm → Type 0
Walks pgdir va v (some at, v') = IsWalked pgdir va v at v'
Walks pgdir va v (none, v') =
    (v' ≡ v) × (v.free ≡ []) × (is_present (dir_entry v.mem pgdir (pdx va)) ≡ false)

IsWalked-old :
    (pgdir va : ℕ) (v : Vm)
    → IsSpace pgdir v
    → is_present (dir_entry v.mem pgdir (pdx va)) ≡ true
    → IsWalked pgdir va v (table v.mem pgdir (pdx va) + 4 * ptx va) v
IsWalked-old pgdir va v s p = record {
  space = s;
  there = p;
  place = refl;
  entries = λ a. refl;
  bounds_kept = refl;
  taken = inl refl;
  accounted = λ q h. inl h;
  tables_stay = λ q t. t;
  private_kept = λ q h out. h;
  others = λ q o h a out x y. refl;
}

new_table_lem :
    (pgdir va : ℕ) (v : Vm) (xs : List ℕ)
    → IsSpace pgdir v
    → v.free ≡ xs
    → is_present (dir_entry v.mem pgdir (pdx va)) ≡ false
    → Walks pgdir va v (new_table (pgdir + 4 * pdx va) va xs v)
unfolding new_table
new_table_lem pgdir va v [] s eq p = (refl, eq, p)
new_table_lem pgdir va v (page ∷ rest) s eq p = IsWalked-new pgdir va page rest v s eq p

pub walkpgdir_lem :
    (pgdir va : ℕ) (v : Vm) → IsSpace pgdir v → Walks pgdir va v (walkpgdir pgdir va true v)
unfolding walkpgdir
walkpgdir_lem pgdir va v s = elim (Bool-cases (is_present (dir_entry v.mem pgdir (pdx va)))) [
  | inl p ↦ rw (walkpgdir, p) (IsWalked-old pgdir va v s p)
  | inr p ↦ rw (walkpgdir, p) (new_table_lem pgdir va v v.free s refl p)
]
