-- ===== src/Vm/Tests.antt =====
-- A blank page directory, and one with a page mapped at address 0.
use modified_xv.Base.{
  ℕ, ◌+◌, ◌*◌, ◌/◌, ◌≤◌, ◌<◌, ◌^◌, ◌≡◌, refl, sym, ap, ◌∙◌, arith, true, false, ◌||◌, ◌⊎◌, inl, inr,
  [], ◌∷◌, ◌==◌, ==_iff, if◌then◌else◌, has, Bool-cases,
}
use modified_xv.Fs.Bytes.{get_le, get_le-congr, get_le-zero}
use modified_xv.Memory.{is_page}
use modified_xv.Vm.{Vm, pdx, ptx, is_present, mappages, deallocuvm, allocuvm, copyout}
use modified_xv.Vm.Space.{dir_entry, table, pte, IsFrame, IsSpace}
use modified_xv.Vm.Mapping.{Maps, mappages_lem}
use modified_xv.Vm.Ranges.{in_range, is_mapped, IsBacked}
use modified_xv.Vm.Unmap.{Deallocates, deallocuvm_lem}
use modified_xv.Vm.Allocate.{Allocates, allocuvm_lem}
use modified_xv.Vm.Copyout.{Copies, copyout_lem}

-- The directory is at 0x4000.
abbrev blank : Vm
blank = record {
  bounds = record { end_addr = 0x80002000 };
  mem = λ o. 0;
  free = 0x8000 ∷ 0x9000 ∷ 0xA000 ∷ [];
}

blank_entry : (d : ℕ) → is_present (dir_entry blank.mem 0x4000 d) ≡ false
blank_entry d = ap is_present (get_le-zero 4 blank.mem (0x4000 + 4 * d) (λ o. refl))

free_cases : (p : ℕ) → has p blank.free ≡ true → IsFrame blank.bounds p
unfolding is_page
free_cases p h = elim (Bool-cases (0x8000 == p)) [
  | inl e ↦ rw (← (==_iff 0x8000 p).0 e) record {
    whole = omega arith;
    low = omega arith;
    some_page = omega arith;
    page = ground arith;
  }
  | inr e ↦ elim (Bool-cases (0x9000 == p)) [
    | inl q ↦ rw (← (==_iff 0x9000 p).0 q) record {
      whole = omega arith;
      low = omega arith;
      some_page = omega arith;
      page = ground arith;
    }
    | inr q ↦
        let z : 0xA000 ≡ p = ground (arith, h, e, q) in
        rw (← z) record {
          whole = omega arith;
          low = omega arith;
          some_page = omega arith;
          page = ground arith;
        }
  ]
]

blank-IsSpace : IsSpace 0x4000 blank
blank-IsSpace = record {
  whole = omega arith;
  apart = λ d lt p. let z = blank_entry d in ground (arith, z, p);
  distinct = λ d e lt lt' p p' t. let z = blank_entry d in ground (arith, z, p);
  free_frame = free_cases;
  free_private = λ p h. record {
    not_dir = λ z. ground (arith, h, z);
    not_table = λ d lt q. let z = blank_entry d in ground (arith, z, q);
  };
  nodup = (refl, (refl, (refl, tt)));
}

mappages_lem_example : Maps 0x4000 0 1 0x100000 2 blank (mappages 0x4000 0 8192 0x100000 2 blank)
mappages_lem_example =
    mappages_lem 0x4000 0 8192 0x100000 2 blank blank-IsSpace (omega arith) (omega arith)
      (omega arith) (omega arith) (omega arith)

allocuvm_lem_example : Allocates 0x4000 0 8192 blank (allocuvm 0x4000 0 8192 blank)
allocuvm_lem_example =
    allocuvm_lem 0x4000 0 8192 blank blank-IsSpace (λ x r. let p = blank_entry (pdx x) in rw p refl)

-- The page table is at 0x5000, and the page at 0x6000.
abbrev one_page : Vm
one_page = record {
  bounds = blank.bounds;
  mem = λ o.
      if o == 0x4000 || o == 0x5000
      then 7
      else if o == 0x4001
      then 0x50
      else if o == 0x5001
      then 0x60
      else 0;
  free = blank.free;
}

first_entry : dir_entry one_page.mem 0x4000 0 ≡ 0x5007
unfolding get_le
first_entry = refl

-- The bytes of the page directory and the page table but for those of their first entries.
zero_byte : (o : ℕ) → 0x4004 ≤ o → o < 0x6000 → (o < 0x5000) ⊎ (0x5004 ≤ o) → one_page.mem o ≡ 0
zero_byte o a b h =
    let p : (o == 0x4000 || o == 0x5000) ≡ false = elim h [
      | inl x ↦ ground (arith, a, x)
      | inr x ↦ ground (arith, a, x)
    ] in
    let q : (o == 0x4001) ≡ false = ground (arith, a) in
    let r : (o == 0x5001) ≡ false = elim h [
      | inl x ↦ ground (arith, x)
      | inr x ↦ ground (arith, x)
    ] in
    rw (p, q, r) refl

zero_entry :
    (at : ℕ)
    → 0x4004 ≤ at
    → at + 4 ≤ 0x6000
    → (at + 4 ≤ 0x5000) ⊎ (0x5004 ≤ at)
    → get_le 4 one_page.mem at ≡ 0
zero_entry at a b h =
    get_le-congr 4 one_page.mem (λ o. 0) at
      (λ o x y.
        zero_byte o (omega (arith, a, x)) (omega (arith, b, y))
          (elim h [ inl z ↦ inl (omega (arith, z, y)) | inr z ↦ inr (omega (arith, z, x)) ]))
    ∙ get_le-zero 4 (λ o. 0) at (λ o. refl)

other_entries : (d : ℕ) → d < 1024 → (d == 0) ≡ false → dir_entry one_page.mem 0x4000 d ≡ 0
other_entries d lt ne =
    let pos : 1 ≤ d = ground (arith, ne) in
    zero_entry (0x4000 + 4 * d) (omega (arith, pos)) (omega (arith, lt)) (inl (omega (arith, lt)))

only_entry : (d : ℕ) → d < 1024 → is_present (dir_entry one_page.mem 0x4000 d) ≡ true → d ≡ 0
only_entry d lt p = elim (Bool-cases (d == 0)) [
  | inl e ↦ (==_iff d 0).0 e
  | inr e ↦ (let z = ap is_present (other_entries d lt e) in ground (arith, z, p))
]

table_there : (d : ℕ) → d ≡ 0 → table one_page.mem 0x4000 d ≡ 0x5000
table_there d e = ap (table one_page.mem 0x4000) e ∙ ap (λ t. t / 4096 * 4096) first_entry

one_page-IsSpace : IsSpace 0x4000 one_page
one_page-IsSpace = record {
  whole = omega arith;
  apart = λ d lt p z. omega (arith, table_there d (only_entry d lt p), z);
  distinct = λ d e lt lt' p p' t. only_entry d lt p ∙ sym (only_entry e lt' p');
  free_frame = free_cases;
  free_private = λ p h. record {
    not_dir = λ z. ground (arith, h, z);
    not_table = λ d lt q z.
        let t = table_there d (only_entry d lt q) in
        let w : p ≡ 0x5000 = z ∙ t in ground (arith, h, w);
  };
  nodup = (refl, (refl, (refl, tt)));
}

first_page : get_le 4 one_page.mem 0x5000 ≡ 0x6007
unfolding get_le
first_page = refl

only_page :
    (x : ℕ)
    → x < 2 ^ 32
    → is_mapped one_page.mem 0x4000 x ≡ true
    → (x / 4096 ≡ 0) × (pte one_page.mem 0x4000 x ≡ 0x6007)
only_page x lt p = elim (Bool-cases (is_present (dir_entry one_page.mem 0x4000 (pdx x)))) [
  | inr q ↦ (let z : is_mapped one_page.mem 0x4000 x ≡ false = rw q refl in ground (arith, z, p))
  | inl q ↦
      let d = only_entry (pdx x) (omega arith) q in
      let t = table_there (pdx x) d in
      let e : pte one_page.mem 0x4000 x ≡ get_le 4 one_page.mem (0x5000 + 4 * ptx x) =
        rw (q, t) refl in
      elim (Bool-cases (ptx x == 0)) [
        | inl z ↦
            let zero_ptx : ptx x ≡ 0 = (==_iff _ _).0 z in
            (
              omega (arith, d, zero_ptx, lt),
              e ∙ ap (λ i. get_le 4 one_page.mem (0x5000 + 4 * i)) zero_ptx ∙ first_page,
            )
        | inr z ↦
            let pos : 1 ≤ ptx x = ground (arith, z) in
            let w =
              e
              ∙ zero_entry (0x5000 + 4 * ptx x) (omega arith) (omega arith)
                  (inr (omega (arith, pos))) in
            let n = ap is_present w in ground (arith, n, p)
      ]
]

one_page-IsBacked : (hi : ℕ) → hi ≤ 2 ^ 31 → IsBacked 0x4000 0 hi one_page
unfolding is_page
one_page-IsBacked hi limit = record {
  frame = λ x r p. rw ((only_page x (small x r) p).1) record {
    whole = omega arith;
    low = omega arith;
    some_page = omega arith;
    page = ground arith;
  };
  own = λ x r p. rw ((only_page x (small x r) p).1) record {
    not_dir = omega arith;
    not_table = λ d lt q z. omega (arith, table_there d (only_entry d lt q), z);
  };
  in_use = λ x r p. rw ((only_page x (small x r) p).1) refl;
  distinct = λ x y r r' p p' q. (only_page x (small x r) p).0 ∙ sym (only_page y (small y r') p').0;
}
  where
    small : (x : ℕ) → in_range 0 hi x ≡ true → x < 2 ^ 32
    small x r = let z : x / 4096 * 4096 < hi = ground (arith, r) in omega (arith, z, limit)

deallocuvm_lem_example : Deallocates 0x4000 4096 0 one_page (deallocuvm 0x4000 4096 0 one_page)
deallocuvm_lem_example =
    deallocuvm_lem 0x4000 4096 0 one_page one_page-IsSpace (one_page-IsBacked 4096 (omega arith))
      (omega arith)

copyout_lem_example :
    Copies 0x4000 (λ i. 65 + i) 4090 0 6 one_page (copyout 0x4000 4090 (λ i. 65 + i) 6 one_page)
copyout_lem_example =
    copyout_lem 0x4000 (λ i. 65 + i) 4090 6 one_page one_page-IsSpace
      (one_page-IsBacked 0x80000000 (omega arith)) (omega arith)
