-- ===== src/Vm/Copyout.antt =====
-- uva2ka and the loop of copyout of vm.c.
use modified_xv.Base.{
  ℕ, zero, suc, ◌+◌, ◌-◌, ◌%◌, ◌≤◌, ◌<◌, ◌≡◌, refl, sym, ap, ◌∙◌, arith, Bool, true, false, ◌&&◌,
  inl, inr, Option, none, some, ◌==◌, ==_iff, ltb, leb, if◌then◌else◌, add32, Bool-cases, min,
}
use modified_xv.Memory.{kernbase}
use modified_xv.Vm.{
  Vm, pdx, is_present, is_user, pte_addr, copy_to, uva2ka, copy_pages, copyout, round_down,
}
use modified_xv.Vm.Space.{dir_entry, pte, IsSpace}
use modified_xv.Vm.Ranges.{is_mapped, frame_of, IsBacked, pte_page, walk_found, walk_gone}
use modified_xv.Vm.Pieces.{IsCopied, copied, dir_piece, piece, IsCopied-more, IsCopied-none}

uva2ka_lem :
    (pgdir uva : ℕ) (v : Vm)
    → uva2ka pgdir uva v ≡ (
        if is_present (dir_entry v.mem pgdir (pdx uva))
        then some (
            if is_mapped v.mem pgdir uva && is_user (pte v.mem pgdir uva)
            then some (frame_of v.mem pgdir uva)
            else none)
        else none)
unfolding uva2ka
uva2ka_lem pgdir uva v = elim (Bool-cases (is_present (dir_entry v.mem pgdir (pdx uva)))) [
  | inl p ↦ rw (ap (λ (z : Option ℕ × Vm). z.0) (walk_found pgdir uva v p), p) refl
  | inr p ↦ rw (ap (λ (z : Option ℕ × Vm). z.0) (walk_gone pgdir uva v p), p) refl
]

module _ (pgdir : ℕ) (src : ℕ → ℕ) where
  abbrev pub open_to_user : Vm → ℕ → Bool
  open_to_user v x = is_mapped v.mem pgdir x && is_user (pte v.mem pgdir x)

  abbrev pub AllUser : ℕ → ℕ → Vm → Type 0
  AllUser va len v = (x : ℕ) → va ≤ x → x < va + len → open_to_user v x ≡ true

  -- What `copyout` does with `len` bytes at `va`.
  abbrev pub Copies : ℕ → ℕ → ℕ → Vm → Option (Bool × Vm) → Type 0
  Copies va from len v none =
      (x : ℕ) × (va ≤ x) × (x < va + len) × (is_present (dir_entry v.mem pgdir (pdx x)) ≡ false)
  Copies va from len v (some (false, v')) =
      (k : ℕ) × (k < len) × IsCopied pgdir src va from k v v' × (open_to_user v (va + k) ≡ false)
  Copies va from len v (some (true, v')) = IsCopied pgdir src va from len v v' × AllUser va len v

  module _ (va from n : ℕ) (v v1 : Vm) (f : IsCopied pgdir src va from n v v1)
      (tables : (d : ℕ) → d < 1024 → dir_entry v1.mem pgdir d ≡ dir_entry v.mem pgdir d)
      (user : AllUser va n v) where
    Copies-more :
        (len k : ℕ) (r : Option (Bool × Vm))
        → len ≡ n + k
        → Copies (va + n) (from + n) k v1 r
        → Copies va from len v r
    Copies-more len k none q (x, a, b, p) = (
      x,
      omega (arith, a),
      omega (arith, b, q),
      ap is_present (sym (tables (pdx x) (omega arith))) ∙ p,
    )
    Copies-more len k (some (false, v2)) q (i, lt, g, p) =
        let place : va + n + i ≡ va + (n + i) = omega arith in
        (
          n + i,
          omega (arith, lt, q),
          IsCopied-more pgdir src va from n i v v1 v2 f g,
          ap (open_to_user v) (sym place)
              ∙ ap (λ e. is_present e && is_user e) (sym (f.entries (va + n + i)))
              ∙ p,
        )
    Copies-more len k (some (true, v2)) q (g, all) = (
      rw q (IsCopied-more pgdir src va from n k v v1 v2 f g),
      λ x a b. elim (Bool-cases (ltb x (va + n))) [
        | inl t ↦ user x a (ground (arith, t))
        | inr t ↦
            ap (λ e. is_present e && is_user e) (sym (f.entries x))
            ∙ all x (ground (arith, t)) (omega (arith, b, q))
      ],
    )

  copy_pages_done :
      (fuel va from : ℕ) (v : Vm) → copy_pages fuel pgdir src va from 0 v ≡ some (true, v)
  unfolding copy_pages
  copy_pages_done zero va from v = refl
  copy_pages_done (suc fuel) va from v = refl

  -- The answer of `uva2ka` by whether there is a page table, and whether the page is a user's.
  abbrev answer : Bool → Bool → ℕ → Option (Option ℕ)
  answer a b page = if a then some (if b then some page else none) else none

  module _ (va : ℕ) (v : Vm) (a b : Bool) (p : is_present (dir_entry v.mem pgdir (pdx va)) ≡ a)
      (q : open_to_user v va ≡ b) where
    uva2ka_page : uva2ka pgdir (round_down va) v ≡ answer a b (frame_of v.mem pgdir va)
    uva2ka_page =
        let d : pdx (round_down va) ≡ pdx va = omega arith in
        let e = pte_page v.mem pgdir (round_down va) va (omega arith) in
        uva2ka_lem pgdir (round_down va) v
        ∙ ap
            (λ x.
              answer (is_present (dir_entry v.mem pgdir x)) (open_to_user v (round_down va))
                (frame_of v.mem pgdir (round_down va)))
            d
        ∙ ap
            (λ x.
              answer (is_present (dir_entry v.mem pgdir (pdx va))) (is_present x && is_user x)
                (pte_addr x))
            e
        ∙ ap (λ x. answer x (open_to_user v va) (frame_of v.mem pgdir va)) p
        ∙ ap (λ x. answer a x (frame_of v.mem pgdir va)) q

  -- A round, with what the loop does from the next page on.
  module _ (fuel va from len : ℕ) (v : Vm) (s : IsSpace pgdir v) (b : IsBacked pgdir 0 kernbase v)
      (top : va + len ≤ kernbase) (some_left : 1 ≤ len) (user : open_to_user v va ≡ true) where
    mapped : is_mapped v.mem pgdir va ≡ true
    mapped = ground (arith, user)

    page_user : (n : ℕ) → va % 4096 + n ≤ 4096 → AllUser va n v
    page_user n fits x a l =
        ap (λ e. is_present e && is_user e) (pte_page v.mem pgdir x va (omega (arith, a, l, fits)))
        ∙ user

    round :
        ((n k : ℕ) (v1 : Vm)
          → len ≡ n + k
          → 1 ≤ n
          → IsSpace pgdir v1
          → IsBacked pgdir 0 kernbase v1
          → Copies (va + n) (from + n) k v1 (copy_pages fuel pgdir src (va + n) (from + n) k v1))
        → (n : ℕ) → n ≡ min len (4096 - va % 4096)
        → Copies va from len v (
            copy_pages fuel pgdir src
              (add32 (round_down va) 4096)
              (from + n)
              (len - n)
              (record v { mem = copy_to (frame_of v.mem pgdir va + va % 4096) src from n v.mem }))
    round ih n e =
        let low : va < kernbase = omega (arith, top, some_left) in
        let fits : va % 4096 + n ≤ 4096 = omega (arith, e) in
        let f = copied pgdir src va from n v s b low fits mapped in
        let tables = dir_piece pgdir src va from n v s b low fits mapped in
        let more =
          Copies-more va from n v (piece pgdir src va from n v s b low fits mapped) f tables
            (page_user n fits) len (len - n) in
        let pos : 1 ≤ n = omega (arith, e, some_left) in
        let q : len ≡ n + (len - n) = omega (arith, e) in
        elim (Bool-cases (leb len (4096 - va % 4096))) [
          | inl last ↦
              let z : len - n ≡ 0 = ground (arith, e, last) in
              let next =
                ih n (len - n) (piece pgdir src va from n v s b low fits mapped) q pos f.space
                  f.back in
              let d =
                copy_pages_done fuel (va + n) (from + n)
                  (piece pgdir src va from n v s b low fits mapped) in
              let d' =
                copy_pages_done fuel (add32 (round_down va) 4096) (from + n)
                  (piece pgdir src va from n v s b low fits mapped) in
              rw (z, d')
                (rw (z, d) at
                  (more
                    (copy_pages fuel pgdir src (va + n) (from + n) (len - n)
                      (piece pgdir src va from n v s b low fits mapped))
                    q next))
          | inr last ↦
              let step : add32 (round_down va) 4096 ≡ va + n = ground (arith, e, last, top) in
              rw step (
                more _ q (
                  ih n (len - n) (piece pgdir src va from n v s b low fits mapped) q pos f.space
                    f.back))
        ]

  copy_pages_lem :
      (fuel va from len : ℕ) (v : Vm)
      → IsSpace pgdir v
      → IsBacked pgdir 0 kernbase v
      → va + len ≤ kernbase
      → len ≤ fuel
      → Copies va from len v (copy_pages fuel pgdir src va from len v)
  unfolding copy_pages
  copy_pages_lem zero va from len v s b top enough =
      let z : len ≡ 0 = omega (arith, enough) in
      rw z (IsCopied-none pgdir src va from v s b, λ x a l. absurd (omega (arith, a, l)))
  copy_pages_lem (suc fuel) va from len v s b top enough = elim (Bool-cases (len == 0)) [
    | inl e ↦
        let z : len ≡ 0 = (==_iff len 0).0 e in
        rw (copy_pages, e, z)
          (IsCopied-none pgdir src va from v s b, λ x a l. absurd (omega (arith, a, l)))
    | inr e ↦ elim (Bool-cases (is_present (dir_entry v.mem pgdir (pdx va)))) [
      | inr p ↦
          rw (copy_pages, e, uva2ka_page va v false (open_to_user v va) p refl)
            (va, omega arith, ground (arith, e), p)
      | inl p ↦ elim (Bool-cases (open_to_user v va)) [
        | inr q ↦
            let z : va + 0 ≡ va = omega arith in
            rw (copy_pages, e, uva2ka_page va v true false p q)
              (
                0,
                ground (arith, e),
                IsCopied-none pgdir src va from v s b,
                ap (open_to_user v) z ∙ q,
              )
        | inl q ↦
            let off : va - round_down va ≡ va % 4096 = omega arith in
            rw (copy_pages, e, uva2ka_page va v true true p q, off)
              (round fuel va from len v s b top (ground (arith, e)) q
                (λ n k v1 z pos s1 b1.
                  copy_pages_lem fuel (va + n) (from + n) k v1 s1 b1 (omega (arith, z, top))
                    (omega (arith, z, pos, enough)))
                (min len (4096 - va % 4096)) refl)
      ]
    ]
  ]

  -- For a directory whose page tables and the free pages are pages apart, the user's mapped pages
  -- frames apart, and a range up to KERNBASE: where `copyout` returns 0 every page of the range is
  -- present and a user's, and the user then reads the bytes there; where it returns -1 a part of
  -- the range has been stored, up to an address that is not the user's; else it reads through a
  -- null pointer, only where some address of the range has no page table. No entry and no other
  -- byte of the user's changes.
  pub copyout_lem :
      (va len : ℕ) (v : Vm)
      → IsSpace pgdir v
      → IsBacked pgdir 0 kernbase v
      → va + len ≤ kernbase
      → Copies va 0 len v (copyout pgdir va src len v)
  unfolding copyout
  copyout_lem va len v s b top = copy_pages_lem len va 0 len v s b top (omega arith)
