-- ===== src/Vm/Pieces.antt =====
-- A piece of copyout of vm.c, within a page.
use modified_xv.Base.{
  ℕ, ◌+◌, ◌-◌, ◌/◌, ◌%◌, ◌≤◌, ◌<◌, ◌≡◌, ◌≢◌, refl, sym, ap, ◌∙◌, arith, true, false, ◌&&◌, inl, inr,
  ◌==◌, ==_iff, ltb, leb, if◌then◌else◌, has, Bool-cases,
}
use modified_xv.Memory.{kernbase}
use modified_xv.Vm.{Vm, is_present, pte_addr, copy_to}
use modified_xv.Vm.Space.{
  dir_entry, pte, IsSpace, IsSpace-same, IsPrivate-same, Within, pages_apart, dir_entry-private,
  pte-private,
}
use modified_xv.Vm.Ranges.{in_range, is_mapped, frame_of, IsBacked, pte_page}

-- The byte at an address of the user.
abbrev pub user_byte : (ℕ → ℕ) → ℕ → ℕ → ℕ
user_byte m pgdir x = m (frame_of m pgdir x + x % 4096)

-- `n` bytes stored at address `va`, and nothing else of the user's memory changed.
pub record IsCopied (pgdir : ℕ) (src : ℕ → ℕ) (va from n : ℕ) (v v' : Vm) : Type 0 where
  pub space : IsSpace pgdir v'
  pub back : IsBacked pgdir 0 kernbase v'
  pub entries : (x : ℕ) → pte v'.mem pgdir x ≡ pte v.mem pgdir x
  pub bytes :
      (x : ℕ)
      → x < kernbase
      → is_mapped v.mem pgdir x ≡ true
      → user_byte v'.mem pgdir x
        ≡ (if leb va x && ltb x (va + n) then src (from + (x - va)) else user_byte v.mem pgdir x)

Within-copy_to :
    (page off n : ℕ) (src : ℕ → ℕ) (from : ℕ) (m : ℕ → ℕ)
    → off + n ≤ 4096
    → Within page m (copy_to (page + off) src from n m)
Within-copy_to page off n src from m le o (inl x) =
    let p : leb (page + off) o ≡ false = ground (arith, x) in rw p refl
Within-copy_to page off n src from m le o (inr x) =
    let p : (leb (page + off) o && ltb o (page + off + n)) ≡ false = ground (arith, x, le) in
    rw p refl

same_test :
    (page va x n : ℕ)
    → x / 4096 ≡ va / 4096
    → (leb (page + va % 4096) (page + x % 4096) && ltb (page + x % 4096) (page + va % 4096 + n))
      ≡ (leb va x && ltb x (va + n))
same_test page va x n q = ground (arith, q)

same_distance :
    (page va x : ℕ) → x / 4096 ≡ va / 4096 → page + x % 4096 - (page + va % 4096) ≡ x - va
same_distance page va x q = omega (arith, q)

module _ (pgdir : ℕ) (src : ℕ → ℕ) where
  -- One piece, within a page.
  module _ (va from n : ℕ) (v : Vm) (s : IsSpace pgdir v) (b : IsBacked pgdir 0 kernbase v)
      (low : va < kernbase) (fits : va % 4096 + n ≤ 4096)
      (here : is_mapped v.mem pgdir va ≡ true) where
    inside : in_range 0 kernbase va ≡ true
    inside = ground (arith, low)

    abbrev pub piece : Vm
    piece = record v { mem = copy_to (frame_of v.mem pgdir va + va % 4096) src from n v.mem }

    same : Within (frame_of v.mem pgdir va) v.mem piece.mem
    same = Within-copy_to (frame_of v.mem pgdir va) (va % 4096) n src from v.mem fits

    pub dir_piece : (d : ℕ) → d < 1024 → dir_entry piece.mem pgdir d ≡ dir_entry v.mem pgdir d
    dir_piece =
        dir_entry-private pgdir (frame_of v.mem pgdir va) v.mem piece.mem s.whole (omega arith)
          (b.own va inside here) same

    pte_piece : (x : ℕ) → pte piece.mem pgdir x ≡ pte v.mem pgdir x
    pte_piece =
        pte-private pgdir (frame_of v.mem pgdir va) v.mem piece.mem s.whole (omega arith)
          (b.own va inside here) same

    back_piece : IsBacked pgdir 0 kernbase piece
    back_piece = record {
      frame = λ x r p. (let f = b.frame x r (was x p) in rw (pte_piece x) f);
      own = λ x r p.
          (let f =
              IsPrivate-same pgdir v.mem piece.mem dir_piece (frame_of v.mem pgdir x)
                (b.own x r (was x p)) in
            rw (pte_piece x) f);
      in_use = λ x r p. ap (λ t. has (pte_addr t) v.free) (pte_piece x) ∙ b.in_use x r (was x p);
      distinct = λ x y r r' p p' q.
          b.distinct x y r r' (was x p) (was y p')
            (ap pte_addr (sym (pte_piece x)) ∙ q ∙ ap pte_addr (pte_piece y));
    }
      where
        was : (x : ℕ) → is_mapped piece.mem pgdir x ≡ true → is_mapped v.mem pgdir x ≡ true
        was x p = ap is_present (sym (pte_piece x)) ∙ p

    byte_piece :
        (x : ℕ)
        → x < kernbase
        → is_mapped v.mem pgdir x ≡ true
        → piece.mem (frame_of v.mem pgdir x + x % 4096)
          ≡ (if leb va x && ltb x (va + n) then src (from + (x - va)) else user_byte v.mem pgdir x)
    byte_piece x lt p = elim (Bool-cases (x / 4096 == va / 4096)) [
      | inl e ↦
          let q : x / 4096 ≡ va / 4096 = (==_iff _ _).0 e in
          let f : frame_of v.mem pgdir x ≡ frame_of v.mem pgdir va =
            ap pte_addr (pte_page v.mem pgdir x va q) in
          rw
            (
              f,
              same_test (frame_of v.mem pgdir va) va x n q,
              same_distance (frame_of v.mem pgdir va) va x q,
            )
            refl
      | inr e ↦
          let t : (leb va x && ltb x (va + n)) ≡ false = ground (arith, e, fits) in
          let r : in_range 0 kernbase x ≡ true = ground (arith, lt) in
          let ne : frame_of v.mem pgdir x ≢ frame_of v.mem pgdir va =
            λ z. ground (arith, e, b.distinct x va r inside p here z) in
          rw t (
            same (frame_of v.mem pgdir x + x % 4096)
              (elim (pages_apart (frame_of v.mem pgdir x) (frame_of v.mem pgdir va) (omega arith)
                (omega arith) ne) [
                  | inl h ↦ inl (omega (arith, h))
                  | inr h ↦ inr (omega (arith, h))
                ]))
    ]

    pub copied : IsCopied pgdir src va from n v piece
    copied = record {
      space =
          IsSpace-same pgdir v piece dir_piece s (λ p h. (s.free_frame p h, s.free_private p h))
            s.nodup;
      back = back_piece;
      entries = pte_piece;
      bytes =
          λ x lt p. ap (λ e. piece.mem (pte_addr e + x % 4096)) (pte_piece x) ∙ byte_piece x lt p;
    }

  pub IsCopied-more :
      (va from n k : ℕ) (v v1 v2 : Vm)
      → IsCopied pgdir src va from n v v1
      → IsCopied pgdir src (va + n) (from + n) k v1 v2
      → IsCopied pgdir src va from (n + k) v v2
  IsCopied-more va from n k v v1 v2 f g = record {
    space = g.space;
    back = g.back;
    entries = λ x. g.entries x ∙ f.entries x;
    bytes = λ x lt p. g.bytes x lt (ap is_present (f.entries x) ∙ p) ∙ both x (f.bytes x lt p);
  }
    where
      both :
          (x : ℕ)
          → user_byte v1.mem pgdir x ≡ (
              if leb va x && ltb x (va + n) then src (from + (x - va)) else user_byte v.mem pgdir x)
          → (if leb (va + n) x && ltb x (va + n + k)
              then src (from + n + (x - (va + n)))
              else user_byte v1.mem pgdir x)
            ≡ (if leb va x && ltb x (va + (n + k))
                then src (from + (x - va))
                else user_byte v.mem pgdir x)
      both x e = elim (Bool-cases (leb (va + n) x && ltb x (va + n + k))) [
        | inl t ↦
            let t' : (leb va x && ltb x (va + (n + k))) ≡ true = ground (arith, t) in
            let d : from + n + (x - (va + n)) ≡ from + (x - va) = ground (arith, t) in
            rw (t, t', d) refl
        | inr t ↦ elim (Bool-cases (leb va x && ltb x (va + n))) [
          | inl q ↦
              let t' : (leb va x && ltb x (va + (n + k))) ≡ true = ground (arith, q) in
              rw (t, t') (e ∙ rw q refl)
          | inr q ↦
              let t' : (leb va x && ltb x (va + (n + k))) ≡ false = ground (arith, t, q) in
              rw (t, t') (e ∙ rw q refl)
        ]
      ]

  pub IsCopied-none :
      (va from : ℕ) (v : Vm)
      → IsSpace pgdir v
      → IsBacked pgdir 0 kernbase v
      → IsCopied pgdir src va from 0 v v
  IsCopied-none va from v s b = record {
    space = s;
    back = b;
    entries = λ x. refl;
    bytes = λ x lt p. let t : (leb va x && ltb x (va + 0)) ≡ false = ground arith in rw t refl;
  }
