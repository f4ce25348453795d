-- ===== src/Memory/Fuel.antt =====
-- The rounds of the loop of freerange in kalloc.c.
use modified_xv.Base.{
  ℕ, zero, suc, ◌+◌, ◌*◌, ◌/◌, ◌≤◌, ◌<◌, ◌^◌, ◌≡◌, refl, false, arith, Bool-cases, inl, inr, leb,
  add32, Option-cases,
}
use modified_xv.Memory.{Bounds, Kmem, page_size, round_up, kfree, free_pages, freerange}

past_end : (p vend : ℕ) → vend < p → p + page_size < 2 ^ 32 → leb (add32 p page_size) vend ≡ false
past_end p vend h hp = ground arith

next_page : (p : ℕ) → p + page_size < 2 ^ 32 → add32 p page_size ≡ p + page_size
next_page p hp = ground arith

free_pages-stable :
    (b : Bounds) (fuel n p vend : ℕ) (k : Kmem)
    → fuel ≤ n
    → vend < p + page_size * fuel
    → p + page_size < 2 ^ 32
    → vend + page_size < 2 ^ 32
    → free_pages b n p vend k ≡ free_pages b fuel p vend k
unfolding free_pages
free_pages-stable b zero zero p vend k le h hp hv = refl
free_pages-stable b zero (suc n) p vend k le h hp hv = rw (past_end p vend (omega arith) hp) refl
free_pages-stable b (suc fuel) zero p vend k le h hp hv = absurd (omega arith)
free_pages-stable b (suc fuel) (suc n) p vend k le h hp hv =
    elim (Bool-cases (leb (add32 p page_size) vend)) [
      | inr stop ↦ rw stop refl
      | inl go ↦
          let step = next_page p hp in
          let low : add32 p page_size ≤ vend = ground (arith, go) in
          rw go (elim (Option-cases (kfree b p k)) [
            | inl e ↦ rw e refl
            | inr (k', e) ↦ rw e (
                free_pages-stable b fuel n (add32 p page_size) vend k' (omega arith)
                  (omega (arith, step)) (omega (arith, low)) hv)
          ])
    ]

-- For a range whose ends are more than two pages below 2 ^ 32, the rounds given to the loop of
-- `freerange` are enough: any larger number of rounds gives the same result.
pub freerange-fuel :
    (b : Bounds) (n vstart vend : ℕ) (k : Kmem)
    → vstart + 2 * page_size < 2 ^ 32
    → vend + page_size < 2 ^ 32
    → vend / page_size + 1 ≤ n
    → free_pages b n (round_up vstart) vend k ≡ freerange b vstart vend k
unfolding freerange
freerange-fuel b n vstart vend k hs hv enough =
    free_pages-stable b (vend / page_size + 1) n (round_up vstart) vend k enough (ground arith)
      (ground arith) hv
