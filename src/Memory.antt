-- ===== src/Memory.antt =====
-- kalloc.c: the pages of physical memory, on a free list that runs through the pages themselves.
pub mod Chain
pub mod Fuel
mod Tests
use modified_xv.Base.{
  ℕ, zero, suc, ◌+◌, ◌-◌, ◌*◌, ◌/◌, ◌%◌, Bool, true, false, ◌||◌, not, Option, none, some, ◌==◌,
  ltb, leb, if◌then◌else◌, update, add32, sub32,
}

-- The bounds that the linker and memlayout.h give: `end`, and PHYSTOP with KERNBASE.
pub record Bounds : Type 0 where
  pub end_addr : ℕ

abbrev pub page_size : ℕ
page_size = 4096

abbrev pub kernbase : ℕ
kernbase = 0x80000000

abbrev pub phystop : ℕ
phystop = 0xE000000

-- `kmem.freelist` with the first word of each page, where `struct run` keeps its `next`.
pub record Kmem : Type 0 where
  pub word : ℕ → ℕ
  pub freelist : ℕ

-- What `memset(v, 1, PGSIZE)` leaves in the first word.
abbrev pub junk : ℕ
junk = 0x01010101

-- The check of `kfree`: page-aligned, not in the kernel's image, below PHYSTOP.
unfoldable pub is_page : Bounds → ℕ → Bool
is_page b v = not (not (v % page_size == 0) || ltb v b.end_addr || leb phystop (sub32 v kernbase))

-- `kfree`; `none` is the panic.
pub kfree : Bounds → ℕ → Kmem → Option Kmem
unfolding is_page
kfree b v k =
    if is_page b v
    then (let word = update k.word v junk in
        some (record { word = update word v k.freelist; freelist = v }))
    else none

-- `kalloc`: a page, or 0.
pub kalloc : Kmem → ℕ × Kmem
kalloc k = (k.freelist, if k.freelist == 0 then k else record k { freelist = k.word k.freelist })

-- `PGROUNDUP`
abbrev pub round_up : ℕ → ℕ
round_up a = add32 a 4095 / page_size * page_size

-- The loop of `freerange` from `p`, with `fuel` rounds at most; `none` is a panic of `kfree`.
pub free_pages : Bounds → ℕ → ℕ → ℕ → Kmem → Option Kmem
unfolding kfree
free_pages b zero p vend k = some k
free_pages b (suc fuel) p vend k =
    let rest = λ (k' : Kmem). free_pages b fuel (add32 p page_size) vend k' in
    if leb (add32 p page_size) vend
    then elim (kfree b p k) [ none ↦ none | some k' ↦ rest k' ]
    else some k

-- Every round moves `p` one page up to `vend`.
pub freerange : Bounds → ℕ → ℕ → Kmem → Option Kmem
freerange b vstart vend k = free_pages b (vend / page_size + 1) (round_up vstart) vend k
