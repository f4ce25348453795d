-- ===== src/Memory/Tests.antt =====
-- The allocator over three pages, and the theorems at concrete states.
use modified_xv.Base.{ℕ, ◌+◌, ◌≡◌, refl, some, [], ◌∷◌, arith}
use modified_xv.Memory.{Bounds, Kmem, kfree, kalloc, is_page, kernbase}
use modified_xv.Memory.Chain.{null, page, Holds, Allocated, kfree-Holds, kalloc-Holds}

abbrev bounds : Bounds
bounds = record { end_addr = kernbase + 0x100000 }

abbrev empty : Kmem
empty = record { word = λ _. 0; freelist = 0 }

abbrev page_one : ℕ
page_one = kernbase + 0x200000

abbrev page_two : ℕ
page_two = kernbase + 0x201000

empty-Holds : Holds bounds empty []
empty-Holds = record { chain = null refl; nodup = tt; pages = tt }

one-Holds : Holds bounds (record { word = λ _. 0; freelist = page_one }) (page_one ∷ [])
unfolding is_page
one-Holds = record {
  chain = page (omega arith) (null refl);
  nodup = (refl, tt);
  pages = (refl, tt);
}

kfree-Holds_example :
    (k' : Kmem) × (kfree bounds page_two (record { word = λ _. 0; freelist = page_one }) ≡ some k')
    × Holds bounds k' (page_two ∷ page_one ∷ [])
unfolding is_page
kfree-Holds_example =
    kfree-Holds bounds page_two (record { word = λ _. 0; freelist = page_one }) (page_one ∷ [])
      one-Holds (omega arith) refl refl

kalloc-Holds_example :
    Allocated bounds
      (record { word = λ _. 0; freelist = page_one })
      (page_one ∷ [])
      (kalloc (record { word = λ _. 0; freelist = page_one }))
kalloc-Holds_example =
    kalloc-Holds bounds (record { word = λ _. 0; freelist = page_one }) (page_one ∷ []) one-Holds
