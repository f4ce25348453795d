-- ===== src/Memory/Chain.antt =====
-- The free list of kalloc.c as a list of pages, under kfree and kalloc.
use modified_xv.Base.{
  ℕ, ◌≡◌, ◌≢◌, refl, sym, ◌∙◌, true, false, some, List, [], ◌∷◌, arith, ◌==◌, update, has, NoDup,
  ==_refl,
}
use modified_xv.Memory.{Bounds, Kmem, is_page, kfree, kalloc}

-- From `p` the words lead through the pages `xs` to the null pointer.
pub data Chain (word : ℕ → ℕ) : ℕ → List ℕ → Type 0 where
  null : {p : ℕ} → p ≡ 0 → Chain word p []
  page : {p : ℕ} {xs : List ℕ} → p ≢ 0 → Chain word (word p) xs → Chain word p (p ∷ xs)

Chain-frame :
    {word : ℕ → ℕ} {p : ℕ} {xs : List ℕ} (v w : ℕ)
    → Chain word p xs
    → has v xs ≡ false
    → Chain (update word v w) p xs
Chain-frame v w (null e) out = null e
Chain-frame {word} v w (page {p} {xs} ne c) out =
    let off : (p == v) ≡ false = ground arith in page ne (rw off (Chain-frame v w c (ground arith)))

abbrev pub AllPages : Bounds → List ℕ → Type 0
AllPages b [] = Unit
AllPages b (x ∷ xs) = (is_page b x ≡ true) × AllPages b xs

-- The allocator holds the free pages `xs`, each once.
pub record Holds (b : Bounds) (k : Kmem) (xs : List ℕ) : Type 0 where
  pub chain : Chain k.word k.freelist xs
  pub nodup : NoDup xs
  pub pages : AllPages b xs

-- Where the free list holds `xs`, freeing a valid page that is not among them does not panic, and
-- the list then holds that page and `xs`.
pub kfree-Holds :
    (b : Bounds) (v : ℕ) (k : Kmem) (xs : List ℕ)
    → Holds b k xs
    → v ≢ 0
    → has v xs ≡ false
    → is_page b v ≡ true
    → (k' : Kmem) × (kfree b v k ≡ some k') × Holds b k' (v ∷ xs)
unfolding kfree
kfree-Holds b v k xs h ne out ok = (
  record { word = update (update k.word v 0x01010101) v k.freelist; freelist = v },
  rw ok,
  record {
    chain =
        page ne
          (rw (==_refl v) (Chain-frame v k.freelist (Chain-frame v 0x01010101 h.chain out) out));
    nodup = (out, h.nodup);
    pages = (ok, h.pages);
  },
)

-- What `kalloc` returns: the front page, which is a page and no longer free, or 0 from an empty
-- list, which changes nothing.
abbrev pub Allocated : Bounds → Kmem → List ℕ → ℕ × Kmem → Type 0
Allocated b k [] (p, k') = (p ≡ 0) × (k' ≡ k)
Allocated b k (x ∷ xs) (p, k') =
    (p ≡ x) × (x ≢ 0) × (is_page b x ≡ true) × (has x xs ≡ false) × Holds b k' xs

kalloc-Chain :
    (b : Bounds) (k : Kmem) (p : ℕ) (xs : List ℕ)
    → p ≡ k.freelist
    → Chain k.word p xs
    → NoDup xs
    → AllPages b xs
    → Allocated b k xs (kalloc k)
unfolding kalloc
kalloc-Chain b k p [] e (null z) d a = (sym e ∙ z, rw (sym e ∙ z))
kalloc-Chain b k p (x ∷ xs) e (page ne c) d a =
    let some_page : (k.freelist == 0) ≡ false = ground (arith, ne, e) in
    (sym e, ne, a.0, d.0, rw (some_page, ← e) (record { chain = c; nodup = d.1; pages = a.1 }))

-- Where the free list holds the pages `xs`, each once, `kalloc` returns the front page, which is a
-- valid page and is no longer free, and the rest are still held; from an empty list it returns 0
-- and changes nothing.
pub kalloc-Holds :
    (b : Bounds) (k : Kmem) (xs : List ℕ) → Holds b k xs → Allocated b k xs (kalloc k)
kalloc-Holds b k xs h = kalloc-Chain b k k.freelist xs refl h.chain h.nodup h.pages
