-- ===== src/Fs/Cache/Handles.antt =====
-- iget of fs.c: at most one entry in use for each inode.
use modified_xv.Base.{
  ℕ, zero, suc, ◌+◌, ◌≤◌, ◌<◌, ◌^◌, ◌≡◌, ◌≢◌, refl, sym, ap, ◌∙◌, arith, true, false, Option, none,
  some, ◌⊎◌, inl, inr, ◌==◌, ==_iff, ==_refl, some_inj, update, add32, Bool-cases,
}
use modified_xv.Fs.Cache.{Cached, Icache, ninode, remember, is_for, look_up, iget, put_entry}

-- Two entries in use are never for the same inode.
abbrev pub IsUnique : (ℕ → Cached) → Type 0
IsUnique cache =
    (i j : ℕ)
    → i < ninode
    → j < ninode
    → 0 < (cache i).ref
    → 0 < (cache j).ref
    → (cache i).dev ≡ (cache j).dev
    → (cache i).node.inum ≡ (cache j).node.inum
    → i ≡ j

-- A new entry that is for no inode of another entry in use.
pub IsUnique-update :
    (cache : ℕ → Cached) (i : ℕ) (c : Cached)
    → IsUnique cache
    → ((j : ℕ)
        → j < ninode
        → j ≢ i
        → 0 < (cache j).ref
        → 0 < c.ref
        → c.dev ≡ (cache j).dev
        → c.node.inum ≡ (cache j).node.inum
        → ⊥)
    → IsUnique (update cache i c)
IsUnique-update cache i c u clash a b la lb ra rb d n = elim (Bool-cases (a == i)) [
  | inl x ↦ elim (Bool-cases (b == i)) [
    | inl y ↦ ground (arith, x, y)
    | inr y ↦
        let other : b ≢ i = ground (arith, y) in
        absurd (clash b lb other (rw y at rb) (rw x at ra) (rw (x, y) at d) (rw (x, y) at n))
  ]
  | inr x ↦ elim (Bool-cases (b == i)) [
    | inl y ↦
        let other : a ≢ i = ground (arith, x) in
        absurd
          (clash a la other (rw x at ra) (rw y at rb) (sym (rw (x, y) at d)) (sym (rw (x, y) at n)))
    | inr y ↦ u a b la lb (rw x at ra) (rw y at rb) (rw (x, y) at d) (rw (x, y) at n)
  ]
]

-- Another count of an entry in use.
pub IsUnique-ref :
    (cache : ℕ → Cached) (i n : ℕ)
    → IsUnique cache
    → i < ninode
    → 0 < (cache i).ref
    → IsUnique (update cache i (record (cache i) { ref = n }))
IsUnique-ref cache i n u lt pos =
    IsUnique-update cache i (record (cache i) { ref = n }) u
      λ j l ne r p d m. ne (sym (u i j lt l pos r d m))

-- The empty slot after the search: one that was known or was found, or none where all are used.
abbrev Slot : (ℕ → Cached) → ℕ → ℕ → Option ℕ → Option ℕ → Type 0
Slot cache i left empty (some e) = (empty ≡ some e) ⊎ ((e < i + left) × ((cache e).ref ≡ 0))
Slot cache i left empty none = (empty ≡ none) × ((j : ℕ) → i ≤ j → j < i + left → 0 < (cache j).ref)

-- The result of the search from entry `i` on.
abbrev Looks : (ℕ → Cached) → ℕ → ℕ → ℕ → ℕ → Option ℕ → ℕ ⊎ Option ℕ → Type 0
Looks cache dev inum i left empty (inl r) = (r < i + left) × (is_for dev inum (cache r) ≡ true)
Looks cache dev inum i left empty (inr found) =
    ((j : ℕ) → i ≤ j → j < i + left → is_for dev inum (cache j) ≡ false)
    × Slot cache i left empty found

later-Slot :
    (cache : ℕ → Cached) (i left : ℕ) (empty found : Option ℕ)
    → Slot cache (suc i) left (remember (cache i).ref i empty) found
    → Slot cache i (suc left) empty found
unfolding remember
later-Slot cache i left (some x) (some e) (inl h) = inl h
later-Slot cache i left (some x) (some e) (inr (lt, z)) = inr (omega (arith, lt), z)
later-Slot cache i left (some x) none (h, all) = cc h
later-Slot cache i left none (some e) (inr (lt, z)) = inr (omega (arith, lt), z)
later-Slot cache i left none (some e) (inl h) = elim (Bool-cases ((cache i).ref == 0)) [
  | inl z ↦
      let q : i ≡ e = some_inj (rw z at h) in
      inr (omega (arith, q), ap (λ t. (cache t).ref) (sym q) ∙ (==_iff _ _).0 z)
  | inr z ↦ cc (rw z at h)
]
later-Slot cache i left none none (h, all) = (
  refl,
  λ j ge lt. elim (Bool-cases (j == i)) [
    | inr z ↦ all j (ground (arith, ge, z)) (omega (arith, lt))
    | inl z ↦ elim (Bool-cases ((cache i).ref == 0)) [
      | inl y ↦ cc (rw y at h)
      | inr y ↦
          let q : (cache j).ref ≡ (cache i).ref = ap (λ t. (cache t).ref) ((==_iff j i).0 z) in
          ground (arith, y, q)
    ]
  ],
)

later :
    (cache : ℕ → Cached) (dev inum i left : ℕ) (empty : Option ℕ) (r : ℕ ⊎ Option ℕ)
    → is_for dev inum (cache i) ≡ false
    → Looks cache dev inum (suc i) left (remember (cache i).ref i empty) r
    → Looks cache dev inum i (suc left) empty r
later cache dev inum i left empty (inl r) no_match (lt, e) = (omega (arith, lt), e)
later cache dev inum i left empty (inr found) no_match (none_of, s) = (
  (λ j ge lt. elim (Bool-cases (j == i)) [
    | inl z ↦ ap (λ t. is_for dev inum (cache t)) ((==_iff j i).0 z) ∙ no_match
    | inr z ↦ none_of j (ground (arith, ge, z)) (omega (arith, lt))
  ]),
  later-Slot cache i left empty found s,
)

look_up_lem :
    (cache : ℕ → Cached) (dev inum left i : ℕ) (empty : Option ℕ)
    → Looks cache dev inum i left empty (look_up cache dev inum i left empty)
unfolding look_up
look_up_lem cache dev inum zero i none =
    ((λ j a b. absurd (omega arith)), (refl, λ j a b. absurd (omega arith)))
look_up_lem cache dev inum zero i (some e) = ((λ j a b. absurd (omega arith)), inl refl)
look_up_lem cache dev inum (suc left) i empty = elim (Bool-cases (is_for dev inum (cache i))) [
  | inl e ↦ rw e (omega arith, e)
  | inr e ↦
      let h = look_up_lem cache dev inum left (suc i) (remember (cache i).ref i empty) in
      rw e (
        later cache dev inum i left empty
          (look_up cache dev inum (suc i) left (remember (cache i).ref i empty)) e h)
]

-- What `iget` does when it gives entry `i`.
pub record Got (dev inum : ℕ) (k : Icache) (i : ℕ) (k' : Icache) : Type 0 where
  pub small : i < ninode
  pub device : (k'.entry i).dev ≡ dev
  pub number : (k'.entry i).node.inum ≡ inum
  pub counted : (k'.entry i).ref ≡ suc (k.entry i).ref
  pub shared :
      0 < (k.entry i).ref
      → ((k'.entry i).node ≡ (k.entry i).node) × ((k'.entry i).valid ≡ (k.entry i).valid)
  pub stale : (k.entry i).ref ≡ 0 → (k'.entry i).valid ≡ false
  pub others : (j : ℕ) → j ≢ i → k'.entry j ≡ k.entry j
  pub disk : k'.fs ≡ k.fs
  pub unique : IsUnique k'.entry

-- The result of `iget`; it panics where all entries are in use, for other inodes.
abbrev pub Gets : ℕ → ℕ → Icache → Option (ℕ × Icache) → Type 0
Gets dev inum k (some (i, k')) = Got dev inum k i k'
Gets dev inum k none =
    (j : ℕ) → j < ninode → (0 < (k.entry j).ref) × (is_for dev inum (k.entry j) ≡ false)

module _ (dev inum : ℕ) (k : Icache) (unique : IsUnique k.entry)
    (few : (i : ℕ) → (k.entry i).ref < 2 ^ 31) where
  again :
      (i : ℕ)
      → i < ninode
      → is_for dev inum (k.entry i) ≡ true
      → Got dev inum k i (put_entry i (record (k.entry i) { ref = add32 (k.entry i).ref 1 }) k)
  again i lt e = record {
    small = lt;
    device = rw (==_refl i) (ground (arith, e));
    number = rw (==_refl i) (ground (arith, e));
    counted = rw (==_refl i) (omega (arith, few i));
    shared = λ pos. rw (==_refl i) (refl, refl);
    stale = λ z. absurd (ground (arith, e, z));
    others = λ j ne. let p : (j == i) ≡ false = ground (arith, ne) in rw p refl;
    disk = refl;
    unique = IsUnique-ref k.entry i (add32 (k.entry i).ref 1) unique lt (ground (arith, e));
  }

  recycled :
      (i : ℕ)
      → i < ninode
      → (k.entry i).ref ≡ 0
      → ((j : ℕ) → j < ninode → is_for dev inum (k.entry j) ≡ false)
      → Got dev inum k i (
          put_entry i
            (record {
              dev = dev;
              ref = 1;
              valid = false;
              node = record (k.entry i).node { inum = inum };
            })
            k)
  recycled i lt z no_match = record {
    small = lt;
    device = rw (==_refl i) refl;
    number = rw (==_refl i) refl;
    counted = rw (==_refl i, z) refl;
    shared = λ pos. absurd (omega (arith, pos, z));
    stale = λ y. rw (==_refl i) refl;
    others = λ j ne. let p : (j == i) ≡ false = ground (arith, ne) in rw p refl;
    disk = refl;
    unique =
        IsUnique-update k.entry i
          (record {
            dev = dev;
            ref = 1;
            valid = false;
            node = record (k.entry i).node { inum = inum };
          })
          unique λ j l ne r p d n. ground (arith, no_match j l, r, d, n);
  }

  -- Where no two entries in use are for the same inode and the counts are below 2 ^ 31, `iget`
  -- gives an entry for the inode with one reference more: one that was in use with what it holds,
  -- or an unused one marked as not valid. It changes no other entry and not the disk, and again no
  -- two entries in use are for the same inode. It panics only where all entries are in use, for
  -- other inodes.
  pub iget_lem : Gets dev inum k (iget dev inum k)
  unfolding iget
  iget_lem =
      answer (look_up k.entry dev inum 0 ninode none) (look_up_lem k.entry dev inum ninode 0 none)
    where
      answer :
          (r : ℕ ⊎ Option ℕ)
          → Looks k.entry dev inum 0 ninode none r
          → Gets dev inum k (elim r [
            | inl i ↦ some (i, put_entry i (record (k.entry i) { ref = add32 (k.entry i).ref 1 }) k)
            | inr none ↦ none
            | inr (some i) ↦ some (
              i,
              put_entry i
                  (record {
                    dev = dev;
                    ref = 1;
                    valid = false;
                    node = record (k.entry i).node { inum = inum };
                  })
                  k,
            )
          ])
      answer (inl i) (lt, e) = again i (omega (arith, lt)) e
      answer (inr none) (none_of, (z, all)) = λ j lt.
          (all j (omega arith) (omega (arith, lt)), none_of j (omega arith) (omega (arith, lt)))
      answer (inr (some i)) (none_of, inl h) = cc h
      answer (inr (some i)) (none_of, inr (lt, z)) =
          recycled i (omega (arith, lt)) z (λ j l. none_of j (omega arith) (omega (arith, l)))
