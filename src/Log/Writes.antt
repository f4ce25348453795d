-- ===== src/Log/Writes.antt =====
-- The copying loops of log.c: what they leave in memory and on the disk, with any power.
use modified_xv.Base.{
  ℕ, zero, suc, ◌+◌, ◌-◌, ◌≤◌, ◌<◌, ◌≡◌, ◌≢◌, refl, sym, ap, ◌∙◌, Bool, true, false, arith, ◌==◌,
  if◌then◌else◌, window, has, Bool-cases, inl, inr, ==_iff,
}
use modified_xv.Log.Blocks.{Layout, Machine, bwrite, modify}
use modified_xv.Log.{Header, slot, copy_block, install_from, write_from, write_head}

pub ne_test : (x y : ℕ) → x ≢ y → (x == y) ≡ false
ne_test x y h = ground arith

pub spared {ℓ} :
    {A : Type ℓ} (a : A) {b : A} {e : Bool}
    → e ≡ false
    → (t : Bool) → (if t then b else if e then a else b) ≡ b
spared a h true = refl
spared a h false = rw h

module _ (L : Layout) where
  open L use {Block}

  mem-copy_block :
      (src dst x : ℕ) (m : Machine Block)
      → (copy_block L src dst m).mem x ≡ (if x == dst then m.mem src else m.mem x)
  unfolding copy_block bwrite modify
  mem-copy_block src dst x m = ground arith

  disk-copy_block :
      (src dst x : ℕ) (m : Machine Block)
      → (copy_block L src dst m).disk x
        ≡ (if m.power == 0 then m.disk x else if x == dst then m.mem src else m.disk x)
  unfolding copy_block bwrite modify
  disk-copy_block src dst x m = ground arith

  power-copy_block :
      (src dst : ℕ) (m : Machine Block) → (copy_block L src dst m).power ≡ m.power - 1
  unfolding copy_block bwrite modify
  power-copy_block src dst m = ground arith

  -- `write_log` spares every block that is not one of its slots.
  pub write_from_frame :
      (start : ℕ) (block : ℕ → ℕ) (x i left : ℕ) (m : Machine Block)
      → ((j : ℕ) → i ≤ j → j < i + left → x ≢ slot start j)
      → ((write_from L start block i left m).mem x ≡ m.mem x)
        × ((write_from L start block i left m).disk x ≡ m.disk x)
  unfolding write_from
  write_from_frame start block x i zero m out = (refl, refl)
  write_from_frame start block x i (suc left) m out =
      let c = copy_block L (block i) (slot start i) m in
      let (a, b) =
        write_from_frame start block x (suc i) left c
          (λ j p q. out j (omega arith) (omega arith)) in
      let ne : (x == slot start i) ≡ false =
        ne_test x (slot start i) (out i (omega arith) (omega arith)) in
      (
        a ∙ mem-copy_block (block i) (slot start i) x m ∙ rw ne,
        b
            ∙ disk-copy_block (block i) (slot start i) x m
            ∙ spared (m.mem (block i)) ne (m.power == 0),
      )

  pub power-write_from :
      (start : ℕ) (block : ℕ → ℕ) (i left : ℕ) (m : Machine Block)
      → (write_from L start block i left m).power ≡ m.power - left
  unfolding write_from
  power-write_from start block i zero m = omega arith
  power-write_from start block i (suc left) m = omega (
    arith,
    power-write_from start block (suc i) left (copy_block L (block i) (slot start i) m),
    power-copy_block (block i) (slot start i) m,
  )

  -- With the power for all rounds each slot holds its block, if no block is a slot.
  pub write_from-slot :
      (start : ℕ) (block : ℕ → ℕ) (j i left : ℕ) (m : Machine Block)
      → ((a b : ℕ) → a < i + left → b < i + left → block b ≢ slot start a)
      → i ≤ j
      → j < i + left
      → left ≤ m.power
      → ((write_from L start block i left m).mem (slot start j) ≡ m.mem (block j))
        × ((write_from L start block i left m).disk (slot start j) ≡ m.mem (block j))
  unfolding write_from
  write_from-slot start block j i zero m apart p q pow = absurd (omega arith)
  write_from-slot start block j i (suc left) m apart p q pow =
      let c = copy_block L (block i) (slot start i) m in
      elim (Bool-cases (j == i)) [
        | inl e ↦
            let k : j ≡ i = (==_iff j i).0 e in
            let (a, b) =
              write_from_frame start block (slot start j) (suc i) left c (λ d p q. omega arith) in
            let here : (slot start j == slot start i) ≡ true = ground arith in
            let on : (m.power == 0) ≡ false = ground arith in
            (
              a ∙ mem-copy_block (block i) (slot start i) (slot start j) m ∙ rw (here, k),
              b ∙ disk-copy_block (block i) (slot start i) (slot start j) m ∙ rw (on, here, k),
            )
        | inr e ↦
            let more : left ≤ c.power =
              omega (arith, power-copy_block (block i) (slot start i) m) in
            let (a, b) =
              write_from-slot start block j (suc i) left c
                (λ a b g h. apart a b (omega arith) (omega arith)) (ground arith) (omega arith)
                more in
            let same : c.mem (block j) ≡ m.mem (block j) =
              mem-copy_block (block i) (slot start i) (block j) m
              ∙ rw (ne_test (block j) (slot start i) (apart i j (omega arith) (omega arith))) in
            (a ∙ same, b ∙ same)
      ]

  -- `install_trans` spares every block that is not logged.
  pub install_from_frame :
      (start : ℕ) (block : ℕ → ℕ) (x i left : ℕ) (m : Machine Block)
      → has x (window block i left) ≡ false
      → ((install_from L start block i left m).mem x ≡ m.mem x)
        × ((install_from L start block i left m).disk x ≡ m.disk x)
  unfolding install_from
  install_from_frame start block x i zero m out = (refl, refl)
  install_from_frame start block x i (suc left) m out =
      let c = copy_block L (slot start i) (block i) m in
      let (a, b) = install_from_frame start block x (suc i) left c (ground arith) in
      let ne : (x == block i) ≡ false = ground arith in
      (
        a ∙ mem-copy_block (slot start i) (block i) x m ∙ rw ne,
        b
            ∙ disk-copy_block (slot start i) (block i) x m
            ∙ spared (m.mem (slot start i)) ne (m.power == 0),
      )

  pub power-install_from :
      (start : ℕ) (block : ℕ → ℕ) (i left : ℕ) (m : Machine Block)
      → (install_from L start block i left m).power ≡ m.power - left
  unfolding install_from
  power-install_from start block i zero m = omega arith
  power-install_from start block i (suc left) m = omega (
    arith,
    power-install_from start block (suc i) left (copy_block L (slot start i) (block i) m),
    power-copy_block (slot start i) (block i) m,
  )

  -- Where the slots hold the values `v` of the logged blocks, and no block is a slot, the rounds
  -- that have power bring each logged block to its value.
  pub install_from_hit :
      (start : ℕ) (block : ℕ → ℕ) (v : ℕ → Block) (x i left : ℕ) (m : Machine Block)
      → ((a b : ℕ) → a < i + left → b < i + left → block b ≢ slot start a)
      → ((j : ℕ) → i ≤ j → j < i + left → m.mem (slot start j) ≡ v (block j))
      → has x (window block i left) ≡ true
      → left ≤ m.power
      → ((install_from L start block i left m).mem x ≡ v x)
        × ((install_from L start block i left m).disk x ≡ v x)
  unfolding install_from
  install_from_hit start block v x i zero m apart vals h pow = cc
  install_from_hit start block v x i (suc left) m apart vals h pow =
      let c = copy_block L (slot start i) (block i) m in
      let more : left ≤ c.power = omega (arith, power-copy_block (slot start i) (block i) m) in
      elim (Bool-cases (has x (window block (suc i) left))) [
        | inl e ↦
            install_from_hit start block v x (suc i) left c
              (λ a b g k. apart a b (omega arith) (omega arith))
              (λ j p q.
                mem-copy_block (slot start i) (block i) (slot start j) m
                ∙ rw
                    (ne_test (slot start j) (block i)
                      (λ z. apart j i (omega arith) (omega arith) (sym z)))
                    (vals j (omega arith) (omega arith)))
              e more
        | inr e ↦
            let (a, b) = install_from_frame start block x (suc i) left c e in
            let k : x ≡ block i = ground arith in
            let here : (x == block i) ≡ true = ground arith in
            let on : (m.power == 0) ≡ false = ground arith in
            let val = vals i (omega arith) (omega arith) in
            (
              a ∙ mem-copy_block (slot start i) (block i) x m ∙ rw here (val ∙ ap v (sym k)),
              b ∙ disk-copy_block (slot start i) (block i) x m ∙ rw (on, here) (val ∙ ap v (sym k)),
            )
      ]

  -- Only the entries in range count.
  pub install_from_congr :
      (start : ℕ) (block block' : ℕ → ℕ) (i left : ℕ) (m : Machine Block)
      → ((j : ℕ) → i ≤ j → j < i + left → block j ≡ block' j)
      → install_from L start block i left m ≡ install_from L start block' i left m
  unfolding install_from
  install_from_congr start block block' i zero m h = refl
  install_from_congr start block block' i (suc left) m h =
      ap (λ b. install_from L start block (suc i) left (copy_block L (slot start i) b m))
        (h i (omega arith) (omega arith))
      ∙ install_from_congr start block block' (suc i) left
          (copy_block L (slot start i) (block' i) m) (λ j p q. h j (omega arith) (omega arith))

  pub install_from_dead :
      (start : ℕ) (block : ℕ → ℕ) (x i left : ℕ) (m : Machine Block)
      → m.power ≡ 0
      → (install_from L start block i left m).disk x ≡ m.disk x
  unfolding install_from
  install_from_dead start block x i zero m h = refl
  install_from_dead start block x i (suc left) m h =
      install_from_dead start block x (suc i) left _
        (omega (arith, power-copy_block (slot start i) (block i) m))
      ∙ disk-copy_block (slot start i) (block i) x m
      ∙ rw (h)

  pub mem-write_head :
      (start : ℕ) (lh : Header) (x : ℕ) (m : Machine Block)
      → (write_head L start lh m).mem x
        ≡ (if x == start then L.put_head lh.n lh.block (m.mem start) else m.mem x)
  unfolding write_head bwrite modify
  mem-write_head start lh x m = ground arith

  pub disk-write_head :
      (start : ℕ) (lh : Header) (x : ℕ) (m : Machine Block)
      → (write_head L start lh m).disk x ≡ (
          if m.power == 0
          then m.disk x
          else if x == start
          then L.put_head lh.n lh.block (m.mem start)
          else m.disk x)
  unfolding write_head bwrite modify
  disk-write_head start lh x m = ground arith

  pub power-write_head :
      (start : ℕ) (lh : Header) (m : Machine Block) → (write_head L start lh m).power ≡ m.power - 1
  unfolding write_head bwrite modify
  power-write_head start lh m = ground arith

  pub install_from_none :
      (start : ℕ) (block : ℕ → ℕ) (m : Machine Block) → install_from L start block 0 0 m ≡ m
  unfolding install_from
  install_from_none start block m = refl
