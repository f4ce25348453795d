-- ===== src/Fs/Inode/Trunc.antt =====
-- The two loops of itrunc in fs.c, and itrunc.
use modified_xv.Base.{
  ℕ, zero, suc, ◌+◌, ◌≤◌, ◌<◌, ◌≡◌, ◌≢◌, refl, sym, ap, ◌∙◌, false, some, ◌==◌, ==_iff, arith,
  Bool-cases, inl, inr, ◌⊎◌, update,
}
use modified_xv.Fs.Blocks.{Fs, bfree}
use modified_xv.Fs.Blocks.Bitmap.{IsFormatted}
use modified_xv.Fs.Inode.{Inode, entry, free_direct, free_entries}
use modified_xv.Fs.Inode.Slots.{IsHeld}
use modified_xv.Fs.Inode.Sweep.{IsSwept, IsSwept-none, IsSwept-trans, IsSwept-map, bfree-held}

-- The block numbers in entries `i` to `i + left` of a table.
abbrev pub Named : (ℕ → ℕ) → ℕ → ℕ → ℕ → Type 0
Named g i left a = (k : ℕ) × (i ≤ k) × (k < i + left) × (g k ≡ a) × (a ≢ 0)

-- They are held and distinct.
pub record IsOwned (s : Fs) (g : ℕ → ℕ) (i left : ℕ) : Type 0 where
  pub held : (k : ℕ) → i ≤ k → k < i + left → g k ≢ 0 → IsHeld s (g k)
  pub distinct :
      (j k : ℕ) → i ≤ j → j < i + left → i ≤ k → k < i + left → g j ≢ 0 → g j ≡ g k → j ≡ k

IsOwned-skip :
    (s : Fs) (g : ℕ → ℕ) (i left : ℕ) → IsOwned s g i (suc left) → IsOwned s g (suc i) left
IsOwned-skip s g i left o = record {
  held = λ k a b nz. o.held k (omega arith) (omega arith) nz;
  distinct = λ j k a b c d nz e.
      o.distinct j k (omega arith) (omega arith) (omega arith) (omega arith) nz e;
}

IsOwned-step :
    (s s1 : Fs) (g : ℕ → ℕ) (i left : ℕ)
    → IsSwept (λ a. a ≡ g i) s s1
    → IsOwned s g i (suc left)
    → IsOwned s1 g (suc i) left
IsOwned-step s s1 g i left w o = record {
  held = λ k a b nz.
      (w.others (g k) (o.held k (omega arith) (omega arith) nz) (λ e.
        let q = o.distinct k i (omega arith) (omega arith) (omega arith) (omega arith) nz e in
        absurd (omega (arith, q, a)))).0;
  distinct = λ j k a b c d nz e.
      o.distinct j k (omega arith) (omega arith) (omega arith) (omega arith) nz e;
}

-- An entry, and those after it.
Named-step :
    (s s1 s2 : Fs) (g : ℕ → ℕ) (i left : ℕ)
    → g i ≢ 0
    → IsSwept (λ a. a ≡ g i) s s1
    → IsSwept (Named g (suc i) left) s1 s2
    → IsSwept (Named g i (suc left)) s s2
Named-step s s1 s2 g i left nz v w =
    IsSwept-map (λ a. (a ≡ g i) ⊎ Named g (suc i) left a) (Named g i (suc left)) s s2
      (λ a d. elim d [
        | inl e ↦ (i, omega arith, omega arith, sym e, λ z. nz (sym e ∙ z))
        | inr (k, x, y, e, n) ↦ (k, omega arith, omega arith, e, n)
      ])
      (λ a (k, x, y, e, n). elim (Bool-cases (k == i)) [
        | inl z ↦ inl (sym e ∙ ap g ((==_iff k i).0 z))
        | inr z ↦ inr (k, ground (arith, x, z), omega (arith, y), e, n)
      ])
      (IsSwept-trans (λ a. a ≡ g i) (Named g (suc i) left) s s1 s2 v w)

Named-skip :
    (s s2 : Fs) (g : ℕ → ℕ) (i left : ℕ)
    → g i ≡ 0
    → IsSwept (Named g (suc i) left) s s2
    → IsSwept (Named g i (suc left)) s s2
Named-skip s s2 g i left empty w =
    IsSwept-map (Named g (suc i) left) (Named g i (suc left)) s s2
      (λ a (k, x, y, e, n). (k, omega arith, omega arith, e, n))
      (λ a (k, x, y, e, n). elim (Bool-cases (k == i)) [
        | inl z ↦ absurd (n (sym e ∙ ap g ((==_iff k i).0 z) ∙ empty))
        | inr z ↦ (k, ground (arith, x, z), omega (arith, y), e, n)
      ])
      w

-- One round that frees a block.
free_direct-suc :
    (left i : ℕ) (ip : Inode) (s : Fs) (b : ℕ) (s1 : Fs)
    → (ip.addrs i == 0) ≡ false
    → ip.addrs i ≡ b
    → bfree b s ≡ some s1
    → free_direct (suc left) i ip s
      ≡ free_direct left (suc i) (record ip { addrs = update ip.addrs i 0 }) s1
unfolding free_direct
free_direct-suc left i ip s b s1 e here p = rw (e, here, p) refl

free_entries-suc :
    (left j ind : ℕ) (s : Fs) (b : ℕ) (s1 : Fs)
    → (entry (s.block ind) j == 0) ≡ false
    → entry (s.block ind) j ≡ b
    → bfree b s ≡ some s1
    → free_entries (suc left) j ind s ≡ free_entries left (suc j) ind s1
unfolding free_entries
free_entries-suc left j ind s b s1 e here p = rw (e, here, p) refl

pub free_direct_lem :
    (g : ℕ → ℕ) (left i : ℕ) (ip : Inode) (s : Fs)
    → IsFormatted s
    → ((k : ℕ) → i ≤ k → ip.addrs k ≡ g k)
    → IsOwned s g i left
    → (ip' : Inode) × (s' : Fs) × (free_direct left i ip s ≡ some (ip', s'))
      × IsSwept (Named g i left) s s'
      × (ip' ≡ record ip { addrs = ip'.addrs })
      × ((k : ℕ) → i ≤ k → k < i + left → ip'.addrs k ≡ 0)
      × ((k : ℕ) → (k < i) ⊎ (i + left ≤ k) → ip'.addrs k ≡ ip.addrs k)
unfolding free_direct
free_direct_lem g zero i ip s ok same o = (
  ip,
  s,
  refl,
  IsSwept-none (Named g i 0) s ok (λ a (k, x, y, e, n). absurd (omega arith)),
  refl,
  (λ k a b. absurd (omega arith)),
  λ k h. refl,
)
free_direct_lem g (suc left) i ip s ok same o = elim (Bool-cases (ip.addrs i == 0)) [
  | inl e ↦
      let z : ip.addrs i ≡ 0 = (==_iff _ _).0 e in
      let (ip', s', eq, w, fields, zeros, rest) =
        free_direct_lem g left (suc i) ip s ok (λ k a. same k (omega arith))
          (IsOwned-skip s g i left o) in
      (
        ip',
        s',
        rw e eq,
        Named-skip s s' g i left (sym (same i (omega arith)) ∙ z) w,
        fields,
        (λ k a b. elim (Bool-cases (k == i)) [
          | inl q ↦ rest k (inl (ground (arith, q))) ∙ ap ip.addrs ((==_iff k i).0 q) ∙ z
          | inr q ↦ zeros k (ground (arith, a, q)) (omega (arith, b))
        ]),
        (λ k h.
            rest k (elim h [ inl x ↦ inl (omega (arith, x)) | inr x ↦ inr (omega (arith, x)) ])),
      )
  | inr e ↦
      let here : ip.addrs i ≡ g i = same i (omega arith) in
      let nz : g i ≢ 0 = λ z. cc ((==_iff _ _).1 (here ∙ z), e) in
      let (s1, p, v) = bfree-held s (g i) ok (o.held i (omega arith) (omega arith) nz) in
      let ip1 = record ip { addrs = update ip.addrs i 0 } in
      let (ip', s', eq, w, fields, zeros, rest) =
        free_direct_lem g left (suc i) ip1 s1 v.formatted
          (λ k a.
            let ne : (k == i) ≡ false = ground (arith, a) in rw ne (same k (omega (arith, a))))
          (IsOwned-step s s1 g i left v o) in
      (
        ip',
        s',
        free_direct-suc left i ip s (g i) s1 e here p ∙ eq,
        Named-step s s1 s' g i left nz v w,
        fields,
        (λ k a b. elim (Bool-cases (k == i)) [
          | inl q ↦ rest k (inl (ground (arith, q))) ∙ rw q refl
          | inr q ↦ zeros k (ground (arith, a, q)) (omega (arith, b))
        ]),
        (λ k h.
            let ne : (k == i) ≡ false = elim h [
              | inl x ↦ ground (arith, x)
              | inr x ↦ ground (arith, x)
            ] in
            rest k (elim h [ inl x ↦ inl (omega (arith, x)) | inr x ↦ inr (omega (arith, x)) ])
            ∙ rw ne refl),
      )
]

pub free_entries_lem :
    (g : ℕ → ℕ) (ind left j : ℕ) (s : Fs)
    → IsFormatted s
    → IsHeld s ind
    → ((k : ℕ) → entry (s.block ind) k ≡ g k)
    → ((k : ℕ) → j ≤ k → k < j + left → g k ≢ ind)
    → IsOwned s g j left
    → (s' : Fs) × (free_entries left j ind s ≡ some s') × IsSwept (Named g j left) s s'
unfolding free_entries
free_entries_lem g ind zero j s ok h same apart o =
    (s, refl, IsSwept-none (Named g j 0) s ok (λ a (k, x, y, e, n). absurd (omega arith)))
free_entries_lem g ind (suc left) j s ok h same apart o =
    elim (Bool-cases (entry (s.block ind) j == 0)) [
      | inl e ↦
          let z : g j ≡ 0 = sym (same j) ∙ (==_iff _ _).0 e in
          let (s', eq, w) =
            free_entries_lem g ind left (suc j) s ok h same
              (λ k a b. apart k (omega arith) (omega arith)) (IsOwned-skip s g j left o) in
          (s', rw e eq, Named-skip s s' g j left z w)
      | inr e ↦
          let nz : g j ≢ 0 = λ z. cc ((==_iff _ _).1 (same j ∙ z), e) in
          let (s1, p, v) = bfree-held s (g j) ok (o.held j (omega arith) (omega arith) nz) in
          let (h1, b1) = v.others ind h (λ z. apart j (omega arith) (omega arith) (sym z)) in
          let (s', eq, w) =
            free_entries_lem g ind left (suc j) s1 v.formatted h1
              (λ k. ap (λ f. entry f k) b1 ∙ same k) (λ k a b. apart k (omega arith) (omega arith))
              (IsOwned-step s s1 g j left v o) in
          (
            s',
            free_entries-suc left j ind s (g j) s1 e (same j) p ∙ eq,
            Named-step s s1 s' g j left nz v w,
          )
    ]
