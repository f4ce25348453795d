-- ===== src/Proc/System/Capacity.antt =====
-- The lengths of the queues against the NPROC slots of a row of `qu`.
use modified_xv.Base.{
  ℕ, zero, suc, ◌≤◌, ◌<◌, ◌≡◌, sym, ◌∙◌, true, false, List, [], ◌∷◌, arith, ◌==◌, has, NoDup, erase,
  length, length-window, has-erase_ne, has-erase_self, NoDup-erase, length-erase, Bool-cases, inl,
  inr, ==_iff,
}
use modified_xv.Proc.State.{Kernel, nproc}
use modified_xv.Proc.Queue.{contents}
use modified_xv.Proc.Services.{Services}
use modified_xv.Proc.Invariant.{Inv, IsValid}
use modified_xv.Proc.Invariant.Queues.{absent}
use modified_xv.Proc.System.{Config, Reach}
use modified_xv.Proc.System.Safety.{Reach-IsValid}

abbrev Below : ℕ → List ℕ → Type 0
Below n xs = (y : ℕ) → has y xs ≡ true → y < n

below_of_ne : {n y : ℕ} → y < suc n → (y == n) ≡ false → y < n
below_of_ne h e = ground arith

erase-Below : (n : ℕ) (xs : List ℕ) → NoDup xs → Below (suc n) xs → Below n (erase n xs)
erase-Below n xs d b y m = elim (Bool-cases (y == n)) [
  | inl e ↦ cc (has-erase_self n xs d, m, (==_iff y n).0 e)
  | inr e ↦ below_of_ne (b y (sym (has-erase_ne n y xs (ground arith)) ∙ m)) e
]

trim-Below : (n : ℕ) (xs : List ℕ) → has n xs ≡ false → Below (suc n) xs → Below n xs
trim-Below n xs h b y m = elim (Bool-cases (y == n)) [
  | inl e ↦ cc (h, m, (==_iff y n).0 e)
  | inr e ↦ below_of_ne (b y m) e
]

-- Different numbers below `n` are at most `n`.
pub length-le-bound : (n : ℕ) (xs : List ℕ) → NoDup xs → Below n xs → length xs ≤ n
length-le-bound zero [] d b = omega arith
length-le-bound zero (x ∷ xs) d b = absurd (omega (arith, b x (ground arith)))
length-le-bound (suc n) xs d b = elim (Bool-cases (has n xs)) [
  | inl h ↦
      let shorter = length-le-bound n (erase n xs) (NoDup-erase n xs d) (erase-Below n xs d b) in
      omega (arith, shorter, length-erase n xs h)
  | inr h ↦ omega (arith, length-le-bound n xs d (trim-Below n xs h b))
]

module _ {e : ℕ} {k : Kernel} (v : Inv e k) (l : ℕ) (low : l < 5) where
  count-le : (k.queues l).count ≤ nproc
  count-le =
      let b =
        length-le-bound nproc (contents (k.queues l)) (v.nodup l low)
          (λ y m. (v.member l y low m).small) in
      omega (arith, b, length-window (k.queues l).slots 0 (k.queues l).count)

  -- The row has a free slot for a process that is not in it.
  pub count-lt :
      (i : ℕ) → i < nproc → has i (contents (k.queues l)) ≡ false → (k.queues l).count < nproc
  count-lt i small out =
      let b =
        length-le-bound nproc (i ∷ contents (k.queues l)) (out, v.nodup l low)
          (Below-cons i small) in
      omega (arith, b, length-window (k.queues l).slots 0 (k.queues l).count)
    where
      Below-cons : (i : ℕ) → i < nproc → Below nproc (i ∷ contents (k.queues l))
      Below-cons i small y m = elim (Bool-cases (i == y)) [
        | inl e ↦ rw (← (==_iff i y).0 e) small
        | inr e ↦ (v.member l y low (rw e at m)).small
      ]

-- In every state reached from a valid one each of the five queues has at most NPROC entries.
pub Reach-count-le :
    {S : Services} {st st' : Config S} (l : ℕ)
    → l < 5
    → IsValid st.0
    → Reach S st st'
    → (st'.0.queues l).count ≤ nproc
Reach-count-le l low v r = count-le (Reach-IsValid v r) l low

-- Where the invariant holds but for process `i`, which is in no queue, the level of `i` names one
-- of the five queues and that queue has a free slot: the append writes inside the array.
pub enqueue-in_bounds :
    (k : Kernel) (i : ℕ)
    → Inv i k
    → i < nproc
    → ((k.table i).cur_q < 5) × ((k.queues (k.table i).cur_q).count < nproc)
enqueue-in_bounds k i v small =
    let low = v.level i small in (low, count-lt v (k.table i).cur_q low i small (absent i v _ low))
