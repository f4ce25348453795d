-- ===== src/Locks/Exclusion.antt =====
-- acquire and release of spinlock.c as steps of several CPUs on one lock.
use modified_xv.Base.{
  ℕ, suc, ◌≡◌, ◌≢◌, refl, ap, sym, ◌∙◌, ◌↔◌, Bool, true, false, ◌&&◌, not, arith, ◌==◌, Bool-cases,
  inl, inr, ==_iff, ==_refl, if◌then◌else◌, update,
}
use modified_xv.Locks.{Spinlock, holding, xchg, mark, unmark, unlock}

-- Where a CPU is in `acquire` and `release`.
pub data Place : Type 0 where
  -- Outside both.
  outside : Place
  -- In the loop on `xchg`.
  spinning : Place
  -- Past the loop, before `lk->cpu = mycpu()`.
  marking : Place
  -- Between `acquire` and `release`.
  inside : Place
  -- In `release` behind `lk->cpu = 0`.
  leaving : Place

abbrev pub busy : Place → Bool
busy outside = false
busy spinning = false
busy marking = true
busy inside = true
busy leaving = true

abbrev pub is_inside : Place → Bool
is_inside inside = true
is_inside _ = false

abbrev pub State : Type 0
State = Spinlock × (ℕ → Place)

pub data Step : State → State → Type 0 where
  -- `acquire` passes its check; the other outcome is a panic.
  enters :
      (c : ℕ) (l : Spinlock) (at : ℕ → Place)
      → at c ≡ outside
      → holding c l ≡ false
      → Step (l, at) (l, update at c spinning)
  -- An `xchg`: the loop ends where the lock was free.
  tries :
      (c : ℕ) (l : Spinlock) (at : ℕ → Place)
      → at c ≡ spinning
      → Step (l, at) ((xchg l).0, update at c (if (xchg l).1 then marking else spinning))
  marks :
      (c : ℕ) (l : Spinlock) (at : ℕ → Place)
      → at c ≡ marking
      → Step (l, at) (mark c l, update at c inside)
  -- `release` passes its check and clears the owner; the other outcome is a panic.
  leaves :
      (c : ℕ) (l : Spinlock) (at : ℕ → Place)
      → at c ≡ inside
      → holding c l ≡ true
      → Step (l, at) (unmark l, update at c leaving)
  unlocks :
      (c : ℕ) (l : Spinlock) (at : ℕ → Place)
      → at c ≡ leaving
      → Step (l, at) (unlock l, update at c outside)

pub data Reach (s : State) : State → Type 0 where
  here : Reach s s
  next : {t u : State} → Reach s t → Step t u → Reach s u

pub record IsExclusive (s : State) : Type 0 where
  pub locks : (c : ℕ) → busy (s.1 c) ≡ true → s.0.locked ≡ true
  pub one : (c d : ℕ) → busy (s.1 c) ≡ true → busy (s.1 d) ≡ true → c ≡ d
  pub owner : (c : ℕ) → is_inside (s.1 c) ≡ true → s.0.cpu ≡ suc c
  pub owned : (c : ℕ) → s.0.cpu ≡ suc c → is_inside (s.1 c) ≡ true

ne→off : {d c : ℕ} → d ≢ c → (d == c) ≡ false
ne→off h = ground arith

-- What a move of CPU `c` to `p` must keep.
record Moves (c : ℕ) (l : Spinlock) (at : ℕ → Place) (p : Place) : Type 0 where
  locks : busy p ≡ true → l.locked ≡ true
  kept : (d : ℕ) → d ≢ c → busy (at d) ≡ true → l.locked ≡ true
  alone : busy p ≡ true → (d : ℕ) → d ≢ c → busy (at d) ≡ false
  own : (is_inside p ≡ true) ↔ (l.cpu ≡ suc c)
  others : (d : ℕ) → d ≢ c → (is_inside (at d) ≡ true) ↔ (l.cpu ≡ suc d)

module _ (c : ℕ) (l l' : Spinlock) (at : ℕ → Place) (p : Place) (v : IsExclusive (l, at))
    (m : Moves c l' at p) where
  moved-IsExclusive : IsExclusive (l', update at c p)
  moved-IsExclusive = record {
    locks = λ d h. elim (Bool-cases (d == c)) [
      | inl e ↦ m.locks (rw e at h)
      | inr e ↦ m.kept d (off e) (rw e at h)
    ];
    one = λ d e h k. elim (Bool-cases (d == c)) [
      | inl x ↦ elim (Bool-cases (e == c)) [
        | inl y ↦ (==_iff d c).0 x ∙ sym ((==_iff e c).0 y)
        | inr y ↦ cc (m.alone (rw x at h) e (off y), rw y at k)
      ]
      | inr x ↦ elim (Bool-cases (e == c)) [
        | inl y ↦ cc (m.alone (rw y at k) d (off x), rw x at h)
        | inr y ↦ v.one d e (rw x at h) (rw y at k)
      ]
    ];
    owner = λ d h. elim (Bool-cases (d == c)) [
      | inl e ↦ m.own.0 (rw e at h) ∙ ap suc (sym ((==_iff d c).0 e))
      | inr e ↦ (m.others d (off e)).0 (rw e at h)
    ];
    owned = λ d h. elim (Bool-cases (d == c)) [
      | inl e ↦ rw e (m.own.1 (h ∙ ap suc ((==_iff d c).0 e)))
      | inr e ↦ rw e ((m.others d (off e)).1 h)
    ];
  }
    where
      off : {d : ℕ} → (d == c) ≡ false → d ≢ c
      off h = ground arith

-- The owner is the CPU inside.
owners :
    {l : Spinlock} {at : ℕ → Place}
    → IsExclusive (l, at)
    → (d : ℕ) → (is_inside (at d) ≡ true) ↔ (l.cpu ≡ suc d)
owners v d = (v.owner d, v.owned d)

inside_busy : (p : Place) → is_inside p ≡ true → busy p ≡ true
inside_busy inside h = refl
inside_busy outside h = cc
inside_busy spinning h = cc
inside_busy marking h = cc
inside_busy leaving h = cc

inside_of : (p : Place) → is_inside p ≡ true → p ≡ inside
inside_of inside h = refl
inside_of outside h = cc
inside_of spinning h = cc
inside_of marking h = cc
inside_of leaving h = cc

-- Beside a busy CPU no other is.
others_idle :
    {l : Spinlock} {at : ℕ → Place}
    → IsExclusive (l, at)
    → (c : ℕ) → busy (at c) ≡ true
    → (d : ℕ) → d ≢ c
    → busy (at d) ≡ false
others_idle {at} v c h d ne = elim (Bool-cases (busy (at d))) [
  | inl e ↦ absurd (ne (v.one d c e h))
  | inr e ↦ e
]

pub Step-IsExclusive : {s t : State} → Step s t → IsExclusive s → IsExclusive t
unfolding xchg mark unmark unlock
Step-IsExclusive (enters c l at out off) v = moved-IsExclusive c l l at spinning v (record {
  locks = λ h. cc;
  kept = λ d ne h. v.locks d h;
  alone = λ h. cc;
  own = (λ h. cc, λ h. cc (out, v.owned c h));
  others = λ d ne. owners v d;
})
Step-IsExclusive (tries c l at out) v = elim (Bool-cases l.locked) [
  | inl e ↦ rw e (
      moved-IsExclusive c l (record l { locked = true }) at spinning v
        (record {
          locks = λ h. refl;
          kept = λ d ne h. refl;
          alone = λ h. cc;
          own = (λ h. cc, λ h. cc (out, v.owned c h));
          others = λ d ne. owners v d;
        }))
  | inr e ↦ rw e (
      moved-IsExclusive c l (record l { locked = true }) at marking v
        (record {
          locks = λ h. refl;
          kept = λ d ne h. refl;
          alone =
              λ h d ne. elim (Bool-cases (busy (at d))) [ inl b ↦ cc (e, v.locks d b) | inr b ↦ b ];
          own = (λ h. cc, λ h. cc (out, v.owned c h));
          others = λ d ne. owners v d;
        }))
]
Step-IsExclusive (marks c l at out) v =
    let b : busy (at c) ≡ true = rw out refl in
    moved-IsExclusive c l (record l { cpu = suc c }) at inside v
      (record {
        locks = λ h. v.locks c b;
        kept = λ d ne h. v.locks d h;
        alone = λ h. others_idle v c b;
        own = (λ h. refl, λ h. refl);
        others = λ d ne. (
          λ h. cc (others_idle v c b d ne, inside_busy (at d) h),
          λ h. absurd (ne (ground arith)),
        );
      })
Step-IsExclusive (leaves c l at out on) v =
    let b : busy (at c) ≡ true = rw out refl in
    moved-IsExclusive c l (record l { cpu = 0 }) at leaving v
      (record {
        locks = λ h. v.locks c b;
        kept = λ d ne h. v.locks d h;
        alone = λ h. others_idle v c b;
        own = (λ h. cc, λ h. absurd (omega arith));
        others = λ d ne.
            (λ h. cc (others_idle v c b d ne, inside_busy (at d) h), λ h. absurd (omega arith));
      })
Step-IsExclusive (unlocks c l at out) v =
    let b : busy (at c) ≡ true = rw out refl in
    moved-IsExclusive c l (record l { locked = false }) at outside v
      (record {
        locks = λ h. cc;
        kept = λ d ne h. cc (others_idle v c b d ne, h);
        alone = λ h. cc;
        own = (λ h. cc, λ h. cc (out, v.owned c h));
        others = λ d ne. owners v d;
      })

pub Reach-IsExclusive : {s t : State} → IsExclusive s → Reach s t → IsExclusive t
Reach-IsExclusive v here = v
Reach-IsExclusive v (next r st) = Step-IsExclusive st (Reach-IsExclusive v r)

exclusive_test :
    (a b : Bool) (c d : ℕ) → (a ≡ true → b ≡ true → c ≡ d) → (a && b && not (c == d)) ≡ false
exclusive_test a b c d h = ground (arith, h)

-- From a state in which the lock's fields agree with where the CPUs are, over any interleaving of
-- the steps of `acquire` and `release` of any number of CPUs: `holding` is true exactly for a CPU
-- between the two, and of the CPUs past the `xchg` and before the unlocking store there is at most
-- one.
pub holding_iff :
    {s : State} {l : Spinlock} {at : ℕ → Place} (c d : ℕ)
    → IsExclusive s
    → Reach s (l, at)
    → ((holding c l ≡ true) ↔ (at c ≡ inside))
      × ((busy (at c) && busy (at d) && not (c == d)) ≡ false)
unfolding holding
holding_iff {l} {at} c d start r =
    let v = Reach-IsExclusive start r in
    (
      (
        (λ h. inside_of (at c) (v.owned c (ground arith))),
        λ h. rw (v.locks c (rw h refl), v.owner c (rw h refl), ==_refl (suc c)),
      ),
      exclusive_test (busy (at c)) (busy (at d)) c d (v.one c d),
    )
