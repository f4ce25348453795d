-- ===== src/Locks/Nesting.antt =====
-- Matched sequences of pushcli and popcli of spinlock.c.
use modified_xv.Base.{
  ℕ, ◌+◌, ◌<◌, ◌^◌, ◌≡◌, refl, ◌∙◌, ◌&&◌, false, Option, none, some, arith, ◌==◌, add32, sub32, slt,
}
use modified_xv.Locks.{Cpu, pushcli, popcli}

-- Matched calls.
pub data Nest : Type 0 where
  quiet : Nest
  -- `pushcli`, calls inside, `popcli`, calls after.
  around : Nest → Nest → Nest

abbrev pub depth : Nest → ℕ
depth quiet = 0
depth (around inner after) = 1 + depth inner + depth after

-- All calls in order; `none` is a panic.
pub run : Nest → Cpu → Option Cpu
unfolding pushcli popcli
run quiet c = some c
run (around inner after) c = elim (run inner (pushcli c)) [
  | none ↦ none
  | some c' ↦ elim (popcli c') [ none ↦ none | some c'' ↦ run after c'' ]
]

-- Inside a nest interrupts are off.
abbrev pub Off : Cpu → Type 0
Off c = 0 < c.ncli → c.on ≡ false

-- What a matched sequence leaves: the same flag and count, and inside a nest the saved flag too.
pub record Restored (c : Cpu) (c' : Cpu) : Type 0 where
  pub on : c'.on ≡ c.on
  pub ncli : c'.ncli ≡ c.ncli
  pub intena : 0 < c.ncli → c'.intena ≡ c.intena

pushcli-on : (c : Cpu) → (pushcli c).on ≡ false
unfolding pushcli
pushcli-on c = refl

pushcli-ncli : (c : Cpu) → (pushcli c).ncli ≡ add32 c.ncli 1
unfolding pushcli
pushcli-ncli c = refl

popcli-Restored :
    (c c' : Cpu)
    → Off c
    → c.ncli + 1 < 2 ^ 31
    → Restored (pushcli c) c'
    → (c'' : Cpu) × (popcli c' ≡ some c'') × Restored c c''
unfolding pushcli popcli
popcli-Restored c c' off room r =
    let n : sub32 c'.ncli 1 ≡ c.ncli = omega (arith, r.ncli) in
    let up : slt c.ncli 0 ≡ false = ground arith in
    let saved : c'.intena ≡ (pushcli c).intena = r.intena (omega arith) in
    (
      record c' { ncli = c.ncli; on = c.ncli == 0 && c'.intena },
      rw (r.on, n, up) refl,
      record { on = ground (arith, saved, off); ncli = refl; intena = λ h. ground (arith, saved) },
    )

-- From a CPU with interrupts off inside a nest, and while the depth stays below 2 ^ 31, a matched
-- sequence of `pushcli` and `popcli` does not panic and leaves the interrupt flag, the depth and,
-- inside a nest, the saved flag as they were.
pub Nest-Restored :
    (s : Nest) (c : Cpu)
    → Off c
    → c.ncli + depth s < 2 ^ 31
    → (c' : Cpu) × (run s c ≡ some c') × Restored c c'
unfolding run
Nest-Restored quiet c off room = (c, refl, record { on = refl; ncli = refl; intena = λ h. refl })
Nest-Restored (around inner after) c off room =
    let (c1, e1, r1) =
      Nest-Restored inner (pushcli c) (λ h. pushcli-on c) (omega (arith, pushcli-ncli c)) in
    let (c2, e2, r2) = popcli-Restored c c1 off (omega arith) r1 in
    let (c3, e3, r3) =
      Nest-Restored after c2 (λ h. r2.on ∙ off (omega (arith, h, r2.ncli)))
        (omega (arith, r2.ncli)) in
    (
      c3,
      rw (e1, e2) e3,
      record {
        on = r3.on ∙ r2.on;
        ncli = r3.ncli ∙ r2.ncli;
        intena = λ h. r3.intena (omega (arith, h, r2.ncli)) ∙ r2.intena h;
      },
    )
