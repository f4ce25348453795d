-- ===== src/Proc/Queue/Refine.antt =====
-- The array loops of Queue beside list operations on the contents of the row.
use modified_xv.Base.{
  ℕ, zero, suc, ◌+◌, ◌-◌, ◌≤◌, ◌<◌, ◌≡◌, refl, sym, ◌∙◌, ap, inl, inr, none, some, Bool, true,
  false, ◌||◌, List, [], ◌∷◌, ◌++◌, arith, ltb, ◌==◌, if◌then◌else◌, Bool-cases, Option-cases,
  update, window, window_congr, window_snoc,
}
use native.Mathlib.Numerals.{add-one}
use mathlib.Core.Path.{ap₂}
use modified_xv.Proc.State.{Proc, Row}
use modified_xv.Proc.Queue.{search, shift, find, remove_at, remove, append, contents}

module _ (table : ℕ → Proc) (pid : ℕ) where
  abbrev pub has_pid : List ℕ → Bool
  has_pid [] = false
  has_pid (x ∷ xs) = (table x).pid == pid || has_pid xs

  -- The list without the first process of this pid.
  abbrev pub erase_pid : List ℕ → List ℕ
  erase_pid [] = []
  erase_pid (x ∷ xs) = if (table x).pid == pid then xs else x ∷ erase_pid xs

  pub erase_pid_absent : (xs : List ℕ) → has_pid xs ≡ false → erase_pid xs ≡ xs
  erase_pid_absent [] h = refl
  erase_pid_absent (x ∷ xs) h = ground (arith, erase_pid_absent xs)

  -- The entries past index `j` moved down by one.
  abbrev skip : (ℕ → ℕ) → ℕ → ℕ → ℕ
  skip slots j x = if ltb x j then slots x else slots (suc x)

  record Found (slots : ℕ → ℕ) (i left j : ℕ) : Type 0 where
    from : i ≤ j
    below : j < i + left
    hit : has_pid (window slots i left) ≡ true
    gap : (n : ℕ) → suc n ≡ left → window (skip slots j) i n ≡ erase_pid (window slots i left)

  window-skip :
      (slots : ℕ → ℕ) (j i n : ℕ) → j ≤ i → window (skip slots j) i n ≡ window slots (suc i) n
  window-skip slots j i zero h = refl
  window-skip slots j i (suc n) h = ground (arith, window-skip slots j (suc i) n)

  Found-here :
      (slots : ℕ → ℕ) (i left : ℕ)
      → ((table (slots i)).pid == pid) ≡ true
      → Found slots i (suc left) i
  Found-here slots i left e = record {
    from = omega arith;
    below = omega arith;
    hit = rw e;
    gap = λ n p.
        rw e
          (window-skip slots i i n (omega arith) ∙ ap (λ m. window slots (suc i) m) (omega arith));
  }

  gap-there :
      (slots : ℕ → ℕ) (i left j n : ℕ)
      → Found slots (suc i) left j
      → n ≡ left
      → window (skip slots j) i n ≡ slots i ∷ erase_pid (window slots (suc i) left)
  gap-there slots i left j zero f p = absurd (omega arith)
  gap-there slots i left j (suc m) f p = ground (arith, f.gap m p)

  Found-there :
      (slots : ℕ → ℕ) (i left j : ℕ)
      → ((table (slots i)).pid == pid) ≡ false
      → Found slots (suc i) left j
      → Found slots i (suc left) j
  Found-there slots i left j e f = record {
    from = omega arith;
    below = omega arith;
    hit = rw e f.hit;
    gap = λ n p. rw e (gap-there slots i left j n f (omega arith));
  }

  search-none :
      (slots : ℕ → ℕ) (i left : ℕ)
      → search table pid slots i left ≡ none
      → has_pid (window slots i left) ≡ false
  unfolding search
  search-none slots i zero h = refl
  search-none slots i (suc left) h = ground (arith, search-none slots (suc i) left)

  search-some :
      (slots : ℕ → ℕ) (i left j : ℕ) → search table pid slots i left ≡ some j → Found slots i left j
  unfolding search
  search-some slots i zero j h = absurd (ground arith)
  search-some slots i (suc left) j h = elim (Bool-cases ((table (slots i)).pid == pid)) [
    | inl e ↦ ground (arith, Found-here slots i left e)
    | inr e ↦ Found-there slots i left j e (search-some slots (suc i) left j (ground arith))
  ]

shift_lem :
    (slots : ℕ → ℕ) (i left x : ℕ)
    → shift slots i left x
      ≡ (if ltb x i then slots x else if ltb x (i + left) then slots (suc x) else slots x)
unfolding shift
shift_lem slots i zero x = ground arith
shift_lem slots i (suc left) x =
    ground (arith, shift_lem (update slots i (slots (suc i))) (suc i) left x)

module _ (table : ℕ → Proc) (pid : ℕ) (row : Row) where
  -- The search finds an entry exactly where the contents hold the pid.
  pub find-none : find table pid row ≡ none → has_pid table pid (contents row) ≡ false
  unfolding find
  find-none h = search-none table pid row.slots 0 row.count h

  pub find-some :
      (j : ℕ)
      → find table pid row ≡ some j
      → (has_pid table pid (contents row) ≡ true) × (j < row.count)
  unfolding find
  find-some j h = let f = search-some table pid row.slots 0 row.count j h in (f.hit, omega arith)

  pub contents-remove_at :
      (j : ℕ)
      → find table pid row ≡ some j
      → contents (remove_at row j) ≡ erase_pid table pid (contents row)
  unfolding find remove_at
  contents-remove_at j h =
      let f = search-some table pid row.slots 0 row.count j h in
      window_congr _ _ 0 (row.count - 1)
        (λ x a b. ground (arith, shift_lem row.slots j (row.count - 1 - j) x))
      ∙ f.gap (row.count - 1) (omega arith)

  -- Searching a queue and shifting its entries erases the first process with the pid from the list
  -- that the queue holds, and changes nothing without one.
  pub contents-remove : contents (remove table pid row) ≡ erase_pid table pid (contents row)
  unfolding remove
  contents-remove = elim (Option-cases (find table pid row)) [
    | inl e ↦ rw (e, remove) (sym (erase_pid_absent table pid (contents row) (find-none e)))
    | inr (j, e) ↦ rw (e, remove) (contents-remove_at j e)
  ]

-- The append puts the process behind the others.
pub contents-append : (row : Row) (p : ℕ) → contents (append row p) ≡ contents row ++ (p ∷ [])
unfolding append
contents-append row p =
    ap (λ n. window (append row p).slots 0 n) (add-one row.count)
    ∙ window_snoc (append row p).slots 0 row.count
    ∙ ap₂ (λ xs x. xs ++ (x ∷ [])) (window_congr _ _ 0 row.count (λ j a b. ground arith))
        (ground arith)
