-- ===== src/Shell/Fuel.antt =====
-- The fuel of the loops and of the calls of the parser of sh.c.
use modified_xv.Base.{ℕ, zero, suc, ◌≤◌, ◌<◌, arith, List, [], ◌∷◌, ◌++◌, ◌==◌, leb, if_ind, length}
use modified_xv.Shell.{
  Command, exec, back, Redirection, Outcome, ok, failed, out_of_fuel, ◌>>◌, ends, redirections,
  maxargs, skip, starts, peek, gettoken, redirs_of, redirection, redirect, parse_redirs, parse_args,
  parse_exec, parse_block,
}
use modified_xv.Shell.Progress.{skip_short, gettoken_short, hit_shorter, kind_shorter}

-- It does not run out of fuel, its value has a property, and at most `n` characters are left.
abbrev pub Yields {ℓ} : {A : Type ℓ} → (A → Type 0) → ℕ → Outcome A → Type 0
Yields P n (ok a s) = P a × (length s ≤ n)
Yields P n (failed p) = Unit
Yields P n out_of_fuel = ⊥

pub Yields-then {ℓ ℓ'} :
    {A : Type ℓ} {B : Type ℓ'} (P : A → Type 0) (Q : B → Type 0) (n m : ℕ) (r : Outcome A)
    (f : A → List ℕ → Outcome B)
    → Yields P n r
    → ((a : A) (s : List ℕ) → P a → length s ≤ n → Yields Q m (f a s))
    → Yields Q m (r >> f)
Yields-then P Q n m (ok a s) f h k = k a s h.0 h.1
Yields-then P Q n m (failed p) f h k = tt
Yields-then P Q n m out_of_fuel f h k = h

pub Yields-weaken {ℓ} :
    {A : Type ℓ} (P : A → Type 0) (n m : ℕ) (r : Outcome A) → n ≤ m → Yields P n r → Yields P m r
Yields-weaken P n m (ok a s) le h = (h.0, omega (arith, le, h.1))
Yields-weaken P n m (failed p) le h = tt
Yields-weaken P n m out_of_fuel le h = h

abbrev Any {ℓ} : {A : Type ℓ} → A → Type 0
Any a = Unit

-- No command has more arguments than `argv` holds beside the null pointer.
abbrev pub Fits : Command → Type 0
Fits (exec argv) = length argv < maxargs
Fits (Command.redir c f m d) = Fits c
Fits (Command.pipe c d) = Fits c × Fits d
Fits (Command.list c d) = Fits c × Fits d
Fits (back c) = Fits c

parse_redirs_lem :
    (fuel : ℕ) (found : List Redirection) (s : List ℕ)
    → length s < fuel
    → Yields Any (length s) (parse_redirs fuel found s)
unfolding parse_redirs peek
parse_redirs_lem zero found s lt = absurd (omega arith)
parse_redirs_lem (suc fuel) found s lt =
    let t = gettoken (skip s) in
    let u = gettoken t.rest in
    if_ind (Yields Any (length s)) (starts redirections (skip s)) _ _
      (λ e.
        if_ind (Yields Any (length s)) (u.kind == 97) _ _
          (λ k.
            let less = hit_shorter redirections s e in
            let end = gettoken_short t.rest in
            Yields-weaken Any (length u.rest) (length s)
              (parse_redirs fuel (found ++ redirection t.kind u.text) u.rest)
              (omega (arith, less, end))
              (parse_redirs_lem fuel (found ++ redirection t.kind u.text) u.rest
                (omega (arith, less, end, lt))))
          (λ k. tt))
      (λ e. (tt, skip_short s))

Fits-redirect : (rs : List Redirection) (c : Command) → Fits c → Fits (redirect rs c)
unfolding redirect
Fits-redirect [] c h = h
Fits-redirect (r ∷ rs) c h = Fits-redirect rs (Command.redir c r.file r.mode r.fd) h

abbrev pub Parses : ℕ → Outcome Command → Type 0
Parses n r = Yields Fits n r

redirs_of_lem : (found : List Redirection) (s : List ℕ) → Yields Any (length s) (redirs_of found s)
redirs_of_lem found s = parse_redirs_lem (suc (length s)) found s (omega arith)

parse_args_lem :
    (fuel : ℕ) (argv : List (List ℕ)) (found : List Redirection) (s : List ℕ)
    → length argv < maxargs
    → length s < fuel
    → Parses (length s) (parse_args fuel argv found s)
unfolding parse_args peek
parse_args_lem zero argv found s few lt = absurd (omega arith)
parse_args_lem (suc fuel) argv found s few lt =
    let n = length s in
    let t = gettoken (skip s) in
    let argv1 = argv ++ (t.text ∷ []) in
    let done = Fits-redirect found (exec argv) few in
    if_ind (Parses n) (starts ends (skip s)) _ _ (λ e. (done, skip_short s))
      λ e.
        if_ind (Parses n) (t.kind == 0) _ _
          (λ k. (done, omega (arith, gettoken_short (skip s), skip_short s)))
          λ k.
            let less = kind_shorter s k in
            if_ind (Parses n) (t.kind == 97) _ _
              (λ w.
                if_ind (Parses n) (leb maxargs (length argv1)) _ _ (λ m. tt)
                  λ m.
                    Yields-then Any Fits (length t.rest) n (redirs_of found t.rest)
                      (λ found1 s2. parse_args fuel argv1 found1 s2) (redirs_of_lem found t.rest)
                      λ found1 s2 a le.
                        Yields-weaken Fits (length s2) n (parse_args fuel argv1 found1 s2)
                          (omega (arith, le, less))
                          (parse_args_lem fuel argv1 found1 s2 (ground arith)
                            (omega (arith, le, less, lt))))
              (λ w. tt)

pub parse_exec_lem :
    (inner : List ℕ → Outcome Command) (s : List ℕ)
    → ((t : List ℕ) → length t ≤ length s → Parses (length t) (inner t))
    → Parses (length s) (parse_exec inner s)
unfolding parse_exec peek
parse_exec_lem inner s h =
    let short = skip_short s in
    if_ind (Parses (length s)) (starts (40 ∷ []) (skip s)) _ _
      (λ e.
        Yields-weaken Fits (length (skip s)) (length s) (inner (skip s)) short (h (skip s) short))
      (λ e.
        Yields-then Any Fits (length (skip s)) (length s) (redirs_of [] (skip s))
          (λ found s2. parse_args (suc (length s2)) [] found s2) (redirs_of_lem [] (skip s))
          λ found s2 a le.
            Yields-weaken Fits (length s2) (length s) (parse_args (suc (length s2)) [] found s2)
              (omega (arith, le, short))
              (parse_args_lem (suc (length s2)) [] found s2 (omega arith) (omega arith)))

pub parse_block_lem :
    (inner : List ℕ → Outcome Command) (s : List ℕ)
    → ((t : List ℕ) → length t < length s → Parses (length t) (inner t))
    → Parses (length s) (parse_block inner s)
unfolding parse_block peek
parse_block_lem inner s h =
    let n = length s in
    let t = (gettoken (skip s)).rest in
    if_ind (Parses n) (starts (40 ∷ []) (skip s)) _ _
      (λ e.
        let less = hit_shorter (40 ∷ []) s e in
        Yields-then Fits Fits (length t) n (inner t) _ (h t (omega (arith, less))) λ c s2 fit le.
          let u = (gettoken (skip s2)).rest in
          if_ind (Parses n) (starts (41 ∷ []) (skip s2)) _ _
            (λ z.
              Yields-then Any Fits (length u) n (redirs_of [] u)
                (λ found s4. ok (redirect found c) s4) (redirs_of_lem [] u)
                λ found s4 a le4. (
                  Fits-redirect found c fit,
                  omega (arith, le, le4, less, gettoken_short (skip s2), skip_short s2),
                ))
            (λ z. tt))
      (λ e. tt)
