-- ===== src/Shell/Total.antt =====
-- parseline and parsepipe of sh.c, and the parser as a whole.
use modified_xv.Base.{
  ℕ, zero, suc, ◌+◌, ◌*◌, ◌≤◌, ◌<◌, ◌≡◌, refl, arith, List, [], ◌∷◌, if_ind, length,
}
use modified_xv.Shell.{
  Command, list, pipe, back, Outcome, ok, failed, syntax, out_of_fuel, ◌>>◌, Level, line, pipeline,
  simple, block, skip, starts, peek, gettoken, parse_pipe, parse_backs, parse_line, parse, parsecmd,
}
use modified_xv.Shell.Progress.{skip_short, hit_shorter}
use modified_xv.Shell.Fuel.{
  Parses, Fits, Yields-then, Yields-weaken, parse_exec_lem, parse_block_lem,
}

parse_pipe_lem :
    (first more : List ℕ → Outcome Command) (s : List ℕ)
    → Parses (length s) (first s)
    → ((t : List ℕ) → length t < length s → Parses (length t) (more t))
    → Parses (length s) (parse_pipe first more s)
unfolding parse_pipe peek
parse_pipe_lem first more s h k =
    let n = length s in
    Yields-then Fits Fits n n (first s) _ h λ c s1 fit le.
      let t = (gettoken (skip s1)).rest in
      if_ind (Parses n) (starts (124 ∷ []) (skip s1)) _ _
        (λ e.
          let less = hit_shorter (124 ∷ []) s1 e in
          Yields-then Fits Fits (length t) n (more t) (λ d s3. ok (pipe c d) s3)
            (k t (omega (arith, less, le)))
            λ d s3 fit3 le3. ((fit, fit3), omega (arith, le, le3, less)))
        (λ e. (fit, omega (arith, le, skip_short s1)))

parse_backs_lem :
    (fuel : ℕ) (c : Command) (s : List ℕ)
    → Fits c
    → length s < fuel
    → Parses (length s) (parse_backs fuel c s)
unfolding parse_backs peek
parse_backs_lem zero c s fit lt = absurd (omega arith)
parse_backs_lem (suc fuel) c s fit lt =
    let t = (gettoken (skip s)).rest in
    if_ind (Parses (length s)) (starts (38 ∷ []) (skip s)) _ _
      (λ e.
        let less = hit_shorter (38 ∷ []) s e in
        Yields-weaken Fits (length t) (length s) (parse_backs fuel (back c) t) (omega (arith, less))
          (parse_backs_lem fuel (back c) t fit (omega (arith, less, lt))))
      (λ e. (fit, skip_short s))

parse_line_lem :
    (first more : List ℕ → Outcome Command) (s : List ℕ)
    → Parses (length s) (first s)
    → ((t : List ℕ) → length t < length s → Parses (length t) (more t))
    → Parses (length s) (parse_line first more s)
unfolding parse_line peek
parse_line_lem first more s h k =
    let n = length s in
    Yields-then Fits Fits n n (first s) _ h λ c s1 fit le.
      Yields-then Fits Fits (length s1) n (parse_backs (suc (length s1)) c s1) _
        (parse_backs_lem (suc (length s1)) c s1 fit (omega arith))
        λ d s2 fit2 le2.
          let t = (gettoken (skip s2)).rest in
          if_ind (Parses n) (starts (59 ∷ []) (skip s2)) _ _
            (λ e.
              let less = hit_shorter (59 ∷ []) s2 e in
              Yields-then Fits Fits (length t) n (more t) (λ x s4. ok (list d x) s4)
                (k t (omega (arith, less, le, le2)))
                λ x s4 fit4 le4. ((fit2, fit4), omega (arith, le, le2, le4, less)))
            (λ e. (fit2, omega (arith, le, le2, skip_short s2)))

-- The calls before the next character is consumed.
abbrev pub depth : Level → ℕ
depth line = 4
depth pipeline = 3
depth simple = 2
depth block = 1

pub parse_lem :
    (fuel : ℕ) (l : Level) (s : List ℕ)
    → 4 * length s + depth l ≤ fuel
    → Parses (length s) (parse fuel l s)
unfolding parse
parse_lem zero line s le = absurd (omega arith)
parse_lem zero pipeline s le = absurd (omega arith)
parse_lem zero simple s le = absurd (omega arith)
parse_lem zero block s le = absurd (omega arith)
parse_lem (suc fuel) line s le =
    parse_line_lem (parse fuel pipeline) (parse fuel line) s
      (parse_lem fuel pipeline s (omega arith)) λ t lt. parse_lem fuel line t (omega arith)
parse_lem (suc fuel) pipeline s le =
    parse_pipe_lem (parse fuel simple) (parse fuel pipeline) s
      (parse_lem fuel simple s (omega arith)) λ t lt. parse_lem fuel pipeline t (omega arith)
parse_lem (suc fuel) simple s le =
    parse_exec_lem (parse fuel block) s λ t l. parse_lem fuel block t (omega arith)
parse_lem (suc fuel) block s le =
    parse_block_lem (parse fuel line) s λ t lt. parse_lem fuel line t (omega arith)

-- What `parsecmd` may give.
abbrev pub Answer : Outcome Command → Type 0
Answer (ok c rest) = Fits c × (rest ≡ [])
Answer (failed p) = Unit
Answer out_of_fuel = ⊥

leftovers :
    (c : Command) (t : List ℕ) → Fits c → Answer (elim t [ [] ↦ ok c [] | _ ∷ _ ↦ failed syntax ])
leftovers c [] fit = (fit, refl)
leftovers c (x ∷ xs) fit = tt

-- On every text `parsecmd` comes to its end within the fuel that it is given: with a command in
-- which no `exec` has MAXARGS arguments or more, and no text left, or with a panic.
pub parsecmd_lem : (s : List ℕ) → Answer (parsecmd s)
unfolding parsecmd
parsecmd_lem s =
    answer (parse (4 * length s + 4) line s) (parse_lem (4 * length s + 4) line s (omega arith))
  where
    answer :
        (r : Outcome Command)
        → Parses (length s) r
        → Answer (r >> λ c s1. elim (skip s1) [ [] ↦ ok c [] | _ ∷ _ ↦ failed syntax ])
    answer (ok c s1) h = leftovers c (skip s1) h.0
    answer (failed p) h = tt
    answer out_of_fuel h = h
