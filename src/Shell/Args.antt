-- ===== src/Shell/Args.antt =====
-- parseexec of sh.c on the text of a simple command.
use modified_xv.Base.{
  ℕ, zero, suc, ◌+◌, ◌≤◌, ◌<◌, ◌≡◌, refl, ap, ◌∙◌, arith, false, List, [], ◌∷◌, ◌++◌, ◌==◌, leb,
  if_ind, has, length, length-append,
}
use mathlib.Core.List.{append_assoc}
use modified_xv.Shell.{
  skip, starts, peek, token, gettoken, Redirection, redirections, redirect, Command, exec, Outcome,
  ok, parse_redirs, redirs_of, parse_args, parse_exec, ends, maxargs,
}
use modified_xv.Shell.Progress.{skip_trimmed, skip_short}
use modified_xv.Shell.Grammar.{IsWord, AllWords, AllRedirs, put_redirs, put_args}
use modified_xv.Shell.Tokens.{skip-skip, Stops, gettoken_word, skip_word, plain_symbol}
use modified_xv.Shell.Words.{Ends, redirs_stop, parse_redirs_text, operator_hit}

pub skip-Ends : (k : List ℕ) → Ends k → skip k ≡ k
skip-Ends [] h = skip_trimmed [] tt
skip-Ends (c ∷ cs) h = skip_trimmed (c ∷ cs) (ground arith)

-- Neither a word nor the end of a command is a redirection.
pub Ends-quiet : (k : List ℕ) → Ends k → starts redirections k ≡ false
Ends-quiet [] h = refl
Ends-quiet (c ∷ cs) h = ground arith

word_quiet : (w k : List ℕ) → IsWord w → starts redirections (w ++ k) ≡ false
word_quiet [] k p = absurd p
word_quiet (c ∷ cs) k p = let y = plain_symbol c p.0 in ground arith

word_long : (w : List ℕ) → IsWord w → 1 ≤ length w
word_long [] p = absurd p
word_long (c ∷ cs) p = omega arith

word_goes_on : (w k : List ℕ) → IsWord w → starts ends (w ++ k) ≡ false
word_goes_on [] k p = absurd p
word_goes_on (c ∷ cs) k p = let y = plain_symbol c p.0 in ground arith

parse_redirs_none :
    (fuel : ℕ) (found : List Redirection) (s : List ℕ)
    → starts redirections (skip s) ≡ false
    → parse_redirs (suc fuel) found s ≡ ok found (skip s)
unfolding parse_redirs peek
parse_redirs_none fuel found s quiet = rw quiet refl

-- A space before the next word.
skip_arg : (w k : List ℕ) → IsWord w → skip (32 ∷ (w ++ k)) ≡ w ++ k
unfolding skip
skip_arg w k p = skip_word w k p

args_stop :
    (ws : List (List ℕ)) (rs : List Redirection) (k : List ℕ)
    → Ends k
    → Stops (put_args ws (put_redirs rs k))
args_stop [] rs k h = redirs_stop rs k h
args_stop (w ∷ ws) rs k h = refl

gettoken_nil : gettoken [] ≡ record { kind = 0; text = []; rest = [] }
unfolding gettoken token skip
gettoken_nil = refl

-- After the last argument.
parse_args_end :
    (fuel : ℕ) (argv : List (List ℕ)) (found : List Redirection) (s k : List ℕ)
    → Ends k
    → skip s ≡ k
    → parse_args (suc fuel) argv found s ≡ ok (redirect found (exec argv)) k
unfolding parse_args peek
parse_args_end fuel argv found s [] h eq = rw (eq, gettoken_nil) refl
parse_args_end fuel argv found s (c ∷ cs) h eq = rw (eq, h) refl

-- One argument.
parse_args_step :
    (fuel : ℕ) (argv : List (List ℕ)) (found found1 : List Redirection) (s w k s2 : List ℕ)
    → IsWord w
    → Stops k
    → skip s ≡ w ++ k
    → suc (length argv) < maxargs
    → redirs_of found (skip k) ≡ ok found1 s2
    → parse_args (suc fuel) argv found s ≡ parse_args fuel (argv ++ (w ∷ [])) found1 s2
unfolding parse_args peek
parse_args_step fuel argv found found1 s w k s2 p stop eq few h =
    let m : leb maxargs (length (argv ++ (w ∷ []))) ≡ false =
      ground (arith, few, length-append argv (w ∷ [])) in
    rw (eq, word_goes_on w k p, gettoken_word w k p stop, m, h) refl

parse_args_text :
    (w : List ℕ) (ws : List (List ℕ)) (rs : List Redirection) (fuel : ℕ) (argv : List (List ℕ))
    (found : List Redirection) (s k : List ℕ)
    → AllWords (w ∷ ws)
    → AllRedirs rs
    → Ends k
    → length argv + length (w ∷ ws) < maxargs
    → skip s ≡ w ++ put_args ws (put_redirs rs k)
    → length s < fuel
    → parse_args fuel argv found s ≡ ok (redirect (found ++ rs) (exec (argv ++ (w ∷ ws)))) k
parse_args_text w ws rs zero argv found s k all redirs stop few eq lt = absurd (omega arith)
parse_args_text w ws rs (suc zero) argv found s k all redirs stop few eq lt = absurd (
    omega (
      arith,
      lt,
      skip_short s,
      ap length eq,
      length-append w (put_args ws (put_redirs rs k)),
      word_long w all.0,
    ))
parse_args_text w [] rs (suc (suc fuel)) argv found s k all redirs stop few eq lt =
    let kk = skip-Ends k stop in
    let r =
      parse_redirs_text rs (suc (length (skip (put_redirs rs k)))) found (skip (put_redirs rs k)) k
        redirs stop (rw kk (Ends-quiet k stop)) (skip-skip (put_redirs rs k)) (omega arith) in
    parse_args_step (suc fuel) argv found (found ++ rs) s w (put_redirs rs k) (skip k) all.0
      (redirs_stop rs k stop) eq (omega (arith, few)) r
    ∙ parse_args_end fuel (argv ++ (w ∷ [])) (found ++ rs) (skip k) k stop (skip-skip k ∙ kk)
parse_args_text w (v ∷ ws) rs (suc (suc fuel)) argv found s k all redirs stop few eq lt =
    let more = put_args ws (put_redirs rs k) in
    let q = skip_arg v more all.1.0 in
    let twice : skip (skip (skip (32 ∷ (v ++ more)))) ≡ v ++ more =
      skip-skip (skip (32 ∷ (v ++ more))) ∙ skip-skip (32 ∷ (v ++ more)) ∙ q in
    let long = length-append w (32 ∷ (v ++ more)) in
    let r =
      parse_redirs_none (length (skip (32 ∷ (v ++ more)))) found (skip (32 ∷ (v ++ more)))
        (rw (skip-skip (32 ∷ (v ++ more)), q) (word_quiet v more all.1.0)) in
    parse_args_step (suc fuel) argv found found s w (32 ∷ (v ++ more))
      (skip (skip (32 ∷ (v ++ more)))) all.0 refl eq (omega (arith, few)) r
    ∙ parse_args_text v ws rs (suc fuel) (argv ++ (w ∷ [])) found (skip (skip (32 ∷ (v ++ more)))) k
        all.1 redirs stop (omega (arith, few, length-append argv (w ∷ []))) twice
        (omega (
          arith,
          lt,
          skip_short s,
          ap length eq,
          long,
          word_long w all.0,
          skip_short (32 ∷ (v ++ more)),
          skip_short (skip (32 ∷ (v ++ more))),
        ))
    ∙ ap (λ a. ok (redirect (found ++ rs) (exec a)) k) (append_assoc argv (w ∷ []) (v ∷ ws))

word_opens : (w k : List ℕ) → IsWord w → starts (40 ∷ []) (w ++ k) ≡ false
word_opens [] k p = absurd p
word_opens (c ∷ cs) k p = let y = plain_symbol c p.0 in ground arith

redirs_open :
    (rs : List Redirection) (k : List ℕ)
    → Ends k
    → starts (40 ∷ []) (skip (put_redirs rs k)) ≡ false
redirs_open [] [] h = rw (skip-Ends [] tt) refl
redirs_open [] (c ∷ cs) h = rw (skip-Ends (c ∷ cs) h) (ground arith)
redirs_open (r ∷ rs) k h =
    rw (operator_hit r (r.file ++ put_redirs rs k))
      (if_ind (λ c. has c (40 ∷ []) ≡ false) (r.fd == 0) 60 62 (λ e. refl) (λ e. refl))

-- A simple command.
pub parse_exec_text :
    (argv : List (List ℕ)) (rs : List Redirection) (inner : List ℕ → Outcome Command) (s k : List ℕ)
    → AllWords argv
    → AllRedirs rs
    → length argv < maxargs
    → Ends k
    → skip s ≡ skip (put_args argv (put_redirs rs k))
    → parse_exec inner s ≡ ok (redirect rs (exec argv)) k
unfolding parse_exec peek
parse_exec_text [] rs inner s k all redirs few stop eq =
    let kk = skip-Ends k stop in
    let r =
      parse_redirs_text rs (suc (length (skip s))) [] (skip s) k redirs stop
        (rw kk (Ends-quiet k stop)) (skip-skip s ∙ eq) (omega arith) in
    let open_no = redirs_open rs k stop in
    rw (eq, open_no, rw eq at r)
      (parse_args_end (length (skip k)) [] rs (skip k) k stop (skip-skip k ∙ kk))
parse_exec_text (w ∷ ws) rs inner s k all redirs few stop eq =
    let more = put_args ws (put_redirs rs k) in
    let p : skip s ≡ w ++ more = eq ∙ skip_arg w more all.0 in
    let r =
      parse_redirs_none (length (skip s)) [] (skip s)
        (rw (skip-skip s, p) (word_quiet w more all.0)) in
    let t = skip-skip s ∙ p in
    rw (ap (starts (40 ∷ [])) p ∙ word_opens w more all.0, r)
      (parse_args_text w ws rs (suc (length (skip (skip s)))) [] [] (skip (skip s)) k all redirs
        stop (omega (arith, few)) (skip-skip (skip s) ∙ t) (omega arith))
