-- ===== src/Shell/Complete.antt =====
-- The parser of sh.c on the text of a phrase.
use modified_xv.Base.{
  ℕ, zero, suc, ◌+◌, ◌*◌, ◌≤◌, ◌<◌, ◌≡◌, refl, ap, ◌∙◌, arith, true, false, List, [], ◌∷◌, has,
  length,
}
use modified_xv.Shell.{
  skip, starts, peek, gettoken, Redirection, redirect, Command, exec, list, pipe, back, ok, Level,
  line, pipeline, simple, block, parse_exec, parse_block, parse_pipe, parse_backs, parse_line,
  parse, parsecmd, ends, maxargs,
}
use modified_xv.Shell.Progress.{skip_trimmed, skip_short}
use modified_xv.Shell.Total.{depth, parse_lem}
use modified_xv.Shell.Fuel.{Parses}
use modified_xv.Shell.Grammar.{
  Phrase, words, group, alone, piped, last, before, meaning, text, backs, put_backs, put_redirs,
  put_args, AllWords, IsProper, AllRedirs,
}
use modified_xv.Shell.Tokens.{skip-skip, gettoken_symbol}
use modified_xv.Shell.Words.{Ends, parse_redirs_text}
use modified_xv.Shell.Args.{skip-Ends, Ends-quiet, parse_exec_text}

-- What may follow a phrase: nothing, or one of these characters.
abbrev follow : Level → List ℕ
follow line = 41 ∷ []
follow pipeline = 41 ∷ 38 ∷ 59 ∷ []
follow simple = 124 ∷ 41 ∷ 38 ∷ 59 ∷ []
follow block = []

abbrev Follows : Level → List ℕ → Type 0
Follows l [] = Unit
Follows l (c ∷ cs) = has c (follow l) ≡ true

Follows-Ends : (l : Level) (k : List ℕ) → Follows l k → Ends k
Follows-Ends l [] h = tt
Follows-Ends line (c ∷ cs) h = ground arith
Follows-Ends pipeline (c ∷ cs) h = ground arith
Follows-Ends simple (c ∷ cs) h = h
Follows-Ends block (c ∷ cs) h = cc h

Follows-skip : (l : Level) (k : List ℕ) → Follows l k → skip k ≡ k
Follows-skip l k h = skip-Ends k (Follows-Ends l k h)

line-Follows : (k : List ℕ) → Follows line k → Follows pipeline k
line-Follows [] h = tt
line-Follows (c ∷ cs) h = ground arith

pipeline-Follows : (k : List ℕ) → Follows pipeline k → Follows simple k
pipeline-Follows [] h = tt
pipeline-Follows (c ∷ cs) h = ground arith

backs_follow : (n : ℕ) (k : List ℕ) → Follows pipeline k → Follows pipeline (put_backs n k)
backs_follow zero k h = h
backs_follow (suc n) k h = refl

-- What is left is not longer.
rest_short :
    (fuel : ℕ) (l : Level) (s : List ℕ) (c : Command) (k : List ℕ)
    → 4 * length s + depth l ≤ fuel
    → parse fuel l s ≡ ok c k
    → length k ≤ length s
rest_short fuel l s c k le e =
    let h = parse_lem fuel l s le in let h' : Parses (length s) (ok c k) = rw e at h in h'.1

-- A symbol, and the text after it.
peek_symbol :
    (c : ℕ) (t : List ℕ)
    → has c ends ≡ true
    → (skip (c ∷ t) ≡ c ∷ t) × ((gettoken (c ∷ t)).rest ≡ skip t)
peek_symbol c t h =
    (skip-Ends (c ∷ t) h, ap (λ x. x.rest) (gettoken_symbol c t (ground arith) (ground arith)))

parse_backs_text :
    (n fuel : ℕ) (c : Command) (s k : List ℕ)
    → Ends k
    → starts (38 ∷ []) k ≡ false
    → skip s ≡ skip (put_backs n k)
    → length s < fuel
    → parse_backs fuel c s ≡ ok (backs n c) k
unfolding parse_backs peek
parse_backs_text n zero c s k h quiet eq lt = absurd (omega arith)
parse_backs_text zero (suc fuel) c s k h quiet eq lt =
    let p : skip s ≡ k = eq ∙ skip-Ends k h in rw (p, quiet) refl
parse_backs_text (suc n) (suc fuel) c s k h quiet eq lt =
    let (q, r) = peek_symbol 38 (put_backs n k) refl in
    let p : skip s ≡ 38 ∷ put_backs n k = eq ∙ q in
    rw (p, r)
      (parse_backs_text n fuel (back c) (skip (put_backs n k)) k h quiet (skip-skip (put_backs n k))
        (omega (arith, lt, skip_short s, ap length p, skip_short (put_backs n k))))

-- Arguments and redirections.
parse_words :
    (fuel : ℕ) (argv : List (List ℕ)) (rs : List Redirection) (s k : List ℕ)
    → AllWords argv
    → AllRedirs rs
    → length argv < maxargs
    → Ends k
    → skip s ≡ skip (put_args argv (put_redirs rs k))
    → parse (suc fuel) simple s ≡ ok (redirect rs (exec argv)) k
unfolding parse
parse_words fuel argv rs s k a r few h eq =
    parse_exec_text argv rs (parse fuel block) s k a r few h eq

-- A line in parentheses.
parse_group :
    (fuel : ℕ) (s t k : List ℕ) (c : Command) (rs : List Redirection)
    → skip s ≡ 40 ∷ t
    → Ends k
    → AllRedirs rs
    → parse fuel line (skip t) ≡ ok c (41 ∷ put_redirs rs k)
    → parse (suc (suc fuel)) simple s ≡ ok (redirect rs c) k
unfolding parse parse_exec parse_block peek
parse_group fuel s t k c rs eq h redirs inner =
    let open_rest : (gettoken (40 ∷ t)).rest ≡ skip t =
      ap (λ x. x.rest) (gettoken_symbol 40 t refl refl) in
    let twice : skip (40 ∷ t) ≡ 40 ∷ t = skip_trimmed (40 ∷ t) refl in
    let more = put_redirs rs k in
    let (q, r) = peek_symbol 41 more refl in
    let kk = skip-Ends k h in
    let rr =
      parse_redirs_text rs (suc (length (skip more))) [] (skip more) k redirs h
        (rw kk (Ends-quiet k h)) (skip-skip more) (omega arith) in
    rw (eq, twice, open_rest, inner, q, r, rr, kk) refl

-- A simple command alone, and one before `|`.
parse_alone :
    (fuel : ℕ) (s k : List ℕ) (c : Command)
    → Follows pipeline k
    → parse fuel simple s ≡ ok c k
    → parse (suc fuel) pipeline s ≡ ok c k
unfolding parse parse_pipe peek
parse_alone fuel s k c h e =
    let quiet : starts (124 ∷ []) k ≡ false = no_pipe k h in
    rw (e, Follows-skip pipeline k h, quiet) refl
  where
    no_pipe : (t : List ℕ) → Follows pipeline t → starts (124 ∷ []) t ≡ false
    no_pipe [] f = refl
    no_pipe (x ∷ xs) f = ground arith

parse_piped :
    (fuel : ℕ) (s t k : List ℕ) (c d : Command)
    → parse fuel simple s ≡ ok c (124 ∷ t)
    → parse fuel pipeline (skip t) ≡ ok d k
    → parse (suc fuel) pipeline s ≡ ok (pipe c d) k
unfolding parse parse_pipe peek
parse_piped fuel s t k c d e f = let (q, r) = peek_symbol 124 t refl in rw (e, q, r, f) refl

-- A pipeline with its `&`, alone, and one before `;`.
parse_last :
    (fuel n : ℕ) (s k : List ℕ) (c : Command)
    → Follows line k
    → parse fuel pipeline s ≡ ok c (put_backs n k)
    → parse (suc fuel) line s ≡ ok (backs n c) k
unfolding parse parse_line peek
parse_last fuel n s k c h e =
    let b =
      parse_backs_text n (suc (length (put_backs n k))) c (put_backs n k) k (Follows-Ends line k h)
        (no_back k h) refl (omega arith) in
    rw (e, b, Follows-skip line k h, no_list k h) refl
  where
    no_back : (t : List ℕ) → Follows line t → starts (38 ∷ []) t ≡ false
    no_back [] f = refl
    no_back (x ∷ xs) f = ground arith

    no_list : (t : List ℕ) → Follows line t → starts (59 ∷ []) t ≡ false
    no_list [] f = refl
    no_list (x ∷ xs) f = ground arith

parse_before :
    (fuel n : ℕ) (s t k : List ℕ) (c d : Command)
    → parse fuel pipeline s ≡ ok c (put_backs n (59 ∷ t))
    → parse fuel line (skip t) ≡ ok d k
    → parse (suc fuel) line s ≡ ok (list (backs n c) d) k
unfolding parse parse_line peek
parse_before fuel n s t k c d e f =
    let (q, r) = peek_symbol 59 t refl in
    let all = put_backs n (59 ∷ t) in
    let b = parse_backs_text n (suc (length all)) c all (59 ∷ t) refl refl refl (omega arith) in
    rw (e, b, q, r, f) refl

put_backs_long : (n : ℕ) (k : List ℕ) → length k ≤ length (put_backs n k)
put_backs_long zero k = omega arith
put_backs_long (suc n) k = omega (arith, put_backs_long n k)

parse_text :
    {l : Level} (p : Phrase l) (fuel : ℕ) (s k : List ℕ)
    → IsProper p
    → Follows l k
    → skip s ≡ skip (text p k)
    → 4 * length s + depth l ≤ fuel
    → parse fuel l s ≡ ok (meaning p) k
parse_text (words argv rs) zero s k ok_p h eq le = absurd (omega arith)
parse_text (words argv rs) (suc fuel) s k (a, r, few) h eq le =
    parse_words fuel argv rs s k a r few h eq
parse_text (group p rs) zero s k ok_p h eq le = absurd (omega arith)
parse_text (group p rs) (suc zero) s k ok_p h eq le = absurd (omega arith)
parse_text (group p rs) (suc (suc fuel)) s k (op, r) h eq le =
    let t = text p (41 ∷ put_redirs rs k) in
    let q : skip s ≡ 40 ∷ t = eq ∙ skip_trimmed (40 ∷ t) refl in
    parse_group fuel s t k (meaning p) rs q h r (
      parse_text p fuel (skip t) (41 ∷ put_redirs rs k) op refl (skip-skip t)
        (omega (arith, le, skip_short s, ap length q, skip_short t)))
parse_text (alone p) zero s k ok_p h eq le = absurd (omega arith)
parse_text (alone p) (suc fuel) s k ok_p h eq le =
    parse_alone fuel s k (meaning p) h
      (parse_text p fuel s k ok_p (pipeline-Follows k h) eq (omega (arith, le)))
parse_text (piped p q) zero s k ok_p h eq le = absurd (omega arith)
parse_text (piped p q) (suc fuel) s k (op, oq) h eq le =
    let t = text q k in
    let e = parse_text p fuel s (124 ∷ t) op refl eq (omega (arith, le)) in
    let short = rest_short fuel simple s (meaning p) (124 ∷ t) (omega (arith, le)) e in
    parse_piped fuel s t k (meaning p) (meaning q) e
      (parse_text q fuel (skip t) k oq h (skip-skip t) (omega (arith, le, short, skip_short t)))
parse_text (last p n) zero s k ok_p h eq le = absurd (omega arith)
parse_text (last p n) (suc fuel) s k ok_p h eq le = parse_last fuel n s k (meaning p) h (
    parse_text p fuel s (put_backs n k) ok_p (backs_follow n k (line-Follows k h)) eq
      (omega (arith, le)))
parse_text (before p n q) zero s k ok_p h eq le = absurd (omega arith)
parse_text (before p n q) (suc fuel) s k (op, oq) h eq le =
    let t = text q k in
    let all = put_backs n (59 ∷ t) in
    let e = parse_text p fuel s all op (backs_follow n (59 ∷ t) refl) eq (omega (arith, le)) in
    let short = rest_short fuel pipeline s (meaning p) all (omega (arith, le)) e in
    parse_before fuel n s t k (meaning p) (meaning q) e (
      parse_text q fuel (skip t) k oq h (skip-skip t)
        (omega (arith, le, short, skip_short t, put_backs_long n (59 ∷ t))))

-- For every phrase of the grammar whose words and file names have at least one character, none of
-- them white space or a symbol, and whose commands have fewer than MAXARGS arguments, `parsecmd`
-- of the text of the phrase returns the meaning of the phrase.
pub parsecmd_complete : (p : Phrase line) → IsProper p → parsecmd (text p []) ≡ ok (meaning p) []
unfolding parsecmd skip
parsecmd_complete p h =
    let s = text p [] in
    let e = parse_text p (4 * length s + 4) s [] h tt refl (omega arith) in rw e refl
