-- ===== src/Shell/Words.antt =====
-- The loops of parseredirs and parseexec of sh.c on the text of arguments and redirections.
use modified_xv.Base.{
  ℕ, zero, suc, ◌<◌, ◌≡◌, refl, sym, ap, ◌∙◌, arith, true, false, ◌||◌, List, [], ◌∷◌, ◌++◌, ◌==◌,
  ==_iff, Bool-cases, inl, inr, if_ind, has, length, length-append,
}
use mathlib.Core.List.{append-nil, append_assoc}
use modified_xv.Shell.{
  whitespace, symbols, skip, starts, peek, gettoken, Redirection, redirection, redirections,
  o_write, ok, parse_redirs, ends,
}
use modified_xv.Shell.Progress.{skip_trimmed, skip_short}
use modified_xv.Shell.Grammar.{IsRedir, AllRedirs, put_redirs, operator}
use modified_xv.Shell.Tokens.{
  skip-skip, Stops, gettoken_word, gettoken_symbol, gettoken_greater, skip_word,
}

-- The text after a simple command: nothing, or a character that ends it.
abbrev pub Ends : List ℕ → Type 0
Ends [] = Unit
Ends (c ∷ cs) = has c ends ≡ true

pub redirs_stop : (rs : List Redirection) (k : List ℕ) → Ends k → Stops (put_redirs rs k)
redirs_stop [] [] h = tt
redirs_stop [] (c ∷ cs) h = ground arith
redirs_stop (r ∷ rs) k h =
    if_ind (λ c. (has c whitespace || has c symbols) ≡ true) (r.fd == 0) 60 62 (λ e. refl)
      (λ e. refl)

-- The two tokens of a redirection.
operator_token :
    (r : Redirection) (k : List ℕ)
    → IsRedir r
    → gettoken (operator r ∷ (r.file ++ k))
      ≡ record { kind = operator r; text = operator r ∷ []; rest = r.file ++ k }
operator_token r k h = elim (Bool-cases (r.fd == 0)) [
  | inl e ↦ rw e (gettoken_symbol 60 (r.file ++ k) refl refl ∙ rw (skip_word r.file k h.named) refl)
  | inr e ↦ rw e (gettoken_greater r.file k h.named)
]

redirection_of : (r : Redirection) → IsRedir r → redirection (operator r) r.file ≡ r ∷ []
unfolding redirection
redirection_of r h = elim (Bool-cases (r.fd == 0)) [
  | inl e ↦
      let m : r.mode ≡ 0 = rw e at h.mode in
      let z : r.fd ≡ 0 = (==_iff _ _).0 e in rw (e, m, z) refl
  | inr e ↦
      let m : r.mode ≡ o_write = rw e at h.mode in
      let z : r.fd ≡ 1 = ground (arith, e, h.fd) in rw (e, m, z) refl
]

pub operator_hit : (r : Redirection) (k : List ℕ) → skip (operator r ∷ k) ≡ operator r ∷ k
operator_hit r k = elim (Bool-cases (r.fd == 0)) [
  | inl e ↦ rw e (skip_trimmed (60 ∷ k) refl)
  | inr e ↦ rw e (skip_trimmed (62 ∷ k) refl)
]

pub starts_redir : (r : Redirection) (k : List ℕ) → starts redirections (operator r ∷ k) ≡ true
starts_redir r k = if_ind (λ c. has c redirections ≡ true) (r.fd == 0) 60 62 (λ e. refl) (λ e. refl)

pub parse_redirs_text :
    (rs : List Redirection) (fuel : ℕ) (found : List Redirection) (s k : List ℕ)
    → AllRedirs rs
    → Ends k
    → starts redirections (skip k) ≡ false
    → skip s ≡ skip (put_redirs rs k)
    → length s < fuel
    → parse_redirs fuel found s ≡ ok (found ++ rs) (skip k)
unfolding parse_redirs peek
parse_redirs_text rs zero found s k all stop quiet eq lt = absurd (omega arith)
parse_redirs_text [] (suc fuel) found s k all stop quiet eq lt =
    rw (eq, quiet) (ap (λ f. ok f (skip k)) (sym (append-nil found)))
parse_redirs_text (r ∷ rs) (suc fuel) found s k (h, t) stop quiet eq lt =
    let more = put_redirs rs k in
    let p : skip s ≡ operator r ∷ (r.file ++ more) = eq ∙ operator_hit r (r.file ++ more) in
    let w = gettoken_word r.file more h.named (redirs_stop rs k stop) in
    let ih =
      parse_redirs_text rs fuel (found ++ (r ∷ [])) (skip more) k t stop quiet (skip-skip more) (
        omega (arith, lt, skip_short more, skip_short s, ap length p, length-append r.file more)) in
    rw (p, starts_redir r (r.file ++ more), operator_token r more h, w, redirection_of r h)
      (ih ∙ ap (λ f. ok f (skip k)) (append_assoc found (r ∷ []) rs))
